-- ===== src/Coroutine/SharedStack/Switching.antt =====
-- The bytes of a fiber on a shared stack, zcoroutine/src/runtime/shared_stack.cc, while other fibers run.
use zhttp.Prelude.{
  ℕ, ◌+◌, ◌-◌, ◌<◌, ◌≤◌, ◌≡◌, ◌≢◌, refl, sym, ap, subst, ◌∙◌, true, false, not, ◌&&◌, ◌||◌, ◌++◌,
  Option, none, some, arith, ltb, ◌==◌, ==_iff, Bytes, take, drop, length, length-append,
  length-take, length-drop, take-append_length, Bool-cases, inl, inr, ◌⊎◌,
}
use zhttp.Net.Memory.{Malloc, overwrite, segment-overwrite}
use zhttp.Coroutine.SharedStack.{
  SharedContext, Thread, allocate_stack, new_capacity, set_context, is_inside, live, stored,
  save_stack_buffer, restored, restore_stack_buffer, save_current, save_occupant, take_over,
  switch_to, Turn, worked,
}

module _ (base size : ℕ) (a : Malloc) (f sp : ℕ) (xs : Bytes) where
  -- A context that has the bytes of its fiber, and room for them.
  pub record Holds (ctx : SharedContext) : Type 0 where
    pub shared : ctx.is_shared_stack ≡ true
    pub pointer : ctx.saved_stack_sp ≡ sp
    pub buffer : Bytes
    pub has_buffer : ctx.save_buffer ≡ some buffer
    pub full : ctx.save_size ≡ base + size - sp
    pub content : take (base + size - sp) buffer ≡ xs
    pub room : base + size - sp ≤ ctx.save_buffer_capacity

  -- A stack pointer into the stack, with the bytes above it.
  pub record IsStack : Type 0 where
    pub not_null : 0 < sp
    pub low : base ≤ sp
    pub high : sp < base + size
    pub all : length xs ≡ base + size - sp

  -- Another fiber runs; the stack is there; and the bytes on it are still those of the fiber if it is the occupant.
  pub record IsKept (t : Thread) : Type 0 where
    pub away : t.current_fiber ≢ f
    pub holds : Holds (t.contexts f)
    pub same_pointer : t.stack_pointers f ≡ sp
    pub enough : size ≤ length t.bytes
    pub in_place : (t.occupy_fiber ≢ some f) ⊎ (live base size sp t.bytes ≡ xs)

  stored-Holds :
      (ctx : SharedContext) (bytes block : Bytes) (capacity : ℕ)
      → IsStack
      → ctx.is_shared_stack ≡ true
      → live base size sp bytes ≡ xs
      → base + size - sp ≤ capacity
      → Holds (stored base size sp bytes capacity (some block) ctx)
  unfolding overwrite
  stored-Holds ctx bytes block capacity s shared same enough = record {
    shared = shared;
    pointer = refl;
    buffer = overwrite 0 (live base size sp bytes) block;
    has_buffer = refl;
    full = refl;
    content =
        ap (λ ys. take (base + size - sp) (ys ++ drop (0 + length ys) block)) same
        ∙ take-append_length (base + size - sp) xs _ (sym s.all);
    room = enough;
  }

  saves :
      IsStack
      → (ctx : SharedContext) → ctx.is_shared_stack ≡ true
      → ctx.is_shared_stack && (not (sp == 0) && is_inside base size sp) ≡ true
  saves s ctx shared = ground (arith, shared, s.not_null, s.low, s.high)

  -- A context has a buffer where its capacity is not 0.
  abbrev pub HasBuffer : SharedContext → Type 0
  HasBuffer ctx = ((old : Bytes) × (ctx.save_buffer ≡ some old)) ⊎ (ctx.save_buffer_capacity ≡ 0)

  save_old-Holds :
      (ctx : SharedContext) (bytes : Bytes) (r : Option Bytes) (old : Bytes)
      → IsStack
      → ctx.is_shared_stack ≡ true
      → live base size sp bytes ≡ xs
      → base + size - sp ≤ ctx.save_buffer_capacity
      → r ≡ some old
      → Holds (stored base size sp bytes ctx.save_buffer_capacity r ctx)
  save_old-Holds ctx bytes none old s shared same fits e = absurd (cc)
  save_old-Holds ctx bytes (some block) old s shared same fits e =
      stored-Holds ctx bytes block ctx.save_buffer_capacity s shared same fits

  save_new-Holds :
      (ctx : SharedContext) (bytes : Bytes) (r : Option Bytes) (block : Bytes)
      → IsStack
      → ctx.is_shared_stack ≡ true
      → live base size sp bytes ≡ xs
      → r ≡ some block
      → Holds (stored base size sp bytes (new_capacity (base + size - sp)) r ctx)
  save_new-Holds ctx bytes none block s shared same e = absurd (cc)
  save_new-Holds ctx bytes (some old) block s shared same e =
      stored-Holds ctx bytes old (new_capacity (base + size - sp)) s shared same (omega arith)

  allocated :
      (block : Bytes)
      → IsStack
      → a.malloc (new_capacity (base + size - sp)) ≡ some block
      → allocate_stack a (new_capacity (base + size - sp)) ≡ some block
  allocated block s given =
      let some' : (new_capacity (base + size - sp) == 0) ≡ false = ground (arith, s.high) in
      rw some' given

  -- The first save, with memory for it, and a later one of the same bytes.
  pub save-Holds :
      (ctx : SharedContext) (bytes block : Bytes)
      → IsStack
      → ctx.is_shared_stack ≡ true
      → live base size sp bytes ≡ xs
      → a.malloc (new_capacity (base + size - sp)) ≡ some block
      → HasBuffer ctx
      → Holds (save_stack_buffer base size a bytes sp ctx)
  unfolding save_stack_buffer
  save-Holds ctx bytes block s shared same given had =
      rw (saves s ctx shared) (elim (Bool-cases (ltb ctx.save_buffer_capacity (base + size - sp))) [
        | inl small ↦ rw small (
            save_new-Holds ctx bytes (allocate_stack a (new_capacity (base + size - sp))) block s
              shared same (allocated block s given))
        | inr fits ↦ rw fits (elim had [
          | inl (old, e) ↦
              save_old-Holds ctx bytes ctx.save_buffer old s shared same (ground arith) e
          | inr empty ↦ absurd (ground (arith, empty, fits, s.high))
        ])
      ])

  save-Holds_again :
      (ctx : SharedContext) (bytes : Bytes)
      → IsStack
      → Holds ctx
      → live base size sp bytes ≡ xs
      → Holds (save_stack_buffer base size a bytes sp ctx)
  unfolding save_stack_buffer
  save-Holds_again ctx bytes s h same =
      let fits : ltb ctx.save_buffer_capacity (base + size - sp) ≡ false = ground (arith, h.room) in
      rw (saves s ctx h.shared) (
        rw fits
          (save_old-Holds ctx bytes ctx.save_buffer h.buffer s h.shared same h.room h.has_buffer))

  -- The context of another fiber changes, or that of this one is saved once more.
  kept_context :
      (o : ℕ) (ctx : SharedContext) (t : Thread)
      → (f ≢ o) ⊎ Holds ctx
      → Holds (t.contexts f)
      → Holds ((set_context o ctx t).contexts f)
  kept_context o ctx t other h = elim (Bool-cases (o == f)) [
    | inl same ↦
        rw same (elim other [ inl ne ↦ absurd (ne (sym ((==_iff o f).0 same))) | inr h' ↦ h' ])
    | inr differ ↦ rw differ h
  ]

  pub save_current-IsKept : (t : Thread) → IsKept t → IsKept (save_current base size a t)
  save_current-IsKept t k = elim (Bool-cases (t.contexts t.current_fiber).is_shared_stack) [
    | inr own ↦ rw own k
    | inl shared ↦ rw shared (record {
      away = k.away;
      holds = kept_context t.current_fiber _ t (inl (λ e. k.away (sym e))) k.holds;
      same_pointer = k.same_pointer;
      enough = k.enough;
      in_place = k.in_place;
    })
  ]

  pub save_occupant-IsKept :
      (target : ℕ) (r : Option ℕ) (t : Thread)
      → IsStack
      → t.occupy_fiber ≡ r
      → IsKept t
      → IsKept (save_occupant base size a target r t)
  save_occupant-IsKept target none t s e k = k
  save_occupant-IsKept target (some o) t s e k =
      elim (Bool-cases ((o == target) || (o == t.current_fiber))) [
        | inl skip ↦ rw skip k
        | inr save ↦ rw save (record {
          away = k.away;
          holds = kept_context o _ t (resaved k.in_place) k.holds;
          same_pointer = k.same_pointer;
          enough = k.enough;
          in_place = k.in_place;
        })
      ]
    where
      saved : SharedContext
      saved = save_stack_buffer base size a t.bytes (t.stack_pointers o) (t.contexts o)

      at_f :
          live base size sp t.bytes ≡ xs
          → Holds (save_stack_buffer base size a t.bytes (t.stack_pointers f) (t.contexts f))
      at_f same = rw k.same_pointer (save-Holds_again (t.contexts f) t.bytes s k.holds same)

      some-inj : {m n : ℕ} → some m ≡ some n → m ≡ n
      some-inj e' = cc

      resaved : (t.occupy_fiber ≢ some f) ⊎ (live base size sp t.bytes ≡ xs) → (f ≢ o) ⊎ Holds saved
      resaved (inl ne) = inl (λ e'. ne (e ∙ ap some (sym e')))
      resaved (inr same) = elim (Bool-cases (o == f)) [
        | inl eq ↦ inr (
            subst
              (λ g.
                Holds (save_stack_buffer base size a t.bytes (t.stack_pointers g) (t.contexts g)))
              (sym ((==_iff o f).0 eq)) (at_f same))
        | inr differ ↦ inl (λ e'. ground (arith, e', differ))
      ]

  overwrite_longer : (pos : ℕ) (ys block : Bytes) → length block ≤ length (overwrite pos ys block)
  unfolding overwrite
  overwrite_longer pos ys block = omega (
    arith,
    length-append (take pos block) (ys ++ drop (pos + length ys) block),
    length-append ys (drop (pos + length ys) block),
    length-take pos block,
    length-drop (pos + length ys) block,
  )

  restored_longer :
      (ctx : SharedContext) (r : Option Bytes) (bytes : Bytes)
      → length bytes ≤ length (restored base size ctx r bytes)
  restored_longer ctx none bytes = omega arith
  restored_longer ctx (some buffer) bytes =
      elim (Bool-cases (
        ctx.is_shared_stack
        && (not (ctx.save_size == 0)
            && (not (ctx.saved_stack_sp == 0) && is_inside base size ctx.saved_stack_sp)))) [
              | inl on ↦
                  rw on
                    (overwrite_longer (ctx.saved_stack_sp - base) (take ctx.save_size buffer) bytes)
              | inr off ↦ rw off (omega arith)
            ]

  pub restore_longer :
      (ctx : SharedContext) (bytes : Bytes)
      → size ≤ length bytes
      → size ≤ length (restore_stack_buffer base size ctx bytes)
  unfolding restore_stack_buffer
  restore_longer ctx bytes h = omega (arith, h, restored_longer ctx ctx.save_buffer bytes)

  -- Restoring puts the bytes back where they were.
  pub restored-Holds :
      (ctx : SharedContext) (bytes : Bytes) (r : Option Bytes)
      → IsStack
      → (h : Holds ctx) → size ≤ length bytes
      → r ≡ some h.buffer
      → live base size sp (restored base size ctx r bytes) ≡ xs
  restored-Holds ctx bytes none s h long e = absurd (cc)
  restored-Holds ctx bytes (some buffer) s h long e =
      let go : ctx.is_shared_stack
            && (not (ctx.save_size == 0)
                && (not (ctx.saved_stack_sp == 0) && is_inside base size ctx.saved_stack_sp))
          ≡ true =
        ground (arith, h.shared, h.full, h.pointer, s.not_null, s.low, s.high) in
      let same : take ctx.save_size buffer ≡ xs =
        ap (λ n. take n buffer) h.full
        ∙ ap (take (base + size - sp)) (buffer-inj buffer h.buffer e)
        ∙ h.content in
      rw go (
        ap (λ ys. live base size sp (overwrite (ctx.saved_stack_sp - base) ys bytes)) same
        ∙ ap (λ n. live base size sp (overwrite (n - base) xs bytes)) h.pointer
        ∙ segment-overwrite (sp - base) size xs bytes (omega (arith, long, s.high, s.low))
            (omega (arith, s.all, s.low, s.high)))
    where
      buffer-inj : (b c : Bytes) → some b ≡ some c → b ≡ c
      buffer-inj b c e' = cc

  -- The current fiber, if it runs on the shared stack, is its occupant.
  abbrev pub IsSeated : Thread → Type 0
  IsSeated t =
      ((t.contexts t.current_fiber).is_shared_stack ≡ false)
      ⊎ (t.occupy_fiber ≡ some t.current_fiber)

  pub IsSeated-after : (target : ℕ) (t : Thread) → IsSeated (switch_to base size a target t)
  unfolding switch_to
  IsSeated-after target t =
      elim (Bool-cases ((save_current base size a t).contexts target).is_shared_stack) [
        | inl on ↦ rw on (inr refl)
        | inr off ↦ rw off (inl off)
      ]

  pub some_other : (g : ℕ) → g ≢ f → some g ≢ some f
  some_other g ne e = ne (some-inj e)
    where
      some-inj : {m n : ℕ} → some m ≡ some n → m ≡ n
      some-inj e' = cc

  pub worked-IsKept :
      (u : Turn) (t : Thread) → size ≤ length u.left → IsSeated t → IsKept t → IsKept (worked u t)
  worked-IsKept u t long seat k =
      let other : (t.current_fiber == f) ≡ false = ground (arith, k.away) in
      elim (Bool-cases (t.contexts t.current_fiber).is_shared_stack) [
        | inl on ↦ rw on (record {
          away = k.away;
          holds = k.holds;
          same_pointer = rw other k.same_pointer;
          enough = long;
          in_place = inl (elim seat [
            | inl off ↦ absurd (cc (on, off))
            | inr own ↦ λ e. some_other t.current_fiber k.away (sym own ∙ e)
          ]);
        })
        | inr off ↦ rw off (record {
          away = k.away;
          holds = k.holds;
          same_pointer = rw other k.same_pointer;
          enough = k.enough;
          in_place = k.in_place;
        })
      ]

  taken_over-IsKept :
      (target : ℕ) (t : Thread)
      → target ≢ f
      → IsKept t
      → IsKept (record (take_over base size target t) { current_fiber = target })
  taken_over-IsKept target t ne k = record {
    away = ne;
    holds = k.holds;
    same_pointer = k.same_pointer;
    enough = restore_longer (t.contexts target) t.bytes k.enough;
    in_place = inl (some_other target ne);
  }

  pub switch_to-IsKept :
      (target : ℕ) (t : Thread)
      → IsStack
      → target ≢ f
      → IsKept t
      → IsKept (switch_to base size a target t)
  unfolding switch_to
  switch_to-IsKept target t s ne k =
      let t' = save_current base size a t in
      let k' = save_current-IsKept t k in
      elim (Bool-cases (t'.contexts target).is_shared_stack) [
        | inl on ↦ rw on (
            taken_over-IsKept target (save_occupant base size a target t'.occupy_fiber t') ne
              (save_occupant-IsKept target t'.occupy_fiber t' s refl k'))
        | inr off ↦ rw off (record {
          away = ne;
          holds = k'.holds;
          same_pointer = k'.same_pointer;
          enough = k'.enough;
          in_place = k'.in_place;
        })
      ]
