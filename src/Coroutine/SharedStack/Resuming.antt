-- ===== src/Coroutine/SharedStack/Resuming.antt =====
-- A fiber that is switched away from and back to, zcoroutine/src/runtime/shared_stack.cc.
use zhttp.Prelude.{
  ℕ, ◌+◌, ◌-◌, ◌≤◌, ◌≡◌, ◌≢◌, refl, sym, subst, Bool, true, ◌||◌, List, [], ◌∷◌, some, arith, ◌==◌,
  if◌then◌else◌, Bytes, length, Bool-cases, inl, inr, All,
}
use zhttp.Net.Memory.{Malloc}
use zhttp.Coroutine.SharedStack.{
  SharedContext, Thread, new_capacity, live, save_stack_buffer, restore_stack_buffer, saved_at,
  save_current, save_occupant, take_over, switch_to, Turn, worked, turn, turns,
}
use zhttp.Coroutine.SharedStack.Switching.{
  Holds, IsStack, IsKept, HasBuffer, IsSeated, save-Holds, save_current-IsKept,
  save_occupant-IsKept, restored-Holds, restore_longer, IsSeated-after, some_other, worked-IsKept,
  switch_to-IsKept,
}

module _ (base size : ℕ) (a : Malloc) (f sp : ℕ) (xs : Bytes) where
  -- The turn of another fiber that does not switch to this one.
  abbrev pub IsElsewhere : Turn → Type 0
  IsElsewhere u = (u.target ≢ f) × (size ≤ length u.left)

  turns-IsKept :
      (us : List Turn) (t : Thread)
      → IsStack base size a f sp xs
      → All IsElsewhere us
      → IsSeated base size a f sp xs t
      → IsKept base size a f sp xs t
      → IsKept base size a f sp xs (turns base size a us t)
        × IsSeated base size a f sp xs (turns base size a us t)
  unfolding turns
  turns-IsKept [] t s h seat k = (k, seat)
  turns-IsKept (u ∷ us) t s ((ne, long), h) seat k =
      turns-IsKept us (turn base size a u t) s h
        (IsSeated-after base size a f sp xs u.target (worked u t))
        (switch_to-IsKept base size a f sp xs u.target (worked u t) s ne
          (worked-IsKept base size a f sp xs u t long seat k))

  -- The turn that switches back.
  back_in_place :
      (u : Turn) (t : Thread)
      → IsStack base size a f sp xs
      → u.target ≡ f
      → size ≤ length u.left
      → IsSeated base size a f sp xs t
      → IsKept base size a f sp xs t
      → live base size sp (turn base size a u t).bytes ≡ xs
  unfolding switch_to restore_stack_buffer
  back_in_place u t s e long seat k =
      let t1 = worked u t in
      let t2 = save_current base size a t1 in
      let k2 =
        save_current-IsKept base size a f sp xs t1
          (worked-IsKept base size a f sp xs u t long seat k) in
      let t3 = save_occupant base size a f t2.occupy_fiber t2 in
      let k3 = save_occupant-IsKept base size a f sp xs f t2.occupy_fiber t2 s refl k2 in
      rw e (
        rw k2.holds.shared (
          restored-Holds base size a f sp xs (t3.contexts f) t3.bytes (t3.contexts f).save_buffer s
            k3.holds k3.enough k3.holds.has_buffer))

  -- The fiber runs on the shared stack with these bytes, contexts and stack pointers.
  abbrev pub running : Bytes → (ℕ → SharedContext) → (ℕ → ℕ) → Thread
  running bytes contexts stack_pointers = record {
    bytes = bytes;
    occupy_fiber = some f;
    contexts = contexts;
    stack_pointers = stack_pointers;
    current_fiber = f;
  }

  -- The rest of a switch, once the current fiber is saved.
  abbrev switched : ℕ → Thread → Thread
  switched target t =
      record (if (t.contexts target).is_shared_stack
        then take_over base size target (save_occupant base size a target t.occupy_fiber t)
        else t) { current_fiber = target }

  switched-IsKept :
      (target : ℕ) (bytes : Bytes) (contexts : ℕ → SharedContext) (stack_pointers : ℕ → ℕ)
      → Holds base size a f sp xs (contexts f)
      → target ≢ f
      → size ≤ length bytes
      → stack_pointers f ≡ sp
      → live base size sp bytes ≡ xs
      → IsKept base size a f sp xs (switched target (running bytes contexts stack_pointers))
  switched-IsKept target bytes contexts stack_pointers held ne long at same =
      elim (Bool-cases (contexts target).is_shared_stack) [
        | inl on ↦ rw on (
            rw skip (record {
              away = ne;
              holds = held;
              same_pointer = at;
              enough = restore_longer base size a f sp xs (contexts target) bytes long;
              in_place = inl (some_other base size a f sp xs target ne);
            }))
        | inr off ↦ rw off (record {
          away = ne;
          holds = held;
          same_pointer = at;
          enough = long;
          in_place = inr same;
        })
      ]
    where
      skip : (f == target) || (f == f) ≡ true
      skip = ground arith

  -- It switches to another one.
  left-IsKept :
      (target : ℕ) (bytes : Bytes) (contexts : ℕ → SharedContext) (stack_pointers : ℕ → ℕ)
      (block : Bytes)
      → IsStack base size a f sp xs
      → (contexts f).is_shared_stack ≡ true
      → HasBuffer base size a f sp xs (contexts f)
      → target ≢ f
      → size ≤ length bytes
      → stack_pointers f ≡ sp
      → live base size sp bytes ≡ xs
      → a.malloc (new_capacity (base + size - sp)) ≡ some block
      → IsKept base size a f sp xs
          (switch_to base size a target (running bytes contexts stack_pointers))
  unfolding switch_to
  left-IsKept target bytes contexts stack_pointers block s shared had ne long at same given =
      subst (λ x. IsKept base size a f sp xs (switched target x)) (sym first)
        (switched-IsKept target bytes
          (saved_at base size a f (running bytes contexts stack_pointers)).contexts stack_pointers
          held ne long at same)
    where
      self_is : (f == f) ≡ true
      self_is = ground arith

      saved :
          Holds base size a f sp xs
            (save_stack_buffer base size a bytes (stack_pointers f) (contexts f))
      saved =
          rw at (save-Holds base size a f sp xs (contexts f) bytes block s shared same given had)

      held :
          Holds base size a f sp xs
            ((saved_at base size a f (running bytes contexts stack_pointers)).contexts f)
      held = rw self_is saved

      if_true : {A : Type 0} (b : Bool) (x y : A) → b ≡ true → (if b then x else y) ≡ x
      if_true b x y e = rw e refl

      first :
          save_current base size a (running bytes contexts stack_pointers)
          ≡ saved_at base size a f (running bytes contexts stack_pointers)
      first =
          if_true (contexts f).is_shared_stack
            (saved_at base size a f (running bytes contexts stack_pointers))
            (running bytes contexts stack_pointers) shared

  -- A fiber runs on the shared stack and occupies it. It leaves bytes there, with its stack pointer within the stack, and
  -- switches to another fiber; there is memory for a save buffer of that size. Then other fibers run in turn,
  -- whatever they leave on the stack, and none switches back, until the last one does. Then the bytes of the stack
  -- from the stack pointer on are those that the fiber left.
  pub resumed_stack :
      (target : ℕ) (bytes : Bytes) (contexts : ℕ → SharedContext) (stack_pointers : ℕ → ℕ)
      (block : Bytes) (others : List Turn) (last : Turn)
      → IsStack base size a f sp xs
      → (contexts f).is_shared_stack ≡ true
      → HasBuffer base size a f sp xs (contexts f)
      → target ≢ f
      → size ≤ length bytes
      → stack_pointers f ≡ sp
      → live base size sp bytes ≡ xs
      → a.malloc (new_capacity (base + size - sp)) ≡ some block
      → All IsElsewhere others
      → last.target ≡ f
      → size ≤ length last.left
      → let away = switch_to base size a target (running bytes contexts stack_pointers) in
        live base size sp (turn base size a last (turns base size a others away)).bytes ≡ xs
  resumed_stack target bytes contexts stack_pointers block others last s shared had ne long at same
        given others' e long' =
      let t = running bytes contexts stack_pointers in
      let away = switch_to base size a target t in
      let (k, seat) =
        turns-IsKept others away s others' (IsSeated-after base size a f sp xs target t) (
          left-IsKept target bytes contexts stack_pointers block s shared had ne long at same
            given) in
      back_in_place last (turns base size a others away) s e long' seat k
