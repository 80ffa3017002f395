-- ===== src/Coroutine/Timer/Manager/Rollback.antt =====
-- `list_expired_callbacks` of zcoroutine/src/timer/timer_manager.cc after the clock went back.
use zhttp.Prelude.{
  ℕ, zero, suc, ◌+◌, ◌-◌, ◌<◌, ◌≡◌, refl, sym, ap, subst, true, false, ◌&&◌, List, [], ◌∷◌, Option,
  none, arith, Bool-cases, inl, inr, ltb, ◌==◌, ==_iff, Mem,
}
use zhttp.Coroutine.Timer.{Timer, set_insert}
use zhttp.Coroutine.Timer.Order.{set_insert-Mem_self, set_insert-Mem_other}
use zhttp.Coroutine.Timer.Manager.{
  TimerManager, times, set_object, again, expire_first, expire_loop, list_expired_callbacks,
  detect_clock_rollback,
}
use zhttp.Coroutine.Timer.Manager.Due.{repeats, rearmed}

module _ {F : Type 0} where
  -- A repeating timer in the set.
  abbrev Ticks : ℕ → TimerManager F → List ℕ → Type 0
  Ticks a m ts = Mem a ts × (repeats (m.objects a) ≡ true)

  still_repeats :
      (objects : ℕ → Timer F) (a b now : ℕ)
      → repeats (objects a) ≡ true
      → repeats (set_object objects b (rearmed now (objects b)) a) ≡ true
  still_repeats objects a b now h = elim (Bool-cases (b == a)) [
    | inl same ↦ rw same (subst (λ x. repeats (objects x) ≡ true) (sym ((==_iff b a).0 same)) h)
    | inr other ↦ rw other h
  ]

  other_object :
      (objects : ℕ → Timer F) (a b : ℕ) (t : Timer F)
      → repeats (objects a) ≡ true
      → repeats (objects b) ≡ false
      → set_object objects b t a ≡ objects a
  other_object objects a b t h k = elim (Bool-cases (b == a)) [
    | inl same ↦ absurd (different same)
    | inr other ↦ rw other refl
  ]
    where
      different : (b == a) ≡ true → ⊥
      different same =
          let e : repeats (objects b) ≡ repeats (objects a) =
            ap (λ x. repeats (objects x)) ((==_iff b a).0 same) in
          cc (e, h, k)

  again-Ticks :
      (a b now : ℕ) (bs : List ℕ) (m : TimerManager F)
      → Ticks a m (b ∷ bs)
      → Ticks a
          (again now b (record m { timers = bs }))
          (again now b (record m { timers = bs })).timers
  again-Ticks a b now bs m (i, h) = elim (Bool-cases (repeats (m.objects b))) [
    | inl on ↦
        let k : ℕ → ℕ = times (set_object m.objects b (rearmed now (m.objects b))) in
        rw on (
          elim i [
            | inl e ↦ subst (λ x. Mem a (set_insert k x bs)) e (set_insert-Mem_self k a bs)
            | inr j ↦ set_insert-Mem_other k b a bs j
          ],
          still_repeats m.objects a b now h,
        )
    | inr off ↦ rw off (
      elim i [ inl e ↦ absurd (cc (ap (λ x. repeats (m.objects x)) e, h, off)) | inr j ↦ j ],
      rw (other_object m.objects a b _ h off) h,
    )
  ]

  expire_first-none :
      (now a : ℕ) (rest : TimerManager F → List F → Option (List F × TimerManager F))
      (m : TimerManager F) (ts : List ℕ) (out : List F)
      → ((n : TimerManager F) (got : List F) → Ticks a n n.timers → rest n got ≡ none)
      → Ticks a m ts
      → expire_first true now rest m ts out ≡ none
  expire_first-none now a rest m [] out later (i, h) = elim i [ ]
  expire_first-none now a rest m (b ∷ bs) out later t =
      later (again now b (record m { timers = bs })) _ (again-Ticks a b now bs m t)

  expire_loop-none :
      (fuel now a : ℕ) (m : TimerManager F) (out : List F)
      → Ticks a m m.timers
      → expire_loop fuel true now m out ≡ none
  unfolding expire_loop
  expire_loop-none zero now a m out t = refl
  expire_loop-none (suc fuel) now a m out t =
      expire_first-none now a (expire_loop fuel true now) m m.timers out
        (λ n got k. expire_loop-none fuel now a n got k) t

  -- If the clock went back by more than an hour and the set holds a repeating timer with a callback, then the loop over the
  -- expired timers does not end: it gives no result, however much fuel it has.
  pub list_expired_callbacks-none :
      (fuel now now' a : ℕ) (m : TimerManager F)
      → now' + 3600000 < m.last_time
      → Mem a m.timers
      → repeats (m.objects a) ≡ true
      → list_expired_callbacks fuel now now' m ≡ none
  unfolding list_expired_callbacks detect_clock_rollback
  list_expired_callbacks-none fuel now now' a m back i h =
      let rolled : ltb now' m.last_time && ltb 3600000 (m.last_time - now') ≡ true = ground arith in
      rw rolled (expire_loop-none fuel now a (record m { last_time = now' }) [] (i, h))
