-- ===== src/Coroutine/Timer/Manager/Due.antt =====
-- The timers of a set that are due, and what becomes of a timer, for zcoroutine/src/timer/timer_manager.cc.
use zhttp.Prelude.{
  ℕ, ◌+◌, ◌<◌, ◌≡◌, refl, ap, Bool, true, false, ◌&&◌, List, [], ◌∷◌, ◌++◌, none, arith, Bool-cases,
  inl, inr, ◌⊎◌, leb, if◌then◌else◌, All, Mem,
}
use zhttp.Coroutine.Timer.{u64, Timer, set_insert}
use zhttp.Coroutine.Timer.Manager.{TimerManager, times, again, is_some, collected}

module _ {F : Type 0} where
  -- The timers that are due: the front of the set, in its order.
  abbrev pub due : ℕ → (ℕ → Timer F) → List ℕ → List ℕ
  due now objects [] = []
  due now objects (a ∷ as') =
      let more = due now objects as' in if leb (times objects a) now then a ∷ more else []

  abbrev pub callbacks : (ℕ → Timer F) → List ℕ → List F
  callbacks objects [] = []
  callbacks objects (a ∷ as') = collected (objects a).callback [] ++ callbacks objects as'

  -- A repeating timer of the set does not become due again at once: its next time is after now, and fits.
  abbrev pub IsPatient : ℕ → Timer F → Type 0
  IsPatient now t =
      (t.recurring ≡ false) ⊎ ((0 < t.interval_ms) × (now + t.interval_ms < 18446744073709551616))

  -- The set without the due timers: what is left is due later.
  pub due-set_insert :
      (now : ℕ) (objects : ℕ → Timer F) (a : ℕ) (bs : List ℕ)
      → now < times objects a
      → due now objects (set_insert (times objects) a bs) ≡ due now objects bs
  unfolding set_insert
  due-set_insert now objects a [] h = ground arith
  due-set_insert now objects a (b ∷ bs) h = ground (arith, due-set_insert now objects a bs h)

  pub due-cong :
      (now : ℕ) (objects objects' : ℕ → Timer F) (bs : List ℕ)
      → All (λ b. objects' b ≡ objects b) bs
      → due now objects' bs ≡ due now objects bs
  due-cong now objects objects' [] h = refl
  due-cong now objects objects' (b ∷ bs) (e, h) =
      let same : times objects' b ≡ times objects b = ap (λ t. t.next_time) e in
      ground (arith, same, due-cong now objects objects' bs h)

  pub callbacks-cong :
      (objects objects' : ℕ → Timer F) (bs : List ℕ)
      → All (λ b. objects' b ≡ objects b) bs
      → callbacks objects' bs ≡ callbacks objects bs
  callbacks-cong objects objects' [] h = refl
  callbacks-cong objects objects' (b ∷ bs) (e, h) =
      rw (callbacks-cong objects objects' bs h)
        (ap (λ t. collected t.callback [] ++ callbacks objects bs) e)

  pub due-All :
      (P : ℕ → Type 0) (now : ℕ) (objects : ℕ → Timer F) (bs : List ℕ)
      → All P bs
      → All P (due now objects bs)
  due-All P now objects [] h = tt
  due-All P now objects (b ∷ bs) (p, h) = elim (Bool-cases (leb (times objects b) now)) [
    | inl on ↦ rw on (p, due-All P now objects bs h)
    | inr off ↦ rw off tt
  ]

  abbrev pub repeats : Timer F → Bool
  repeats t = t.recurring && is_some t.callback

  abbrev pub rearmed : ℕ → Timer F → Timer F
  rearmed now t = record t { next_time = u64 (now + t.interval_ms) }

  -- What becomes of a timer of the set, by whether it was due and whether it repeats.
  abbrev pub IsSettled : ℕ → TimerManager F → ℕ → Timer F → Bool → Bool → Type 0
  IsSettled now n a t false again = Mem a n.timers × (n.objects a ≡ t)
  IsSettled now n a t true true = Mem a n.timers × (n.objects a ≡ rearmed now t)
  IsSettled now n a t true false = (n.objects a).callback ≡ none
