-- ===== src/Coroutine/Timer/Manager/Expiry.antt =====
-- `list_expired_callbacks` of zcoroutine/src/timer/timer_manager.cc when the clock did not go back.
use zhttp.Prelude.{
  ℕ, zero, suc, ◌+◌, ◌-◌, ◌≤◌, ◌<◌, ◌≡◌, ◌≢◌, refl, sym, ap, subst, ◌∙◌, true, false, ◌&&◌, List,
  [], ◌∷◌, ◌++◌, append_assoc, append-nil, Option, none, some, arith, Bool-cases, inl, inr, ltb,
  leb, All, All-map, All-Mem, Mem, length,
}
use zhttp.Coroutine.Timer.{Timer, less}
use zhttp.Coroutine.Timer.Order.{
  IsSorted, set_insert-All, set_insert-IsSorted, set_insert-Mem_self, set_insert-Mem_other,
  sorted_ne,
}
use zhttp.Coroutine.Timer.Manager.{
  TimerManager, times, set_object, again, expire_loop, list_expired_callbacks,
  detect_clock_rollback, collected,
}
use zhttp.Coroutine.Timer.Manager.Validity.{IsValid, set_object-IsSorted}
use zhttp.Coroutine.Timer.Manager.Due.{
  due, callbacks, IsPatient, repeats, rearmed, IsSettled, due-set_insert, due-cong, callbacks-cong,
  due-All,
}

All-members : (bs : List ℕ) (P : ℕ → Type 0) → ((b : ℕ) → Mem b bs → P b) → All P bs
All-members [] P f = tt
All-members (b ∷ bs) P f = (f b (inl refl), All-members bs P (λ c i. f c (inr i)))

All-later :
    (k : ℕ → ℕ) (now a : ℕ) (bs : List ℕ)
    → now < k a
    → All (λ b. less k a b ≡ true) bs
    → All (λ b. now < k b) bs
All-later k now a bs h first = All-map bs (λ b l. ground arith) first

not_due_lem : (t now : ℕ) → now < t → leb t now ≡ false
not_due_lem t now h = ground arith

module _ {F : Type 0} where
  -- The first timer of the set after it was taken off and, if it repeats, put back.
  record Round (now a : ℕ) (m : TimerManager F) (n : TimerManager F) : Type 0 where
    pub sorted : IsValid n
    pub same_due : due now n.objects n.timers ≡ due now m.objects m.timers
    pub same : All (λ b. n.objects b ≡ m.objects b) m.timers
    pub members : All (λ b. Mem b n.timers) m.timers
    pub untouched : (b : ℕ) → a ≢ b → n.objects b ≡ m.objects b
    pub absent : (b : ℕ) → b ≢ a → All (λ c. b ≢ c) m.timers → All (λ c. b ≢ c) n.timers
    pub outcome : IsSettled now n a (m.objects a) true (repeats (m.objects a))
    pub gone : repeats (m.objects a) ≡ false → All (λ b. a ≢ b) n.timers

  object-other :
      (objects : ℕ → Timer F) (a : ℕ) (t : Timer F) (b : ℕ)
      → a ≢ b
      → set_object objects a t b ≡ objects b
  object-other objects a t b h = ground arith

  object_self : (objects : ℕ → Timer F) (a : ℕ) (t : Timer F) → set_object objects a t a ≡ t
  object_self objects a t = ground arith

  again-Round :
      (now a : ℕ) (m : TimerManager F)
      → All (λ b. a ≢ b) m.timers
      → IsValid m
      → (repeats (m.objects a) ≡ true → now < (rearmed now (m.objects a)).next_time)
      → Round now a m (again now a m)
  again-Round now a m absent h later = elim (Bool-cases (repeats (m.objects a))) [
    | inr ends ↦ rw ends (record {
      sorted = set_object-IsSorted m.objects a _ m.timers absent h;
      same_due = due-cong now m.objects _ m.timers (unchanged _);
      same = unchanged _;
      members = All-members m.timers _ (λ b i. i);
      untouched = λ b ne. object-other m.objects a _ b ne;
      absent = λ b ne h. h;
      outcome = rw ends (ap (λ x. x.callback) (object_self m.objects a _));
      gone = λ e. absent;
    })
    | inl on ↦
        let t : Timer F = rearmed now (m.objects a) in
        let k : ℕ → ℕ = times (set_object m.objects a t) in
        let ahead : now < k a =
          subst (λ x. now < x.next_time) (sym (object_self m.objects a t)) (later on) in
        rw on (record {
          sorted =
              set_insert-IsSorted k a m.timers
                (set_object-IsSorted m.objects a t m.timers absent h);
          same_due =
              due-set_insert now (set_object m.objects a t) a m.timers ahead
              ∙ due-cong now m.objects _ m.timers (unchanged t);
          same = unchanged t;
          members = All-members m.timers _ (λ b i. set_insert-Mem_other k a b m.timers i);
          untouched = λ b ne. object-other m.objects a t b ne;
          absent = λ b ne others. set_insert-All k (λ c. b ≢ c) a m.timers ne others;
          outcome = rw on (set_insert-Mem_self k a m.timers, object_self m.objects a t);
          gone = λ e. absurd (cc (on, e));
        })
  ]
    where
      unchanged : (t : Timer F) → All (λ b. set_object m.objects a t b ≡ m.objects b) m.timers
      unchanged t = All-map m.timers (λ b ne. object-other m.objects a t b ne) absent

  abbrev pub SettledAs : ℕ → TimerManager F → ℕ → Timer F → Type 0
  SettledAs now n a t = IsSettled now n a t (leb t.next_time now) (repeats t)

  -- How a call ends: it returns the callbacks of the due timers in their order; what is in the set afterwards is due
  -- later; and of every timer that was in the set it is known what became of it.
  pub record Expired (now : ℕ) (m : TimerManager F) (out : List F)
      (r : Option (List F × TimerManager F)) : Type 0 where
    pub after : TimerManager F
    pub returned : r ≡ some (out ++ callbacks m.objects (due now m.objects m.timers), after)
    pub later : All (λ a. now < times after.objects a) after.timers
    pub valid : IsValid after
    pub settled : All (λ a. SettledAs now after a (m.objects a)) m.timers
    pub others : (b : ℕ) → All (λ c. b ≢ c) m.timers → after.objects b ≡ m.objects b

  settled_later :
      (now : ℕ) (m : TimerManager F) (bs : List ℕ)
      → All (λ a. Mem a m.timers) bs
      → All (λ a. now < times m.objects a) bs
      → All (λ a. SettledAs now m a (m.objects a)) bs
  settled_later now m [] i h = tt
  settled_later now m (b ∷ bs) (i, is) (h, hs) =
      let e : leb (times m.objects b) now ≡ false = ground arith in
      (rw e (i, refl), settled_later now m bs is hs)

  -- The timer that was taken off, after the rest of the loop.
  first-IsSettled :
      (now a : ℕ) (m n after : TimerManager F)
      → Round now a m n
      → (repeats (m.objects a) ≡ true → now < (rearmed now (m.objects a)).next_time)
      → All (λ b. SettledAs now after b (n.objects b)) n.timers
      → ((b : ℕ) → All (λ c. b ≢ c) n.timers → after.objects b ≡ n.objects b)
      → IsSettled now after a (m.objects a) true (repeats (m.objects a))
  first-IsSettled now a m n after r ahead settled others =
      elim (Bool-cases (repeats (m.objects a))) [
        | inr ends ↦
            let cleared : (n.objects a).callback ≡ none =
              subst (λ b. IsSettled now n a (m.objects a) true b) ends r.outcome in
            rw ends (ap (λ x. x.callback) (others a (r.gone ends)) ∙ cleared)
        | inl on ↦
            let (i, e) = subst (λ b. IsSettled now n a (m.objects a) true b) on r.outcome in
            let t : Timer F = rearmed now (m.objects a) in
            let after_it : SettledAs now after a t =
              subst (λ x. SettledAs now after a x) e (All-Mem _ n.timers a settled i) in
            let not_due : leb t.next_time now ≡ false = not_due_lem t.next_time now (ahead on) in
            rw on (subst (λ b. IsSettled now after a t b (repeats t)) not_due after_it)
      ]

  IsPatient-cong :
      (now : ℕ) (objects objects' : ℕ → Timer F) (bs : List ℕ)
      → All (λ b. objects' b ≡ objects b) bs
      → All (λ b. IsPatient now (objects b)) bs
      → All (λ b. IsPatient now (objects' b)) bs
  IsPatient-cong now objects objects' [] e h = tt
  IsPatient-cong now objects objects' (b ∷ bs) (e, es) (p, ps) =
      (subst (IsPatient now) (sym e) p, IsPatient-cong now objects objects' bs es ps)

  patient_ahead :
      (now : ℕ) (t : Timer F) → IsPatient now t → repeats t ≡ true → now < (rearmed now t).next_time
  patient_ahead now t (inl e) h = absurd (cc (e, h))
  patient_ahead now t (inr (p, q)) h = omega arith

  rest_settled :
      (now : ℕ) (m n after : TimerManager F) (bs : List ℕ)
      → All (λ b. n.objects b ≡ m.objects b) bs
      → All (λ b. Mem b n.timers) bs
      → All (λ b. SettledAs now after b (n.objects b)) n.timers
      → All (λ b. SettledAs now after b (m.objects b)) bs
  rest_settled now m n after [] e i h = tt
  rest_settled now m n after (b ∷ bs) (e, es) (i, is) h = (
    subst (λ t. SettledAs now after b t) e (All-Mem _ n.timers b h i),
    rest_settled now m n after bs es is h,
  )

  collected-append : (o : Option F) (out : List F) → collected o out ≡ out ++ collected o []
  collected-append none out = sym (append-nil out)
  collected-append (some f) out = refl

  -- The rest of the loop after one round, put together with the round.
  Expired-round :
      (now a : ℕ) (as' : List ℕ) (m n : TimerManager F) (out : List F)
      (r : Option (List F × TimerManager F))
      → leb (times m.objects a) now ≡ true
      → IsPatient now (m.objects a)
      → Round now a (record m { timers = as' }) n
      → Expired now n (collected (m.objects a).callback out) r
      → Expired now (record m { timers = a ∷ as' }) out r
  Expired-round now a as' m n out r on patient round rest =
      let same_callbacks : callbacks n.objects (due now n.objects n.timers)
          ≡ callbacks m.objects (due now m.objects as') =
        ap (callbacks n.objects) round.same_due
        ∙ callbacks-cong m.objects n.objects (due now m.objects as')
            (due-All _ now m.objects as' round.same) in
      record {
        after = rest.after;
        returned = rw on (
            rest.returned
            ∙ ap (λ l. some (l, rest.after))
                (ap (λ l. collected (m.objects a).callback out ++ l) same_callbacks
                  ∙ (ap (λ l. l ++ callbacks m.objects (due now m.objects as'))
                        (collected-append (m.objects a).callback out)
                      ∙ append_assoc out (collected (m.objects a).callback []) _)));
        later = rest.later;
        valid = rest.valid;
        settled = (
          rw on (
              first-IsSettled now a (record m { timers = as' }) n rest.after round
                (patient_ahead now (m.objects a) patient) rest.settled rest.others),
          rest_settled now (record m { timers = as' }) n rest.after as' round.same round.members
              rest.settled,
        );
        others =
            λ b (ne, h). rest.others b (round.absent b ne h) ∙ round.untouched b (λ e. ne (sym e));
      }

  -- The loop over the set `m.timers`, with more fuel than there are due timers.
  expire_loop-Expired :
      (fuel now : ℕ) (ts : List ℕ) (m : TimerManager F) (out : List F)
      → IsSorted (times m.objects) ts
      → All (λ a. IsPatient now (m.objects a)) (due now m.objects ts)
      → length (due now m.objects ts) < fuel
      → Expired now
          (record m { timers = ts })
          out
          (expire_loop fuel false now (record m { timers = ts }) out)
  unfolding expire_loop
  expire_loop-Expired zero now ts m out s p f = absurd (omega arith)
  expire_loop-Expired (suc fuel) now [] m out s p f = record {
    after = record m { timers = [] };
    returned = rw (append-nil out) refl;
    later = tt;
    valid = tt;
    settled = tt;
    others = λ b h. refl;
  }
  expire_loop-Expired (suc fuel) now (a ∷ as') m out (first, s) p f =
      elim (Bool-cases (leb (times m.objects a) now)) [
        | inr stop ↦
            let all : All (λ b. now < times m.objects b) (a ∷ as') =
              (ground arith, All-later (times m.objects) now a as' (ground arith) first) in
            rw stop (record {
              after = record m { timers = a ∷ as' };
              returned = rw (stop, append-nil out) refl;
              later = all;
              valid = (first, s);
              settled =
                  settled_later now (record m { timers = a ∷ as' }) (a ∷ as')
                    (All-members (a ∷ as') _ (λ b i. i)) all;
              others = λ b h. refl;
            })
        | inl on ↦
            let m1 : TimerManager F = record m { timers = as' } in
            let n : TimerManager F = again now a m1 in
            let (patient, ps) = patients on p in
            let round : Round now a m1 n =
              again-Round now a m1 (sorted_ne (times m.objects) a as' first) s
                (patient_ahead now (m.objects a) patient) in
            Expired-round now a as' m n out _ on patient round (
              rw on (
                expire_loop-Expired fuel now n.timers n (collected (m.objects a).callback out)
                  round.sorted
                  (subst (All (λ b. IsPatient now (n.objects b))) (sym round.same_due) (
                    IsPatient-cong now m.objects n.objects (due now m.objects as')
                      (due-All _ now m.objects as' round.same) ps))
                  (rw round.same_due (less_fuel on f))))
      ]
    where
      due_first :
          leb (times m.objects a) now ≡ true
          → due now m.objects (a ∷ as') ≡ a ∷ due now m.objects as'
      due_first on = rw on refl

      patients :
          leb (times m.objects a) now ≡ true
          → All (λ b. IsPatient now (m.objects b)) (due now m.objects (a ∷ as'))
          → IsPatient now (m.objects a)
            × All (λ b. IsPatient now (m.objects b)) (due now m.objects as')
      patients on h = subst (All (λ b. IsPatient now (m.objects b))) (due_first on) h

      less_fuel :
          leb (times m.objects a) now ≡ true
          → length (due now m.objects (a ∷ as')) < suc fuel
          → length (due now m.objects as') < fuel
      less_fuel on h = omega (arith, h, ap length (due_first on))

  -- If the clock did not go back by more than an hour, and every repeating timer that is due has a positive interval
  -- whose end fits 64 bits, the loop over the expired timers of a valid manager ends, with as much fuel as there
  -- are due timers and one more. It gives the callbacks of exactly the due timers in the order of the set; of them the
  -- repeating ones with a callback are in the set again, an interval after now, and the others are without
  -- callback; the timers that are not due stay as they were; and no timer of the set is due afterwards.
  pub list_expired_callbacks_lem :
      (fuel now now' : ℕ) (m : TimerManager F)
      → IsValid m
      → m.last_time ≤ now' + 3600000
      → All (λ a. IsPatient now (m.objects a)) (due now m.objects m.timers)
      → length (due now m.objects m.timers) < fuel
      → Expired now (record m { last_time = now' }) [] (list_expired_callbacks fuel now now' m)
  unfolding list_expired_callbacks detect_clock_rollback
  list_expired_callbacks_lem fuel now now' m h near patient f =
      let steady : ltb now' m.last_time && ltb 3600000 (m.last_time - now') ≡ false =
        ground arith in
      rw steady
        (expire_loop-Expired fuel now m.timers (record m { last_time = now' }) [] h patient f)
