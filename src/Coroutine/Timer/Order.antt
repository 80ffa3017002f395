-- ===== src/Coroutine/Timer/Order.antt =====
-- The ordered set of addresses.
use zhttp.Prelude.{
  ℕ, ◌≡◌, ◌≢◌, refl, sym, true, false, List, [], ◌∷◌, arith, Bool-cases, inl, inr, All, All-map,
  All-Mem, Mem,
}
use zhttp.Coroutine.Timer.{less, set_insert, set_contains, set_erase}

-- Every element comes before those behind it.
abbrev pub IsSorted : (ℕ → ℕ) → List ℕ → Type 0
IsSorted k [] = Unit
IsSorted k (a ∷ as') = All (λ b. less k a b ≡ true) as' × IsSorted k as'

module _ (k : ℕ → ℕ) where
  less_trans : (a b c : ℕ) → less k a b ≡ true → less k b c ≡ true → less k a c ≡ true
  less_trans a b c h h' = ground arith

  less_ne : (a b : ℕ) → less k a b ≡ true → a ≢ b
  less_ne a b h e = ground arith

  less_total : (a b : ℕ) → less k a b ≡ false → less k b a ≡ false → a ≡ b
  less_total a b h h' = ground arith

  pub set_insert-All :
      (P : ℕ → Type 0) (a : ℕ) (bs : List ℕ) → P a → All P bs → All P (set_insert k a bs)
  unfolding set_insert
  set_insert-All P a [] p h = (p, tt)
  set_insert-All P a (b ∷ bs) p (q, h) = elim (Bool-cases (less k a b)) [
    | inl first ↦ rw first (p, (q, h))
    | inr later ↦ rw later (elim (Bool-cases (less k b a)) [
      | inl past ↦ rw past (q, set_insert-All P a bs p h)
      | inr same ↦ rw same (q, h)
    ])
  ]

  pub set_insert-IsSorted : (a : ℕ) (bs : List ℕ) → IsSorted k bs → IsSorted k (set_insert k a bs)
  unfolding set_insert
  set_insert-IsSorted a [] h = (tt, tt)
  set_insert-IsSorted a (b ∷ bs) (first, rest) = elim (Bool-cases (less k a b)) [
    | inl before ↦
        rw before ((before, All-map bs (λ c l. less_trans a b c before l) first), (first, rest))
    | inr later ↦ rw later (elim (Bool-cases (less k b a)) [
      | inl past ↦
          rw past
            (set_insert-All (λ c. less k b c ≡ true) a bs past first, set_insert-IsSorted a bs rest)
      | inr same ↦ rw same (first, rest)
    ])
  ]

  pub set_insert-Mem_self : (a : ℕ) (bs : List ℕ) → Mem a (set_insert k a bs)
  unfolding set_insert
  set_insert-Mem_self a [] = inl refl
  set_insert-Mem_self a (b ∷ bs) = elim (Bool-cases (less k a b)) [
    | inl before ↦ rw before (inl refl)
    | inr later ↦ rw later (elim (Bool-cases (less k b a)) [
      | inl past ↦ rw past (inr (set_insert-Mem_self a bs))
      | inr same ↦ rw same (inl (less_total a b later same))
    ])
  ]

  pub set_insert-Mem_other : (a c : ℕ) (bs : List ℕ) → Mem c bs → Mem c (set_insert k a bs)
  unfolding set_insert
  set_insert-Mem_other a c [] i = elim i [ ]
  set_insert-Mem_other a c (b ∷ bs) i = elim (Bool-cases (less k a b)) [
    | inl before ↦ rw before (inr i)
    | inr later ↦ rw later (elim (Bool-cases (less k b a)) [
      | inl past ↦ rw past (elim i [ inl e ↦ inl e | inr j ↦ inr (set_insert-Mem_other a c bs j) ])
      | inr same ↦ rw same i
    ])
  ]

  pub set_erase-All : (P : ℕ → Type 0) (a : ℕ) (bs : List ℕ) → All P bs → All P (set_erase k a bs)
  unfolding set_erase
  set_erase-All P a [] h = tt
  set_erase-All P a (b ∷ bs) (p, h) = elim (Bool-cases (less k b a)) [
    | inl before ↦ rw before (p, set_erase-All P a bs h)
    | inr here ↦
        rw here
          (elim (Bool-cases (less k a b)) [ inl past ↦ rw past (p, h) | inr same ↦ rw same h ])
  ]

  pub set_erase-IsSorted : (a : ℕ) (bs : List ℕ) → IsSorted k bs → IsSorted k (set_erase k a bs)
  unfolding set_erase
  set_erase-IsSorted a [] h = tt
  set_erase-IsSorted a (b ∷ bs) (first, rest) = elim (Bool-cases (less k b a)) [
    | inl before ↦ rw before (set_erase-All _ a bs first, set_erase-IsSorted a bs rest)
    | inr here ↦ rw here (elim (Bool-cases (less k a b)) [
      | inl past ↦ rw past (first, rest)
      | inr same ↦ rw same rest
    ])
  ]

  pub sorted_ne : (a : ℕ) (bs : List ℕ) → All (λ b. less k a b ≡ true) bs → All (λ b. a ≢ b) bs
  sorted_ne a bs h = All-map bs (λ b l. less_ne a b l) h

  -- What was erased from a sorted set is not in it.
  pub set_erase-absent : (a : ℕ) (bs : List ℕ) → IsSorted k bs → All (λ b. a ≢ b) (set_erase k a bs)
  unfolding set_erase
  set_erase-absent a [] h = tt
  set_erase-absent a (b ∷ bs) (first, rest) = elim (Bool-cases (less k b a)) [
    | inl before ↦ rw before (λ e. less_ne b a before (sym e), set_erase-absent a bs rest)
    | inr here ↦ rw here (elim (Bool-cases (less k a b)) [
      | inl past ↦
          rw past
            (less_ne a b past, sorted_ne a bs (All-map bs (λ c l. less_trans a b c past l) first))
      | inr same ↦ rw same (rw (less_total a b same here) (sorted_ne b bs first))
    ])
  ]

  pub set_contains-Mem :
      (a : ℕ) (bs : List ℕ) → IsSorted k bs → Mem a bs → set_contains k a bs ≡ true
  unfolding set_contains
  set_contains-Mem a [] s i = elim i [ ]
  set_contains-Mem a (b ∷ bs) (first, rest) (inl e) = rw e (ground arith)
  set_contains-Mem a (b ∷ bs) (first, rest) (inr i) =
      rw (All-Mem _ bs a first i) (set_contains-Mem a bs rest i)

-- The order depends only on the times of the elements.
pub IsSorted-cong :
    (k k' : ℕ → ℕ) (as' : List ℕ) → All (λ a. k' a ≡ k a) as' → IsSorted k as' → IsSorted k' as'
IsSorted-cong k k' [] e h = tt
IsSorted-cong k k' (a ∷ as') (e, es) (first, rest) =
    (front as' es first, IsSorted-cong k k' as' es rest)
  where
    front :
        (bs : List ℕ)
        → All (λ b. k' b ≡ k b) bs
        → All (λ b. less k a b ≡ true) bs
        → All (λ b. less k' a b ≡ true) bs
    front [] e h = tt
    front (b ∷ bs) (e', es) (l, ls) = (rw (e, e') l, front bs es ls)
