-- ===== src/Coroutine/Io/Table.antt =====
-- zcoroutine/src/io/fd_context_table.cc: the contexts by their descriptor. An empty slot is a null pointer. The contexts
-- are shared objects with one slot each, so a change of an object is a change of its slot.
use zhttp.Prelude.{
  ℕ, zero, suc, ◌+◌, ◌-◌, ◌/◌, ◌≤◌, ◌<◌, ◌≡◌, ◌≢◌, refl, ap, ◌∙◌, List, [], ◌∷◌, ◌++◌, Option, none,
  some, arith, ltb, if◌then◌else◌, length, get_elem?, ℤ, pos, negsuc, Bool-cases, inl, inr,
}
use Prim.Native.Nat.{max}
use zhttp.Coroutine.Io.FdContext.{FdContext, new_context}

abbrev Table : Type 0 → Type 0 → Type 0
Table C F = List (Option (FdContext C F))

module _ {C F : Type 0} where
  abbrev pub slot : Option (Option (FdContext C F)) → Option (FdContext C F)
  slot none = none
  slot (some x) = x

  unfoldable pub get : ℤ → List (Option (FdContext C F)) → Option (FdContext C F)
  get (negsuc n) xs = none
  get (pos fd) xs = slot (get_elem? xs fd)

  unfoldable pub set_slot :
      ℕ → FdContext C F → List (Option (FdContext C F)) → List (Option (FdContext C F))
  set_slot i x [] = []
  set_slot zero x (y ∷ ys) = some x ∷ ys
  set_slot (suc i) x (y ∷ ys) = y ∷ set_slot i x ys

  unfoldable pub empty_slots : ℕ → List (Option (FdContext C F))
  empty_slots zero = []
  empty_slots (suc n) = none ∷ empty_slots n

  -- `resize` to a size that is not below the length.
  abbrev pub resize : ℕ → List (Option (FdContext C F)) → List (Option (FdContext C F))
  resize n xs = xs ++ empty_slots (n - length xs)

  -- A descriptor of the system is below the largest `int`, so `fd + 1` does not overflow.
  abbrev pub expanded : ℕ → List (Option (FdContext C F)) → List (Option (FdContext C F))
  expanded fd xs =
      if ltb fd (length xs) then xs else resize (max (fd + 1) (length xs + length xs / 2)) xs

  unfoldable pub expand_and_create :
      ℕ → List (Option (FdContext C F)) → FdContext C F × List (Option (FdContext C F))
  expand_and_create fd xs = (new_context fd, set_slot fd (new_context fd) (expanded fd xs))

  abbrev pub found_or_created :
      ℕ
      → Option (FdContext C F)
      → List (Option (FdContext C F))
      → FdContext C F × List (Option (FdContext C F))
  found_or_created fd (some x) xs = (x, xs)
  found_or_created fd none xs = expand_and_create fd xs

  unfoldable pub get_or_create :
      ℤ → List (Option (FdContext C F)) → Option (FdContext C F) × List (Option (FdContext C F))
  get_or_create (negsuc n) xs = (none, xs)
  get_or_create (pos fd) xs = let (x, ys) = found_or_created fd (get (pos fd) xs) xs in (some x, ys)

  -- The slots of a table that was changed.
  pub get-set_slot :
      (i : ℕ) (x : FdContext C F) (xs : List (Option (FdContext C F)))
      → i < length xs
      → get (pos i) (set_slot i x xs) ≡ some x
  unfolding get set_slot
  get-set_slot i x [] h = absurd (omega arith)
  get-set_slot zero x (y ∷ ys) h = refl
  get-set_slot (suc i) x (y ∷ ys) h = get-set_slot i x ys (omega arith)

  pub get-set_slot_other :
      (i j : ℕ) (x : FdContext C F) (xs : List (Option (FdContext C F)))
      → i ≢ j
      → get (pos j) (set_slot i x xs) ≡ get (pos j) xs
  unfolding get set_slot
  get-set_slot_other i j x [] h = refl
  get-set_slot_other zero zero x (y ∷ ys) h = absurd (h refl)
  get-set_slot_other zero (suc j) x (y ∷ ys) h = refl
  get-set_slot_other (suc i) zero x (y ∷ ys) h = refl
  get-set_slot_other (suc i) (suc j) x (y ∷ ys) h = get-set_slot_other i j x ys (omega (arith, h))

  pub length-set_slot :
      (i : ℕ) (x : FdContext C F) (xs : List (Option (FdContext C F)))
      → length (set_slot i x xs) ≡ length xs
  unfolding set_slot
  length-set_slot i x [] = refl
  length-set_slot zero x (y ∷ ys) = refl
  length-set_slot (suc i) x (y ∷ ys) = ap (λ n. suc n) (length-set_slot i x ys)

  pub get-length :
      (i : ℕ) (x : FdContext C F) (xs : List (Option (FdContext C F)))
      → get (pos i) xs ≡ some x
      → i < length xs
  unfolding get
  get-length i x [] h = absurd (cc)
  get-length zero x (y ∷ ys) h = omega arith
  get-length (suc i) x (y ∷ ys) h = omega (arith, get-length i x ys h)

  get-empty_slots : (n i : ℕ) → get (pos i) (empty_slots n) ≡ none
  unfolding get empty_slots
  get-empty_slots zero i = refl
  get-empty_slots (suc n) zero = refl
  get-empty_slots (suc n) (suc i) = get-empty_slots n i

  get-append_empty :
      (n i : ℕ) (xs : List (Option (FdContext C F)))
      → get (pos i) (xs ++ empty_slots n) ≡ get (pos i) xs
  unfolding get
  get-append_empty n i [] = get-empty_slots n i
  get-append_empty n zero (x ∷ xs) = refl
  get-append_empty n (suc i) (x ∷ xs) = get-append_empty n i xs

  length-append_empty :
      (n : ℕ) (xs : List (Option (FdContext C F))) → length (xs ++ empty_slots n) ≡ length xs + n
  unfolding empty_slots
  length-append_empty zero [] = refl
  length-append_empty (suc n) [] = omega (arith, length-append_empty n [])
  length-append_empty n (x ∷ xs) = omega (arith, length-append_empty n xs)

  expanded-length :
      (fd : ℕ) (xs : List (Option (FdContext C F))) → length xs ≤ length (expanded fd xs)
  expanded-length fd xs = elim (Bool-cases (ltb fd (length xs))) [
    | inl fits ↦ rw fits (omega arith)
    | inr full ↦ rw full (
        rw (length-append_empty (max (fd + 1) (length xs + length xs / 2) - length xs) xs)
          (omega arith))
  ]

  get-expanded :
      (fd i : ℕ) (xs : List (Option (FdContext C F)))
      → get (pos i) (expanded fd xs) ≡ get (pos i) xs
  get-expanded fd i xs = elim (Bool-cases (ltb fd (length xs))) [
    | inl fits ↦ rw fits refl
    | inr full ↦ rw full (get-append_empty _ i xs)
  ]

  length-expanded : (fd : ℕ) (xs : List (Option (FdContext C F))) → fd < length (expanded fd xs)
  length-expanded fd xs = elim (Bool-cases (ltb fd (length xs))) [
    | inl fits ↦ rw fits (ground arith)
    | inr full ↦ rw full (
        rw (length-append_empty (max (fd + 1) (length xs + length xs / 2) - length xs) xs)
          (ground arith))
  ]

  -- The context that is found, or else created.
  abbrev pub or_new : ℕ → Option (FdContext C F) → FdContext C F
  or_new fd none = new_context fd
  or_new fd (some x) = x

  pub found_or_created_lem :
      (fd : ℕ) (r : Option (FdContext C F)) (xs : List (Option (FdContext C F)))
      → get (pos fd) xs ≡ r
      → ((found_or_created fd r xs).0 ≡ or_new fd r)
        × (get (pos fd) (found_or_created fd r xs).1 ≡ some (or_new fd r))
        × (fd < length (found_or_created fd r xs).1)
        × (length xs ≤ length (found_or_created fd r xs).1)
        × ((j : ℕ) → fd ≢ j → get (pos j) (found_or_created fd r xs).1 ≡ get (pos j) xs)
  unfolding expand_and_create
  found_or_created_lem fd (some x) xs e = (refl, e, get-length fd x xs e, omega arith, λ j ne. refl)
  found_or_created_lem fd none xs e =
      let same = length-set_slot fd (new_context fd) (expanded fd xs) in
      (
        refl,
        get-set_slot fd (new_context fd) (expanded fd xs) (length-expanded fd xs),
        omega (arith, same, length-expanded fd xs),
        omega (arith, same, expanded-length fd xs),
        λ j ne. get-set_slot_other fd j (new_context fd) (expanded fd xs) ne ∙ get-expanded fd j xs,
      )

  -- A descriptor that is not negative gets a context, of its own number when it is new; the table has room for it and
  -- does not shrink, a later search finds the same context, and the other descriptors keep theirs.
  pub get_or_create_lem :
      (fd : ℕ) (xs : List (Option (FdContext C F)))
      → let x = or_new fd (get (pos fd) xs) in
        let (r, ys) = get_or_create (pos fd) xs in
        (r ≡ some x)
        × (get (pos fd) ys ≡ some x)
        × (fd < length ys)
        × (length xs ≤ length ys)
        × ((j : ℕ) → fd ≢ j → get (pos j) ys ≡ get (pos j) xs)
  unfolding get_or_create
  get_or_create_lem fd xs =
      let (a, b, c, d, e) = found_or_created_lem fd (get (pos fd) xs) xs refl in
      (ap some a, b, c, d, e)
