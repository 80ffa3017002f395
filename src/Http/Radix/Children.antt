-- ===== src/Http/Radix/Children.antt =====
-- What `upsert` does to later searches among the children of a node, and to their order.
use zhttp.Prelude.{
  ℕ, ◌≤◌, ◌≡◌, refl, ◌∙◌, Bool, true, false, Option, none, some, arith, Bool-cases, Option-cases,
  inl, inr, ltb,
}
use zhttp.Http.Radix.{
  RadixNode, RadixNodes, nil, cons, find_child, add_child, update_child, upsert, type_of, type_rank,
}

module _ {H R : Type 0} where
  -- The child that is found, or the new one.
  abbrev pub found_or : RadixNode H R → Option (RadixNode H R) → RadixNode H R
  found_or new none = new
  found_or new (some c) = c

  find_child-add_self :
      (p : RadixNode H R → Bool) (x : RadixNode H R) (cs : RadixNodes H R)
      → p x ≡ true
      → find_child p cs ≡ none
      → find_child p (add_child x cs) ≡ some x
  unfolding find_child add_child
  find_child-add_self p x nil h e = rw h refl
  find_child-add_self p x (cons c cs) h e = ground (arith, find_child-add_self p x cs h)

  find_child-add_other :
      (q : RadixNode H R → Bool) (x : RadixNode H R) (cs : RadixNodes H R)
      → q x ≡ false
      → find_child q (add_child x cs) ≡ find_child q cs
  unfolding find_child add_child
  find_child-add_other q x nil h = rw h refl
  find_child-add_other q x (cons c cs) h = ground (arith, find_child-add_other q x cs h)

  find_child-update_self :
      (p : RadixNode H R → Bool) (f : RadixNode H R → RadixNode H R) (c : RadixNode H R)
      (cs : RadixNodes H R)
      → ((n : RadixNode H R) → p (f n) ≡ p n)
      → find_child p cs ≡ some c
      → find_child p (update_child p f cs) ≡ some (f c)
  unfolding find_child update_child
  find_child-update_self p f c nil k e = cc
  find_child-update_self p f c (cons d cs) k e =
      ground (arith, k d, find_child-update_self p f c cs k)

  find_child-update_other :
      (p q : RadixNode H R → Bool) (f : RadixNode H R → RadixNode H R) (cs : RadixNodes H R)
      → ((n : RadixNode H R) → p n ≡ true → q n ≡ false)
      → ((n : RadixNode H R) → q (f n) ≡ q n)
      → find_child q (update_child p f cs) ≡ find_child q cs
  unfolding find_child update_child
  find_child-update_other p q f nil d k = refl
  find_child-update_other p q f (cons c cs) d k =
      ground (arith, k c, d c, find_child-update_other p q f cs d k)

  -- The search that found or made the child finds it changed.
  pub find_child-upsert_self :
      (p : RadixNode H R → Bool) (new : RadixNode H R) (f : RadixNode H R → RadixNode H R)
      (cs : RadixNodes H R)
      → ((n : RadixNode H R) → p (f n) ≡ p n)
      → p new ≡ true
      → find_child p (upsert p new f cs) ≡ some (f (found_or new (find_child p cs)))
  unfolding upsert
  find_child-upsert_self p new f cs k h = elim (Option-cases (find_child p cs)) [
    | inl absent ↦ rw absent (find_child-add_self p (f new) cs (k new ∙ h) absent)
    | inr (c, found) ↦ rw found (find_child-update_self p f c cs k found)
  ]

  -- A search for children that the first one rejects finds what it found before.
  pub find_child-upsert_other :
      (p q : RadixNode H R → Bool) (new : RadixNode H R) (f : RadixNode H R → RadixNode H R)
      (cs : RadixNodes H R)
      → ((n : RadixNode H R) → p n ≡ true → q n ≡ false)
      → ((n : RadixNode H R) → q (f n) ≡ q n)
      → p new ≡ true
      → find_child q (upsert p new f cs) ≡ find_child q cs
  unfolding upsert
  find_child-upsert_other p q new f cs d k h = elim (Option-cases (find_child p cs)) [
    | inl absent ↦ rw absent (find_child-add_other q (f new) cs (k new ∙ d new h))
    | inr (c, found) ↦ rw found (find_child-update_other p q f cs d k)
  ]

  -- Static children first, then parameters, then catch-alls.
  abbrev pub AtLeast : ℕ → RadixNodes H R → Type 0
  AtLeast n nil = Unit
  AtLeast n (cons c cs) = n ≤ type_rank (type_of c)

  abbrev pub IsOrdered : RadixNodes H R → Type 0
  IsOrdered nil = Unit
  IsOrdered (cons c cs) = AtLeast (type_rank (type_of c)) cs × IsOrdered cs

  AtLeast-add_child :
      (n : ℕ) (x : RadixNode H R) (cs : RadixNodes H R)
      → AtLeast n cs
      → n ≤ type_rank (type_of x)
      → AtLeast n (add_child x cs)
  unfolding add_child
  AtLeast-add_child n x nil h k = k
  AtLeast-add_child n x (cons c cs) h k = ground arith

  -- Adding a child keeps the children in the order static, parameter, catch-all.
  pub add_child-IsOrdered :
      (x : RadixNode H R) (cs : RadixNodes H R) → IsOrdered cs → IsOrdered (add_child x cs)
  unfolding add_child
  add_child-IsOrdered x nil h = (tt, tt)
  add_child-IsOrdered x (cons c cs) (h, k) =
      elim (Bool-cases (ltb (type_rank (type_of c)) (type_rank (type_of x)))) [
        | inl before ↦ rw before (
          AtLeast-add_child (type_rank (type_of c)) x cs h (ground arith),
          add_child-IsOrdered x cs k,
        )
        | inr here ↦ rw here (ground arith, (h, k))
      ]
