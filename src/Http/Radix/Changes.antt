-- ===== src/Http/Radix/Changes.antt =====
-- When a pattern fits a path, and how one search among the children of a node may answer after a
-- child was changed or added.
use zhttp.Prelude.{
  ◌≡◌, refl, ap, subst, Bool, true, false, List, [], ◌∷◌, Option, none, some, Bytes, arith,
  Option-cases, inl, inr, ◌⊎◌,
}
use mathlib.Core.Option
use zhttp.Http.Common.{HttpMethod}
use zhttp.Http.Radix.{
  NodeType, static, param, catch_all, RadixNode, RadixNodes, node, find_child, upsert, type_of,
  path_of, param_name_of, handlers_of, children_of, with_children, set_handler, is_type, new_node,
  insert_at, parse_segment, RouteMatch, or_else, from_child, bind_param, match_dynamic, method_key,
}
use zhttp.Http.Radix.Children.{find_child-upsert_self, find_child-upsert_other}

-- When a pattern, as its segments, fits a path, as its segments.
abbrev pub FitsSegment : NodeType → Bytes → List Bytes → Bytes → Type 0 → Type 0
FitsSegment static p ps s rest = (p ≡ s) × rest
FitsSegment param p ps s rest = rest
FitsSegment catch_all p ps s rest = ps ≡ []

abbrev pub Fits : List Bytes → List Bytes → Type 0
Fits [] [] = Unit
Fits [] (s ∷ ss) = ⊥
Fits (p ∷ ps) [] = ⊥
Fits (p ∷ ps) (s ∷ ss) = FitsSegment (parse_segment p).0 p ps s (Fits ps ss)

-- An answer that stayed, or that is now the new handler, for the reason `F`.
abbrev pub Changed :
    {H : Type 0} → Type 0 → H → Option (RouteMatch H) → Option (RouteMatch H) → Type 0
Changed {H} F h old new =
    (new ≡ old) ⊎ (F × ((r : RouteMatch H) × (new ≡ some r) × (r.handler ≡ h)))

module _ {H : Type 0} {F : Type 0} {h : H} where
  pub Changed-or_else :
      (a a' b b' : Option (RouteMatch H))
      → Changed F h a a'
      → Changed F h b b'
      → Changed F h (or_else a b) (or_else a' b')
  Changed-or_else a a' b b' (inr (f, (r, e, k))) c = inr (f, (r, rw e refl, k))
  Changed-or_else none a' b b' (inl e) c = rw e c
  Changed-or_else (some r) a' b b' (inl e) c = inl (rw e refl)

  pub Changed-bind :
      (name value : Bytes) (o o' : Option (RouteMatch H))
      → Changed F h o o'
      → Changed F h (Option.map (bind_param name value) o) (Option.map (bind_param name value) o')
  Changed-bind name value o o' (inl e) = inl (rw e refl)
  Changed-bind name value o o' (inr (f, (r, e, k))) =
      inr (f, (bind_param name value r, rw e refl, k))

pub Changed-because :
    {H : Type 0} (F G : Type 0) {h : H} (o o' : Option (RouteMatch H))
    → (F → G)
    → Changed F h o o'
    → Changed G h o o'
Changed-because F G o o' g (inl e) = inl e
Changed-because F G o o' g (inr (f, c)) = inr (g f, c)

-- No node has two types.
pub apart : (a b t : NodeType) → is_type a b ≡ false → is_type a t ≡ true → is_type b t ≡ false
apart static param static h k = refl
apart static _ _ h k = ground arith
apart param _ _ h k = ground arith
apart catch_all _ _ h k = ground arith

-- The parts of a node that later searches test.
abbrev pub Keeps : {H R : Type 0} → (RadixNode H R → RadixNode H R) → Type 0
Keeps {H} {R} f =
    (n : RadixNode H R)
    → (type_of (f n) ≡ type_of n)
      × (path_of (f n) ≡ path_of n)
      × (param_name_of (f n) ≡ param_name_of n)

-- A node that was just made answers nothing.
pub match_dynamic-new_node :
    {H : Type 0} (R : Type 0) (ss : List Bytes) (m : HttpMethod) (path name : Bytes)
    (type : NodeType)
    → match_dynamic {H = H} {R = R} ss m (new_node path type name) ≡ none
unfolding match_dynamic find_child
match_dynamic-new_node R [] m path name type = refl
match_dynamic-new_node R (s ∷ ss) m path name type = refl

module _ {H R : Type 0} where
  pub set_handler-Keeps : (m : HttpMethod) (h : H) → Keeps {H = H} {R = R} (set_handler m h)
  set_handler-Keeps m h (node path type name cs hs rs) = (refl, refl, refl)

  pub with_children-Keeps : (cs : RadixNodes H R) → Keeps {H = H} {R = R} (with_children cs)
  with_children-Keeps cs (node path type name _ hs rs) = (refl, refl, refl)

  pub insert_at-Keeps :
      (segs : List Bytes) (f : RadixNode H R → RadixNode H R) → Keeps f → Keeps (insert_at segs f)
  unfolding insert_at
  insert_at-Keeps [] f k n = k n
  insert_at-Keeps (seg ∷ segs) f k n = with_children-Keeps _ n

  pub children_of-with_children :
      (cs : RadixNodes H R) (n : RadixNode H R) → children_of (with_children cs n) ≡ cs
  children_of-with_children cs (node path type name _ hs rs) = refl

  pub handlers_of-with_children :
      (cs : RadixNodes H R) (n : RadixNode H R) → handlers_of (with_children cs n) ≡ handlers_of n
  handlers_of-with_children cs (node path type name _ hs rs) = refl

  module _ (h : H) (F : Type 0) (answer : RadixNode H R → Option (RouteMatch H)) where
    -- A search for the child that is upserted.
    pub self_attempt :
        (q : RadixNode H R → Bool) (new : RadixNode H R) (g : RadixNode H R → RadixNode H R)
        (cs : RadixNodes H R)
        → ((n : RadixNode H R) → q (g n) ≡ q n)
        → q new ≡ true
        → answer new ≡ none
        → ((c : RadixNode H R) → Changed F h (answer c) (answer (g c)))
        → Changed F h
            (from_child (find_child q cs) answer)
            (from_child (find_child q (upsert q new g cs)) answer)
    self_attempt q new g cs k t nothing changed =
        rw (find_child-upsert_self q new g cs k t) (elim (Option-cases (find_child q cs)) [
          | inl absent ↦
              rw absent (subst (λ o. Changed F h o (answer (g new))) nothing (changed new))
          | inr (c, found) ↦ rw found (changed c)
        ])

    -- A search for other children.
    pub other_attempt :
        (p q : RadixNode H R → Bool) (new : RadixNode H R) (g : RadixNode H R → RadixNode H R)
        (cs : RadixNodes H R)
        → ((n : RadixNode H R) → p n ≡ true → q n ≡ false)
        → ((n : RadixNode H R) → q (g n) ≡ q n)
        → p new ≡ true
        → Changed F h
            (from_child (find_child q cs) answer)
            (from_child (find_child q (upsert p new g cs)) answer)
    other_attempt p q new g cs d k t =
        inl (ap (λ o. from_child o answer) (find_child-upsert_other p q new g cs d k t))
