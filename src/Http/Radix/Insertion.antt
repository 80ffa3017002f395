-- ===== src/Http/Radix/Insertion.antt =====
-- `RadixTree::insert` of zhttp/src/radix_tree.cc: what inserting a route changes in later searches.
use zhttp.Prelude.{
  ◌≡◌, refl, ap, ap₂, sym, subst, true, false, ◌&&◌, List, [], ◌∷◌, Option, none, Bytes, bytes_eq,
  bytes_eq_iff, bytes_eq_refl, arith, Bool-cases, inl, inr, lookup, insert, lookup-insert,
  if◌then◌else◌,
}
use mathlib.Core.Option
use zhttp.Http.Common.{HttpMethod}
use zhttp.Http.Radix.{
  NodeType, static, param, catch_all, RadixNode, RadixNodes, node, find_child, upsert, type_of,
  path_of, param_name_of, set_handler, is_type, is_static, is_param, is_catch_all, wanted, made,
  new_node, insert_at, parse_segment, RouteMatch, from_child, is_empty, plain_match, bind_param,
  leaf_match, catch_match, match_dynamic, remaining_from, method_key, method_eq, method_eq_iff,
}
use zhttp.Http.Radix.Changes.{
  Fits, FitsSegment, Changed, Changed-or_else, Changed-bind, Changed-because, apart, Keeps,
  set_handler-Keeps, insert_at-Keeps, match_dynamic-new_node, self_attempt, other_attempt,
}

-- The match that a catch-all node makes.
abbrev named_match : {H : Type 0} → H → Bytes → Bytes → RouteMatch H
named_match h name rest =
    if is_empty name then plain_match h else bind_param name rest (plain_match h)

named-handler : {H : Type 0} (h : H) (name rest : Bytes) → (named_match h name rest).handler ≡ h
named-handler h [] rest = refl
named-handler h (c ∷ name) rest = refl

-- A leaf's test for handlers changes nothing.
pub leaf_lookup :
    {H : Type 0} (m : HttpMethod) (hs : List (HttpMethod × H))
    → (if is_empty hs then none else Option.map plain_match (lookup m hs))
      ≡ Option.map plain_match (lookup m hs)
leaf_lookup m [] = (unfold lookup in refl)
leaf_lookup m (x ∷ hs) = refl

-- The reason for a change by a route under method m' and pattern `pat`.
abbrev pub Reason : HttpMethod → HttpMethod → List Bytes → List Bytes → Type 0
Reason m m' pat path = Fits pat path × (m' ≡ m)

wanted-made :
    (H R : Type 0) (t : NodeType) (name p : Bytes)
    → wanted {H = H} {R = R} t p (made (t, name) p) ≡ true
wanted-made H R static name p = bytes_eq_refl p
wanted-made H R param name p = refl
wanted-made H R catch_all name p = refl

module _ {H R : Type 0} (m m' : HttpMethod) (h : H) where
  -- The route under method m' and pattern `pat`, put into a node.
  abbrev pub put : List Bytes → RadixNode H R → RadixNode H R
  put pat = insert_at pat (set_handler m' h)

  put-Keeps : (pat : List Bytes) → Keeps (put pat)
  put-Keeps pat = insert_at-Keeps pat (set_handler m' h) (set_handler-Keeps m' h)

  pub is_static-put :
      (s : Bytes) (pat : List Bytes) (n : RadixNode H R) → is_static s (put pat n) ≡ is_static s n
  is_static-put s pat n =
      let (types, paths, _) = put-Keeps pat n in
      ap₂ (λ t q. is_type static t && bytes_eq q s) types paths

  pub is_param-put : (pat : List Bytes) (n : RadixNode H R) → is_param (put pat n) ≡ is_param n
  is_param-put pat n = ap (is_type param) (put-Keeps pat n).0

  pub is_catch_all-put :
      (pat : List Bytes) (n : RadixNode H R) → is_catch_all (put pat n) ≡ is_catch_all n
  is_catch_all-put pat n = ap (is_type catch_all) (put-Keeps pat n).0

  wanted-put :
      (t : NodeType) (p : Bytes) (pat : List Bytes) (n : RadixNode H R)
      → wanted t p (put pat n) ≡ wanted t p n
  wanted-put static p pat n = is_static-put p pat n
  wanted-put param p pat n = is_param-put pat n
  wanted-put catch_all p pat n = is_catch_all-put pat n

  -- The children after the change.
  abbrev grown : NodeType → Bytes → Bytes → List Bytes → RadixNodes H R → RadixNodes H R
  grown t name p ps cs = upsert (wanted t p) (made (t, name) p) (put ps) cs

  static_type :
      (p : Bytes) (n : RadixNode H R) → is_static p n ≡ true → is_type static (type_of n) ≡ true
  static_type p n e = ground arith

  static_apart :
      (p s : Bytes)
      → bytes_eq p s ≡ false
      → (n : RadixNode H R) → is_static p n ≡ true
      → is_static s n ≡ false
  static_apart p s other n e =
      ground (arith, bytes_eq_iff p s, bytes_eq_iff (path_of n) p, bytes_eq_iff (path_of n) s)

  static_attempt :
      (t : NodeType) (name p : Bytes) (ps : List Bytes) (s : Bytes) (ss : List Bytes)
      (cs : RadixNodes H R)
      → ((c : RadixNode H R)
          → Changed (Reason m m' ps ss) h (match_dynamic ss m c) (match_dynamic ss m (put ps c)))
      → Changed
          (FitsSegment t p ps s (Fits ps ss) × (m' ≡ m))
          h
          (from_child (find_child (is_static s) cs) (match_dynamic ss m))
          (from_child (find_child (is_static s) (grown t name p ps cs)) (match_dynamic ss m))
  static_attempt static name p ps s ss cs ih = elim (Bool-cases (bytes_eq p s)) [
    | inl same ↦
        let e : p ≡ s = (bytes_eq_iff p s).0 same in
        subst
          (λ x.
            Changed (((p ≡ s) × Fits ps ss) × (m' ≡ m)) h
              (from_child (find_child (is_static s) cs) (match_dynamic ss m))
              (from_child
                (find_child (is_static s) (upsert (is_static x) (new_node p static []) (put ps) cs))
                (match_dynamic ss m)))
          (sym e)
          (self_attempt h (((p ≡ s) × Fits ps ss) × (m' ≡ m)) (match_dynamic ss m) (is_static s)
            (new_node p static []) (put ps) cs (is_static-put s ps) same
            (match_dynamic-new_node R ss m p [] static)
            (λ c. Changed-because (Reason m m' ps ss) _ _ _ (λ r. ((e, r.0), r.1)) (ih c)))
    | inr other ↦
        other_attempt h _ (match_dynamic ss m) (is_static p) (is_static s) (new_node p static [])
          (put ps) cs (static_apart p s other) (is_static-put s ps) (bytes_eq_refl p)
  ]
  static_attempt param name p ps s ss cs ih =
      other_attempt h _ (match_dynamic ss m) is_param (is_static s) (made (param, name) p) (put ps)
        cs (λ n e. ground (arith, apart param static (type_of n) refl e)) (is_static-put s ps) refl
  static_attempt catch_all name p ps s ss cs ih =
      other_attempt h _ (match_dynamic ss m) is_catch_all (is_static s) (made (catch_all, name) p)
        (put ps) cs (λ n e. ground (arith, apart catch_all static (type_of n) refl e))
        (is_static-put s ps) refl

  param_attempt :
      (t : NodeType) (name p : Bytes) (ps : List Bytes) (s : Bytes) (ss : List Bytes)
      (cs : RadixNodes H R)
      → ((c : RadixNode H R)
          → Changed (Reason m m' ps ss) h (match_dynamic ss m c) (match_dynamic ss m (put ps c)))
      → let answer : RadixNode H R → Option (RouteMatch H) =
          λ c. Option.map (bind_param (param_name_of c) s) (match_dynamic ss m c) in
        Changed
          (FitsSegment t p ps s (Fits ps ss) × (m' ≡ m))
          h
          (from_child (find_child is_param cs) answer)
          (from_child (find_child is_param (grown t name p ps cs)) answer)
  param_attempt static name p ps s ss cs ih =
      other_attempt h _ _ (is_static p) is_param (new_node p static []) (put ps) cs
        (λ n e. apart static param (type_of n) refl (static_type p n e)) (is_param-put ps)
        (bytes_eq_refl p)
  param_attempt catch_all name p ps s ss cs ih =
      other_attempt h _ _ is_catch_all is_param (made (catch_all, name) p) (put ps) cs
        (λ n e. apart catch_all param (type_of n) refl e) (is_param-put ps) refl
  param_attempt param name p ps s ss cs ih =
      self_attempt h (Fits ps ss × (m' ≡ m)) _ is_param (made (param, name) p) (put ps) cs
        (is_param-put ps) refl (rw (match_dynamic-new_node R ss m p name param) refl)
        (λ c. rw ((put-Keeps ps c).2) (
          Changed-bind (param_name_of c) s (match_dynamic ss m c) (match_dynamic ss m (put ps c))
            (ih c)))

  -- The new handler at a catch-all node, or at a leaf.
  catch_set_handler :
      (rest : Bytes) (c : RadixNode H R)
      → Changed
          (◌≡◌ {A = List Bytes} [] [] × (m' ≡ m))
          h
          (catch_match c rest m)
          (catch_match (set_handler m' h c) rest m)
  catch_set_handler rest (node path type name cs hs rs) = elim (Bool-cases (method_eq m' m)) [
    | inl same ↦
        rw (lookup-insert m' m h hs, same)
          (inr (
            (refl, (method_eq_iff m' m).0 same),
            (named_match h name rest, refl, named-handler h name rest),
          ))
    | inr other ↦ rw (lookup-insert m' m h hs, other) (inl refl)
  ]

  catch_put :
      (rest : Bytes) (ps : List Bytes) (c : RadixNode H R)
      → Changed ((ps ≡ []) × (m' ≡ m)) h (catch_match c rest m) (catch_match (put ps c) rest m)
  unfolding insert_at
  catch_put rest [] c = catch_set_handler rest c
  catch_put rest (p ∷ ps) (node path type name cs hs rs) = inl refl

  catch_attempt :
      (t : NodeType) (name p : Bytes) (ps : List Bytes) (s : Bytes) (ss : List Bytes) (rest : Bytes)
      (cs : RadixNodes H R)
      → let answer : RadixNode H R → Option (RouteMatch H) = λ c. catch_match c rest m in
        Changed
          (FitsSegment t p ps s (Fits ps ss) × (m' ≡ m))
          h
          (from_child (find_child is_catch_all cs) answer)
          (from_child (find_child is_catch_all (grown t name p ps cs)) answer)
  catch_attempt static name p ps s ss rest cs =
      other_attempt h _ _ (is_static p) is_catch_all (new_node p static []) (put ps) cs
        (λ n e. apart static catch_all (type_of n) refl (static_type p n e)) (is_catch_all-put ps)
        (bytes_eq_refl p)
  catch_attempt param name p ps s ss rest cs =
      other_attempt h _ _ is_param is_catch_all (made (param, name) p) (put ps) cs
        (λ n e. apart param catch_all (type_of n) refl e) (is_catch_all-put ps) refl
  catch_attempt catch_all name p ps s ss rest cs =
      self_attempt h ((ps ≡ []) × (m' ≡ m)) _ is_catch_all (made (catch_all, name) p) (put ps) cs
        (is_catch_all-put ps) refl (unfold lookup in refl) (catch_put rest ps)

  leaf_put :
      (n : RadixNode H R)
      → Changed (Unit {0} × (m' ≡ m)) h (leaf_match n m) (leaf_match (set_handler m' h n) m)
  leaf_put (node path type name cs hs rs) =
      rw (leaf_lookup m hs, leaf_lookup m (insert m' h hs), lookup-insert m' m h hs)
        (elim (Bool-cases (method_eq m' m)) [
          | inl same ↦
              rw same (inr ((tt, (method_eq_iff m' m).0 same), (plain_match h, refl, refl)))
          | inr other ↦ rw other (inl refl)
        ])

  -- Inserting a route leaves the answer to a method and a path as it was, or the method is the route's, its
  -- pattern fits the path, and the answer is now the route's handler.
  pub insert_at-Changed :
      (pat path : List Bytes) (n : RadixNode H R)
      → Changed (Reason m m' pat path) h (match_dynamic path m n) (match_dynamic path m (put pat n))
  unfolding match_dynamic insert_at
  insert_at-Changed [] [] n = leaf_put n
  insert_at-Changed [] (s ∷ ss) (node path type name cs hs rs) = inl refl
  insert_at-Changed (p ∷ ps) [] (node path type name cs hs rs) = inl refl
  insert_at-Changed (p ∷ ps) (s ∷ ss) (node path type name cs hs rs) =
      Changed-or_else _ _ _ _
        (static_attempt (parse_segment p).0 (parse_segment p).1 p ps s ss cs
          (insert_at-Changed ps ss))
        (Changed-or_else _ _ _ _
          (param_attempt (parse_segment p).0 (parse_segment p).1 p ps s ss cs
            (insert_at-Changed ps ss))
          (catch_attempt (parse_segment p).0 (parse_segment p).1 p ps s ss
            (remaining_from [] (s ∷ ss)) cs))
