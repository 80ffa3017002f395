-- ===== src/Http/Radix/Priority.antt =====
-- `RadixTree::insert_regex` of zhttp/src/radix_tree.cc beside the dynamic routes.
use zhttp.Prelude.{
  ◌≡◌, refl, ap, ap₂, subst, ◌∙◌, Bool, true, false, ◌&&◌, List, [], ◌∷◌, Option, none, Bytes,
  bytes_eq, bytes_eq_refl, bytes_eq_iff, codes, arith, Bool-cases, Option-cases, inl, inr, ◌||◌,
}
use mathlib.Core.Option
use zhttp.Http.Common.{HttpMethod}
use zhttp.Http.Radix.{
  NodeType, static, param, catch_all, RadixNode, RadixNodes, node, type_of, path_of, param_name_of,
  find_child, upsert, is_type, is_static, new_node, split_path, from_child, bind_param, catch_match,
  match_dynamic, remaining_from,
}
use zhttp.Http.Radix.Changes.{apart, match_dynamic-new_node, Keeps, with_children-Keeps}
use zhttp.Http.Radix.Children.{find_child-upsert_self, find_child-upsert_other}
use zhttp.Http.Radix.Find.{
  at_static, at_prefix_node, insert_regex, hang_regex, extract_static_prefix,
}

module _ {H R : Type 0} where
  -- A change at a node that the dynamic search does not see.
  record IsUnseen (g : RadixNode H R → RadixNode H R) : Type 0 where
    pub keeps : Keeps g
    pub same_answers :
        (path : List Bytes) (m : HttpMethod) (n : RadixNode H R)
        → match_dynamic path m (g n) ≡ match_dynamic path m n
    pub same_catch :
        (rest : Bytes) (m : HttpMethod) (n : RadixNode H R)
        → catch_match (g n) rest m ≡ catch_match n rest m

  module _ (compile : Bytes → Option R) (m : HttpMethod) (pattern : Bytes) (names : List Bytes)
      (h : H) where
    hang-Keeps : Keeps (hang_regex {H = H} {R = R} compile m pattern names h)
    hang-Keeps (node path type name cs hs rs) = (refl, refl, refl)

    hang-same_answers :
        (path : List Bytes) (m' : HttpMethod) (n : RadixNode H R)
        → match_dynamic path m' (hang_regex compile m pattern names h n) ≡ match_dynamic path m' n
    unfolding match_dynamic
    hang-same_answers [] m' (node path type name cs hs rs) = refl
    hang-same_answers (s ∷ ss) m' (node path type name cs hs rs) = refl

    hang-same_catch :
        (rest : Bytes) (m' : HttpMethod) (n : RadixNode H R)
        → catch_match (hang_regex compile m pattern names h n) rest m' ≡ catch_match n rest m'
    hang-same_catch rest m' (node path type name cs hs rs) = refl

    hang_regex-IsUnseen : IsUnseen (hang_regex compile m pattern names h)
    hang_regex-IsUnseen = record {
      keeps = hang-Keeps;
      same_answers = hang-same_answers;
      same_catch = hang-same_catch;
    }

  -- The search for a child that was changed or made.
  self_unseen :
      {A : Type 0} (answer : RadixNode H R → Option A) (q : RadixNode H R → Bool)
      (new : RadixNode H R) (g : RadixNode H R → RadixNode H R) (cs : RadixNodes H R)
      → ((n : RadixNode H R) → q (g n) ≡ q n)
      → q new ≡ true
      → answer new ≡ none
      → ((n : RadixNode H R) → answer (g n) ≡ answer n)
      → from_child (find_child q (upsert q new g cs)) answer ≡ from_child (find_child q cs) answer
  self_unseen answer q new g cs k t nothing same =
      rw (find_child-upsert_self q new g cs k t) (elim (Option-cases (find_child q cs)) [
        | inl absent ↦ rw absent (same new ∙ nothing)
        | inr (c, found) ↦ rw found (same c)
      ])

  static_apart :
      (p s : Bytes) (n : RadixNode H R)
      → bytes_eq p s ≡ false
      → is_static p n ≡ true
      → is_static s n ≡ false
  static_apart p s n other e =
      ground (arith, bytes_eq_iff p s, bytes_eq_iff (path_of n) p, bytes_eq_iff (path_of n) s)

  static_type :
      (p : Bytes) (n : RadixNode H R) → is_static p n ≡ true → is_type static (type_of n) ≡ true
  static_type p n e = ground arith

  module _ (p : Bytes) (g : RadixNode H R → RadixNode H R) (u : IsUnseen g)
      (cs : RadixNodes H R) where
    is_static-unseen : (s : Bytes) (n : RadixNode H R) → is_static s (g n) ≡ is_static s n
    is_static-unseen s n =
        let (types, paths, _) = u.keeps n in
        ap₂ (λ t q. is_type static t && bytes_eq q s) types paths

    static_unseen :
        (s : Bytes) (path : List Bytes) (m : HttpMethod)
        → from_child
            (find_child (is_static s) (upsert (is_static p) (new_node p static []) g cs))
            (match_dynamic path m)
          ≡ from_child (find_child (is_static s) cs) (match_dynamic path m)
    static_unseen s path m = elim (Bool-cases (bytes_eq p s)) [
      | inl same ↦
          let e : p ≡ s = (bytes_eq_iff p s).0 same in
          subst
            (λ x.
              from_child
                (find_child (is_static x) (upsert (is_static p) (new_node p static []) g cs))
                (match_dynamic path m)
              ≡ from_child (find_child (is_static x) cs) (match_dynamic path m))
            e
            (self_unseen (match_dynamic path m) (is_static p) (new_node p static []) g cs
              (is_static-unseen p) (bytes_eq_refl p) (match_dynamic-new_node R path m p [] static)
              (u.same_answers path m))
      | inr other ↦
          ap (λ o. from_child o (match_dynamic path m))
            (find_child-upsert_other (is_static p) (is_static s) (new_node p static []) g cs
              (λ n. static_apart p s n other) (is_static-unseen s) (bytes_eq_refl p))
    ]

    other_unseen :
        {A : Type 0} (answer : RadixNode H R → Option A) (t : NodeType)
        → is_type static t ≡ false
        → from_child
            (find_child
              (λ n. is_type t (type_of n))
              (upsert (is_static p) (new_node p static []) g cs))
            answer
          ≡ from_child (find_child (λ n. is_type t (type_of n)) cs) answer
    other_unseen answer t k =
        ap (λ o. from_child o answer)
          (find_child-upsert_other (is_static p) (λ n. is_type t (type_of n)) (new_node p static [])
            g cs (λ n e. apart static t (type_of n) k (static_type p n e))
            (λ n. ap (is_type t) (u.keeps n).0) (bytes_eq_refl p))

  module _ (p : Bytes) (ps : List Bytes) (g : RadixNode H R → RadixNode H R)
      (u : IsUnseen (at_static ps g)) where
    step-same_answers :
        (path : List Bytes) (m : HttpMethod) (n : RadixNode H R)
        → match_dynamic path m (at_static (p ∷ ps) g n) ≡ match_dynamic path m n
    unfolding match_dynamic at_static
    step-same_answers [] m (node path type name cs hs rs) = refl
    step-same_answers (s ∷ ss) m (node path type name cs hs rs) =
        rw
          (
            static_unseen p (at_static ps g) u cs s ss m,
            other_unseen p (at_static ps g) u cs
                (λ c. Option.map (bind_param (param_name_of c) s) (match_dynamic ss m c)) param
                refl,
            other_unseen p (at_static ps g) u cs (λ c. catch_match c (remaining_from [] (s ∷ ss)) m)
                catch_all refl,
          )
          refl

    step-same_catch :
        (rest : Bytes) (m : HttpMethod) (n : RadixNode H R)
        → catch_match (at_static (p ∷ ps) g n) rest m ≡ catch_match n rest m
    unfolding at_static
    step-same_catch rest m (node path type name cs hs rs) = refl

  at_static-Keeps :
      (p : Bytes) (ps : List Bytes) (g : RadixNode H R → RadixNode H R)
      → Keeps (at_static (p ∷ ps) g)
  unfolding at_static
  at_static-Keeps p ps g n = with_children-Keeps _ n

  at_static-IsUnseen :
      (segs : List Bytes) (g : RadixNode H R → RadixNode H R)
      → IsUnseen g
      → IsUnseen (at_static segs g)
  at_static-IsUnseen [] g u = (unfold at_static in u)
  at_static-IsUnseen (p ∷ ps) g u =
      let ih = at_static-IsUnseen ps g u in
      record {
        keeps = at_static-Keeps p ps g;
        same_answers = step-same_answers p ps g ih;
        same_catch = step-same_catch p ps g ih;
      }

-- Registering a regular route leaves every answer of the dynamic routes as it was.
pub insert_regex-match_dynamic :
    {H R : Type 0} (compile : Bytes → Option R) (m m' : HttpMethod) (pattern : Bytes)
    (names : List Bytes) (h : H) (path : List Bytes) (root : RadixNode H R)
    → match_dynamic path m' (insert_regex compile m pattern names h root)
      ≡ match_dynamic path m' root
unfolding insert_regex at_prefix_node
insert_regex-match_dynamic compile m m' pattern names h path root =
    let hung = hang_regex-IsUnseen compile m pattern names h in
    elim (Bool-cases (
      bytes_eq (extract_static_prefix pattern) []
      || bytes_eq (extract_static_prefix pattern) (codes "/"))) [
        | inl at_root ↦ rw at_root (hung.same_answers path m' root)
        | inr below ↦ rw below (
            (at_static-IsUnseen (split_path (extract_static_prefix pattern)) _ hung).same_answers
              path m' root)
      ]
