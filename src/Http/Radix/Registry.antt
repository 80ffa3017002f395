-- ===== src/Http/Radix/Registry.antt =====
-- A tree that is built by registering routes, against the list of the routes.
use zhttp.Prelude.{
  ◌≡◌, ◌≢◌, refl, ap, sym, subst, ◌∙◌, List, [], ◌∷◌, Option, none, some, Bytes, bytes_eq_refl, inl,
  inr, ◌⊎◌, lookup, insert, lookup-insert_self,
}
use mathlib.Core.Option
use zhttp.Http.Common.{HttpMethod}
use zhttp.Http.Radix.{
  NodeType, static, param, catch_all, RadixNode, RadixNodes, node, find_child, upsert, set_handler,
  is_static, is_param, is_catch_all, made, wanted, insert_at, insert_route, parse_segment,
  split_path, RouteMatch, or_else, from_child, bind_param, param_name_of, leaf_match, catch_match,
  match_dynamic, remaining_from, method_key, empty_root,
}
use zhttp.Http.Radix.Changes.{Fits, FitsSegment, match_dynamic-new_node}
use zhttp.Http.Radix.Children.{find_child-upsert_self}
use zhttp.Http.Radix.Insertion.{
  insert_at-Changed, is_static-put, is_param-put, is_catch_all-put, leaf_lookup,
}

or_else-ne-none_left : {A : Type 0} (a b : Option A) → a ≢ none → or_else a b ≢ none
or_else-ne-none_left none b h e = h refl
or_else-ne-none_left (some x) b h e = cc

or_else-ne-none_right : {A : Type 0} (a b : Option A) → b ≢ none → or_else a b ≢ none
or_else-ne-none_right none b h e = h e
or_else-ne-none_right (some x) b h e = cc

some_inj : {A : Type 0} (x y : A) → ◌≡◌ {A = Option A} (some x) (some y) → x ≡ y
some_inj x y e = cc

map-ne-none : {A B : Type 0} (f : A → B) (o : Option A) → o ≢ none → Option.map f o ≢ none
map-ne-none f none h e = h refl
map-ne-none f (some a) h e = cc

module _ {H R : Type 0} (m : HttpMethod) (h : H) where
  abbrev add_route : List Bytes → RadixNode H R → RadixNode H R
  add_route pat = insert_at pat (set_handler m h)

  leaf-found : (n : RadixNode H R) → leaf_match (set_handler m h n) m ≢ none
  leaf-found (node path type name cs hs rs) e =
      cc (leaf_lookup m (insert m h hs), lookup-insert_self m h hs, e)

  catch-found : (rest : Bytes) (c : RadixNode H R) → catch_match (set_handler m h c) rest m ≢ none
  catch-found rest (node path type name cs hs rs) =
      map-ne-none _ (lookup m (insert m h hs)) (rw (lookup-insert_self m h hs) (λ e. cc))

  end_found :
      (rest : Bytes) (ps : List Bytes)
      → ps ≡ []
      → (c : RadixNode H R) → catch_match (add_route ps c) rest m ≢ none
  unfolding insert_at
  end_found rest [] e c = catch-found rest c
  end_found rest (p ∷ ps) e c = cc

  abbrev grown_by : NodeType → Bytes → Bytes → List Bytes → RadixNodes H R → RadixNodes H R
  grown_by t name p ps cs = upsert (wanted t p) (made (t, name) p) (add_route ps) cs

  -- One of the three attempts at a node that got the route answers.
  attempts-found :
      (t : NodeType) (name p : Bytes) (ps : List Bytes) (s : Bytes) (ss : List Bytes)
      (cs : RadixNodes H R) (rest : Bytes)
      → FitsSegment t p ps s (Fits ps ss)
      → ((c : RadixNode H R) → Fits ps ss → match_dynamic ss m (add_route ps c) ≢ none)
      → or_else
          (from_child (find_child (is_static s) (grown_by t name p ps cs)) (match_dynamic ss m))
          (or_else
            (from_child
              (find_child is_param (grown_by t name p ps cs))
              (λ c. Option.map (bind_param (param_name_of c) s) (match_dynamic ss m c)))
            (from_child
              (find_child is_catch_all (grown_by t name p ps cs))
              (λ c. catch_match c rest m)))
        ≢ none
  attempts-found static name p ps s ss cs rest (e, f) ih = or_else-ne-none_left _ _ (
      subst
        (λ x.
          from_child (find_child (is_static x) (grown_by static name p ps cs)) (match_dynamic ss m)
          ≢ none)
        e
        (subst (λ o. from_child o (match_dynamic ss m) ≢ none)
          (sym (
            find_child-upsert_self (is_static p) (made (static, name) p) (add_route ps) cs
              (is_static-put m m h p ps) (bytes_eq_refl p)))
          (ih _ f)))
  attempts-found param name p ps s ss cs rest f ih = or_else-ne-none_right _ _ (
      or_else-ne-none_left _ _ (
        subst
          (λ o.
            from_child o (λ c. Option.map (bind_param (param_name_of c) s) (match_dynamic ss m c))
            ≢ none)
          (sym (
            find_child-upsert_self is_param (made (param, name) p) (add_route ps) cs
              (is_param-put m m h ps) refl))
          (map-ne-none _ _ (ih _ f))))
  attempts-found catch_all name p ps s ss cs rest e ih = or_else-ne-none_right _ _ (
      or_else-ne-none_right _ _ (
        subst (λ o. from_child o (λ c. catch_match c rest m) ≢ none)
          (sym (
            find_child-upsert_self is_catch_all (made (catch_all, name) p) (add_route ps) cs
              (is_catch_all-put m m h ps) refl))
          (end_found rest ps e _)))

  -- A path that the pattern of a route fits is answered once the route is there.
  insert_at-found :
      (pat path : List Bytes) (n : RadixNode H R)
      → Fits pat path
      → match_dynamic path m (add_route pat n) ≢ none
  unfolding match_dynamic insert_at
  insert_at-found [] [] n f = leaf-found n
  insert_at-found [] (s ∷ ss) n f = elim f [ ]
  insert_at-found (p ∷ ps) [] n f = elim f [ ]
  insert_at-found (p ∷ ps) (s ∷ ss) (node path type name cs hs rs) f =
      attempts-found (parse_segment p).0 (parse_segment p).1 p ps s ss cs
        (remaining_from [] (s ∷ ss)) f (insert_at-found ps ss)

-- A route as it was registered: its method, the segments of its pattern and its handler.
pub record Route (H : Type 0) : Type 0 where
  pub method : HttpMethod
  pub pattern : Bytes
  pub handler : H

module _ {H R : Type 0} where
  -- The tree after the routes of a list, the last one of the list registered first.
  abbrev pub registered : List (Route H) → RadixNode H R
  registered [] = empty_root
  registered (r ∷ rs) = insert_route r.method r.pattern r.handler (registered rs)

-- A route of the list answers a request: its method is the request's and its pattern fits the path.
abbrev pub Serves : {H : Type 0} → Bytes → HttpMethod → Route H → Type 0
Serves path m r = Fits (split_path r.pattern) (split_path path) × (r.method ≡ m)

abbrev pub ServedBy : {H : Type 0} → Bytes → HttpMethod → H → List (Route H) → Type 0
ServedBy path m h [] = ⊥
ServedBy path m h (r ∷ rs) = (Serves path m r × (r.handler ≡ h)) ⊎ ServedBy path m h rs

abbrev pub IsServed : {H : Type 0} → Bytes → HttpMethod → List (Route H) → Type 0
IsServed path m [] = ⊥
IsServed path m (r ∷ rs) = Serves path m r ⊎ IsServed path m rs

-- In a tree built from a list of routes, the handler of an answer is that of a route of the list whose method
-- is the request's and whose pattern fits the path.
pub match_dynamic-registered :
    {H : Type 0} (R : Type 0) (rs : List (Route H)) (path : Bytes) (m : HttpMethod)
    (a : RouteMatch H)
    → match_dynamic (split_path path) m (registered {R = R} rs) ≡ some a
    → ServedBy path m a.handler rs
unfolding insert_route
match_dynamic-registered {H} R [] path m a e =
    absurd (cc (match_dynamic-new_node {H = H} R (split_path path) m [] [] static, e))
match_dynamic-registered R (r ∷ rs) path m a e =
    elim (insert_at-Changed m r.method r.handler (split_path r.pattern) (split_path path)
      (registered {R = R} rs)) [
        | inl same ↦ inr (match_dynamic-registered R rs path m a (sym same ∙ e))
        | inr (f, (b, e', k)) ↦ inl (f, sym k ∙ ap (λ x. x.handler) (some_inj b a (sym e' ∙ e)))
      ]

-- In a tree built from a list of routes, a request whose method and path a route of the list serves is
-- answered.
pub registered-IsServed :
    {H : Type 0} (R : Type 0) (rs : List (Route H)) (path : Bytes) (m : HttpMethod)
    → IsServed path m rs
    → match_dynamic (split_path path) m (registered {R = R} rs) ≢ none
unfolding insert_route
registered-IsServed R [] path m s = elim s [ ]
registered-IsServed R (r ∷ rs) path m (inl (f, e)) =
    subst (λ x. match_dynamic (split_path path) x (registered {R = R} (r ∷ rs)) ≢ none) e
      (insert_at-found r.method r.handler (split_path r.pattern) (split_path path)
        (registered {R = R} rs) f)
registered-IsServed R (r ∷ rs) path m (inr s) =
    elim (insert_at-Changed m r.method r.handler (split_path r.pattern) (split_path path)
      (registered {R = R} rs)) [
        | inl same ↦ λ e. registered-IsServed R rs path m s (sym same ∙ e)
        | inr (f, (b, e', k)) ↦ λ e. cc
      ]
