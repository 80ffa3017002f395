-- ===== src/Http/Radix/Find.antt =====
-- The regular-expression routes of zhttp/src/radix_tree.cc and `RadixTree::find`. `std::regex` is a parameter:
-- `compile` gives no value where its constructor throws, and `matches` gives the texts of the capture
-- groups of a full match.
use zhttp.Prelude.{
  ℕ, suc, ◌-◌, Bool, true, false, ◌||◌, List, [], ◌∷◌, Option, none, some, Bytes, codes, bytes_eq,
  bytes_key, Dict, lookup, insert, ltb, ◌==◌, if◌then◌else◌, length, take, reverse,
}
use mathlib.Core.Option
use zhttp.Http.Common.{HttpMethod}
use zhttp.Http.Radix.{
  static, NodeRegexRoute, RadixNode, node, children_of, with_children, find_child, upsert,
  is_static, new_node, split_path, RouteMatch, or_else, match_dynamic, method_key, regex_routes_of,
}

-- The characters at which a static prefix ends.
abbrev is_meta : ℕ → Bool
is_meta c =
    (c == b'(')
    || ((c == b'[')
        || ((c == b'.')
            || ((c == b'*')
                || ((c == b'+')
                    || ((c == b'?')
                        || ((c == b'{')
                            || ((c == 92) || ((c == b'^') || ((c == b'$') || (c == b'|'))))))))))

unfoldable pub literal_prefix : Bytes → Bytes
literal_prefix [] = []
literal_prefix (c ∷ s) = if is_meta c then [] else c ∷ literal_prefix s

-- `rfind('/')`.
abbrev pub later_or : Option ℕ → Bool → Option ℕ
later_or none false = none
later_or none true = some 0
later_or (some i) here = some (suc i)

unfoldable pub last_slash : Bytes → Option ℕ
last_slash [] = none
last_slash (c ∷ s) = later_or (last_slash s) (c == b'/')

abbrev pub whole_segments : Option ℕ → Bytes → Bytes
whole_segments none prefix = prefix
whole_segments (some i) prefix = if ltb i (length prefix - 1) then take (suc i) prefix else prefix

unfoldable pub extract_static_prefix : Bytes → Bytes
extract_static_prefix pattern =
    let prefix = literal_prefix pattern in whole_segments (last_slash prefix) prefix

module _ {H R : Type 0} where
  -- `find_or_create_prefix_node`, ending with a change at the node that it returns.
  unfoldable pub at_static :
      List Bytes → (RadixNode H R → RadixNode H R) → RadixNode H R → RadixNode H R
  at_static [] f n = f n
  at_static (seg ∷ segs) f n =
      with_children
        (upsert (is_static seg) (new_node seg static []) (at_static segs f) (children_of n)) n

  unfoldable pub at_prefix_node :
      Bytes → (RadixNode H R → RadixNode H R) → RadixNode H R → RadixNode H R
  at_prefix_node prefix f root =
      if bytes_eq prefix [] || bytes_eq prefix (codes "/")
      then f root
      else at_static (split_path prefix) f root

  abbrev pub new_regex_route :
      Option R → HttpMethod → Bytes → List Bytes → H → List (NodeRegexRoute H R)
  new_regex_route none m pattern names h = []
  new_regex_route (some r) m pattern names h =
      record { regex = r; pattern = pattern; param_names = names; handlers = insert m h [] } ∷ []

  -- The loop of `insert_regex` over the routes of the node, and what follows it.
  unfoldable pub put_regex :
      (Bytes → Option R)
      → HttpMethod
      → Bytes
      → List Bytes
      → H
      → List (NodeRegexRoute H R)
      → List (NodeRegexRoute H R)
  put_regex compile m pattern names h [] = new_regex_route (compile pattern) m pattern names h
  put_regex compile m pattern names h (r ∷ rs) =
      if bytes_eq r.pattern pattern
      then record r { handlers = insert m h r.handlers } ∷ rs
      else r ∷ put_regex compile m pattern names h rs

  abbrev pub hang_regex :
      (Bytes → Option R) → HttpMethod → Bytes → List Bytes → H → RadixNode H R → RadixNode H R
  hang_regex compile m pattern names h (node path type name cs hs rs) =
      node path type name cs hs (put_regex compile m pattern names h rs)

  -- Where `compile` gives nothing the code throws, with the nodes of the prefix made.
  unfoldable pub insert_regex :
      (Bytes → Option R) → HttpMethod → Bytes → List Bytes → H → RadixNode H R → RadixNode H R
  insert_regex compile m pattern names h root =
      at_prefix_node (extract_static_prefix pattern) (hang_regex compile m pattern names h) root

  abbrev pub collected :
      Option (RadixNode H R) → (RadixNode H R → List (RadixNode H R)) → List (RadixNode H R)
  collected none more = []
  collected (some c) more = more c

  unfoldable pub collect_prefix_nodes : List Bytes → RadixNode H R → List (RadixNode H R)
  collect_prefix_nodes [] n = n ∷ []
  collect_prefix_nodes (seg ∷ segs) n =
      n ∷ collected (find_child (is_static seg) (children_of n)) (collect_prefix_nodes segs)

-- The capture groups under their names, as far as there are both.
unfoldable pub bind_groups : List Bytes → List Bytes → Dict Bytes Bytes → Dict Bytes Bytes
bind_groups [] _ params = params
bind_groups _ [] params = params
bind_groups (name ∷ names) (group ∷ groups) params =
    bind_groups names groups (insert name group params)

pub data MatchType : Type 0 where
  dynamic regular : MatchType

module _ {H R : Type 0} (matches : R → Bytes → Option (List Bytes)) where
  abbrev pub regex_answer :
      NodeRegexRoute H R → HttpMethod → Option (List Bytes) → Option (RouteMatch H)
  regex_answer r m none = none
  regex_answer r m (some groups) =
      Option.map (λ h. record { handler = h; params = bind_groups r.param_names groups [] })
        (lookup m r.handlers)

  -- The loop over the regular routes of one node.
  unfoldable pub match_regex_routes :
      Bytes → HttpMethod → List (NodeRegexRoute H R) → Option (RouteMatch H)
  match_regex_routes path m [] = none
  match_regex_routes path m (r ∷ rs) =
      or_else (regex_answer r m (matches r.regex path)) (match_regex_routes path m rs)

  unfoldable pub match_regex_nodes :
      Bytes → HttpMethod → List (RadixNode H R) → Option (RouteMatch H)
  match_regex_nodes path m [] = none
  match_regex_nodes path m (n ∷ ns) =
      or_else (match_regex_routes path m (regex_routes_of n)) (match_regex_nodes path m ns)

  -- The deepest node of the path first.
  unfoldable pub match_regex_on_path :
      Bytes → HttpMethod → List (RadixNode H R) → Option (RouteMatch H)
  match_regex_on_path path m nodes = match_regex_nodes path m (reverse nodes)

  unfoldable pub find : Bytes → HttpMethod → RadixNode H R → Option (RouteMatch H × MatchType)
  find path m root =
      let segments = split_path path in
      or_else (Option.map (λ r. (r, dynamic)) (match_dynamic segments m root)) (
        Option.map (λ r. (r, regular))
          (match_regex_on_path path m (collect_prefix_nodes segments root)))
