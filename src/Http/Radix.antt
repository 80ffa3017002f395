-- ===== src/Http/Radix.antt =====
-- zhttp/include/radix_tree.h and zhttp/src/radix_tree.cc. A node is a value: the code changes the tree in
-- place along one path from the root, and here the nodes of that path are rebuilt. `H` is the type of
-- handlers, `R` that of compiled regular expressions, which the library `std::regex` supplies.
pub mod Children
pub mod Changes
pub mod Insertion
pub mod Registry
pub mod Find
pub mod Priority
use zhttp.Prelude.{
  ℕ, zero, suc, ◌≡◌, refl, ap, ◌∙◌, sym, ◌↔◌, Bool, true, false, ◌&&◌, ◌||◌, List, [], ◌∷◌, ◌++◌,
  Option, none, some, Bytes, bytes_eq, bytes_key, Eq, Dict, lookup, insert, ltb, ◌==◌, ==_iff,
  if◌then◌else◌, arith, reverse, codes,
}
use mathlib.Core.Option
use zhttp.Http.Common.{HttpMethod, get, post, put, delete, head, options, patch, connect, trace}

pub data NodeType : Type 0 where
  static param catch_all : NodeType

abbrev pub type_rank : NodeType → ℕ
type_rank static = 0
type_rank param = 1
type_rank catch_all = 2

abbrev pub is_type : NodeType → NodeType → Bool
is_type static static = true
is_type param param = true
is_type catch_all catch_all = true
is_type _ _ = false

-- The keys of `handlers_`: methods, compared by their numbers.
unfoldable pub method_number : HttpMethod → ℕ
method_number get = 0
method_number post = 1
method_number put = 2
method_number delete = 3
method_number head = 4
method_number options = 5
method_number patch = 6
method_number connect = 7
method_number trace = 8
method_number HttpMethod.unknown = 9

numbered : ℕ → HttpMethod
numbered zero = get
numbered (suc zero) = post
numbered (suc (suc zero)) = put
numbered (suc (suc (suc zero))) = delete
numbered (suc (suc (suc (suc zero)))) = head
numbered (suc (suc (suc (suc (suc zero))))) = options
numbered (suc (suc (suc (suc (suc (suc zero)))))) = patch
numbered (suc (suc (suc (suc (suc (suc (suc zero))))))) = connect
numbered (suc (suc (suc (suc (suc (suc (suc (suc zero)))))))) = trace
numbered _ = HttpMethod.unknown

numbered-method_number : (m : HttpMethod) → numbered (method_number m) ≡ m
unfolding numbered method_number
numbered-method_number get = refl
numbered-method_number _ = refl

unfoldable pub method_eq : HttpMethod → HttpMethod → Bool
unfolding method_number
method_eq a b = method_number a == method_number b

pub method_eq_iff : (a b : HttpMethod) → (method_eq a b ≡ true) ↔ (a ≡ b)
unfolding method_eq
method_eq_iff a b = (
  λ h.
      sym (numbered-method_number a)
      ∙ (ap numbered ((==_iff (method_number a) (method_number b)).0 h) ∙ numbered-method_number b),
  λ e. (==_iff (method_number a) (method_number b)).1 (ap method_number e),
)

instance abbrev pub method_key : Eq HttpMethod
method_key = record { beq = method_eq; beq_iff = method_eq_iff }

-- A regular route hung on a node; its `regex` was compiled from `pattern`.
pub record NodeRegexRoute (H R : Type 0) : Type 0 where
  pub regex : R
  pub pattern : Bytes
  pub param_names : List Bytes
  pub handlers : Dict HttpMethod H

mutual
  pub data RadixNode (H R : Type 0) : Type 0 where
    node :
        (path : Bytes) (type : NodeType) (param_name : Bytes) (children : RadixNodes H R)
        (handlers : Dict HttpMethod H) (regex_routes : List (NodeRegexRoute H R))
        → RadixNode H R

  pub data RadixNodes (H R : Type 0) : Type 0 where
    nil : RadixNodes H R
    cons : RadixNode H R → RadixNodes H R → RadixNodes H R

module _ {H R : Type 0} where
  abbrev pub path_of : RadixNode H R → Bytes
  path_of (node path type name cs hs rs) = path

  abbrev pub type_of : RadixNode H R → NodeType
  type_of (node path type name cs hs rs) = type

  abbrev pub param_name_of : RadixNode H R → Bytes
  param_name_of (node path type name cs hs rs) = name

  abbrev pub children_of : RadixNode H R → RadixNodes H R
  children_of (node path type name cs hs rs) = cs

  abbrev pub handlers_of : RadixNode H R → Dict HttpMethod H
  handlers_of (node path type name cs hs rs) = hs

  abbrev pub regex_routes_of : RadixNode H R → List (NodeRegexRoute H R)
  regex_routes_of (node path type name cs hs rs) = rs

  abbrev pub with_children : RadixNodes H R → RadixNode H R → RadixNode H R
  with_children cs (node path type name _ hs rs) = node path type name cs hs rs

  -- `handlers_[method] = handler` at a node.
  abbrev pub set_handler : HttpMethod → H → RadixNode H R → RadixNode H R
  set_handler m h (node path type name cs hs rs) = node path type name cs (insert m h hs) rs

  -- `std::lower_bound` by the node type: before the first child whose type is not smaller.
  unfoldable pub add_child : RadixNode H R → RadixNodes H R → RadixNodes H R
  add_child new nil = cons new nil
  add_child new (cons c cs) =
      if ltb (type_rank (type_of c)) (type_rank (type_of new))
      then cons c (add_child new cs)
      else cons new (cons c cs)

  unfoldable pub find_child : (RadixNode H R → Bool) → RadixNodes H R → Option (RadixNode H R)
  find_child p nil = none
  find_child p (cons c cs) = if p c then some c else find_child p cs

  -- What changes through the pointer that `find_child` returned.
  unfoldable pub update_child :
      (RadixNode H R → Bool) → (RadixNode H R → RadixNode H R) → RadixNodes H R → RadixNodes H R
  update_child p f nil = nil
  update_child p f (cons c cs) = if p c then cons (f c) cs else cons c (update_child p f cs)

  -- The tests of `find_static_child`, `find_param_child` and `find_catch_all_child`.
  abbrev pub is_static : Bytes → RadixNode H R → Bool
  is_static seg c = is_type static (type_of c) && bytes_eq (path_of c) seg

  abbrev pub is_param : RadixNode H R → Bool
  is_param c = is_type param (type_of c)

  abbrev pub is_catch_all : RadixNode H R → Bool
  is_catch_all c = is_type catch_all (type_of c)

-- A child that the pointer test finds is changed; otherwise a new one is added and changed.
module _ {H R : Type 0} where
  abbrev pub change_or_add :
      Option (RadixNode H R)
      → (RadixNode H R → Bool)
      → RadixNode H R
      → (RadixNode H R → RadixNode H R)
      → RadixNodes H R
      → RadixNodes H R
  change_or_add none p new f cs = add_child (f new) cs
  change_or_add (some c) p new f cs = update_child p f cs

  unfoldable pub upsert :
      (RadixNode H R → Bool)
      → RadixNode H R
      → (RadixNode H R → RadixNode H R)
      → RadixNodes H R
      → RadixNodes H R
  upsert p new f cs = change_or_add (find_child p cs) p new f cs

  abbrev pub new_node : Bytes → NodeType → Bytes → RadixNode H R
  new_node path type name = node path type name nil [] []

  abbrev pub empty_root : RadixNode H R
  empty_root = new_node [] static []

-- The first segment and the others, with empty ones left out of the others.
abbrev pub keep : Bytes → List Bytes → List Bytes
keep [] more = more
keep (c ∷ s) more = (c ∷ s) ∷ more

abbrev pub add_byte : ℕ → Bytes × List Bytes → Bytes × List Bytes
add_byte c (seg, more) = if c == b'/' then ([], keep seg more) else (c ∷ seg, more)

unfoldable pub segments_of : Bytes → Bytes × List Bytes
segments_of [] = ([], [])
segments_of (c ∷ s) = add_byte c (segments_of s)

unfoldable pub split_path : Bytes → List Bytes
split_path path = keep (segments_of path).0 (segments_of path).1

unfoldable pub parse_segment : Bytes → NodeType × Bytes
parse_segment [] = (static, [])
parse_segment (c ∷ s) =
    if c == b':' then (param, s) else if c == b'*' then (catch_all, s) else (static, c ∷ s)

module _ {H R : Type 0} where
  -- The child that `insert` looks for under a segment, and the one that it makes.
  abbrev pub wanted : NodeType → Bytes → RadixNode H R → Bool
  wanted static seg = is_static seg
  wanted param seg = is_param
  wanted catch_all seg = is_catch_all

  abbrev pub made : NodeType × Bytes → Bytes → RadixNode H R
  made (static, name) seg = new_node seg static []
  made (type, name) seg = new_node seg type name

  -- The loop of `insert` over the segments, ending with a change at the last node.
  unfoldable pub insert_at :
      List Bytes → (RadixNode H R → RadixNode H R) → RadixNode H R → RadixNode H R
  insert_at [] f n = f n
  insert_at (seg ∷ segs) f n =
      with_children
        (upsert (wanted (parse_segment seg).0 seg) (made (parse_segment seg) seg) (insert_at segs f)
          (children_of n))
        n

  unfoldable pub insert_route : HttpMethod → Bytes → H → RadixNode H R → RadixNode H R
  insert_route m path h root = insert_at (split_path path) (set_handler m h) root

-- A match: the handler and the parameters that the code writes to its context.
pub record RouteMatch (H : Type 0) : Type 0 where
  pub handler : H
  pub params : Dict Bytes Bytes

abbrev pub or_else {ℓ} : {A : Type ℓ} → Option A → Option A → Option A
or_else none b = b
or_else (some a) b = some a

abbrev pub from_child :
    {H R A : Type 0} → Option (RadixNode H R) → (RadixNode H R → Option A) → Option A
from_child none f = none
from_child (some c) f = f c

abbrev pub is_empty {ℓ} : {A : Type ℓ} → List A → Bool
is_empty [] = true
is_empty (x ∷ xs) = false

-- The loop that joins the segments from here on into `remaining`.
unfoldable pub remaining_from : Bytes → List Bytes → Bytes
remaining_from remaining [] = remaining
remaining_from remaining (s ∷ ss) =
    remaining_from ((if is_empty remaining then [] else remaining ++ (b'/' ∷ [])) ++ s) ss

module _ {H : Type 0} where
  abbrev pub plain_match : H → RouteMatch H
  plain_match h = record { handler = h; params = [] }

  abbrev pub bind_param : Bytes → Bytes → RouteMatch H → RouteMatch H
  bind_param name value r = record r { params = insert name value r.params }

module _ {H R : Type 0} where
  abbrev pub leaf_match : RadixNode H R → HttpMethod → Option (RouteMatch H)
  leaf_match n m =
      if is_empty (handlers_of n) then none else Option.map plain_match (lookup m (handlers_of n))

  -- The catch-all child answers with the rest of the path, under its name if it has one.
  abbrev pub catch_match : RadixNode H R → Bytes → HttpMethod → Option (RouteMatch H)
  catch_match c rest m =
      Option.map
        (λ h.
          if is_empty (param_name_of c)
          then plain_match h
          else bind_param (param_name_of c) rest (plain_match h))
        (lookup m (handlers_of c))

  -- `match_dynamic`; `none` is the result `false`, which leaves the context as it was.
  unfoldable pub match_dynamic : List Bytes → HttpMethod → RadixNode H R → Option (RouteMatch H)
  match_dynamic [] m n = leaf_match n m
  match_dynamic (seg ∷ segs) m n =
      let by_static =
        from_child (find_child (is_static seg) (children_of n)) (match_dynamic segs m) in
      let by_param =
        from_child (find_child is_param (children_of n))
          (λ c. Option.map (bind_param (param_name_of c) seg) (match_dynamic segs m c)) in
      let by_catch =
        from_child (find_child is_catch_all (children_of n))
          (λ c. catch_match c (remaining_from [] (seg ∷ segs)) m) in
      or_else by_static (or_else by_param by_catch)
