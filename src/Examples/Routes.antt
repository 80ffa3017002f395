-- ===== src/Examples/Routes.antt =====
-- Routes, routers and middlewares at concrete inputs.
use zhttp.Prelude.{
  ℕ, suc, ◌+◌, ◌≡◌, ◌≢◌, refl, true, false, List, [], ◌∷◌, ◌++◌, Option, none, some, Bytes, codes,
  inl, inr, if◌then◌else◌, ◌&&◌, bytes_eq, bytes_key, lookup, insert,
}
use zhttp.Http.Common.{HttpMethod, get}
use zhttp.Http.Radix.{
  RadixNode, empty_root, insert_at, set_handler, match_dynamic, split_path, segments_of,
  insert_route, parse_segment, RouteMatch, find_child, upsert, add_child, update_child, method_eq,
  method_number, method_key, new_node, static, param, RadixNodes, nil, cons,
}
use zhttp.Http.Radix.Changes.{Changed}
use zhttp.Http.Radix.Insertion.{Reason, insert_at-Changed}
use zhttp.Http.Radix.Registry.{
  Route, registered, ServedBy, IsServed, match_dynamic-registered, registered-IsServed,
}
use zhttp.Http.Radix.Find.{insert_regex}
use zhttp.Http.Radix.Priority.{insert_regex-match_dynamic}
use zhttp.Http.Middleware.{Middleware, MiddlewareChain}
use zhttp.Http.Middleware.Onion.{run_chain, onion, run_chain-onion}
use zhttp.Http.Request.{new_request}
use zhttp.Http.Response.{new_response}
use zhttp.Http.Router.{
  Exchange, Router, RouteHandlerWrapper, new_router, add_route_internal, find_route, route,
  is_dynamic_path, from_callback, is_found, call, chosen, with_params, list_or_new, entry_or_new,
  contains,
}
use zhttp.Http.Router.Dispatch.{add_route_internal-static, route-onion}

abbrev user_route : Route ℕ
user_route = record { method = get; pattern = codes "/u/:id"; handler = 1 }

abbrev files_route : Route ℕ
files_route = record { method = get; pattern = codes "/f/*rest"; handler = 2 }

abbrev two_routes : List (Route ℕ)
two_routes = files_route ∷ (user_route ∷ [])

abbrev user_path : Bytes
user_path = codes "/u/7"

abbrev user_match : RouteMatch ℕ
user_match = record { handler = 1; params = (codes "id", codes "7") ∷ [] }

insert_at-Changed_example :
    Changed
      (Reason get get (codes "u" ∷ (codes ":id" ∷ [])) (codes "u" ∷ (codes "7" ∷ [])))
      1
      (match_dynamic (codes "u" ∷ (codes "7" ∷ [])) get (empty_root {H = ℕ} {R = ℕ}))
      (match_dynamic (codes "u" ∷ (codes "7" ∷ [])) get (
        insert_at
          (codes "u" ∷ (codes ":id" ∷ []))
          (set_handler get 1)
          (empty_root {H = ℕ} {R = ℕ})))
insert_at-Changed_example =
    insert_at-Changed get get 1 (codes "u" ∷ (codes ":id" ∷ [])) (codes "u" ∷ (codes "7" ∷ []))
      (empty_root {H = ℕ} {R = ℕ})

user_found :
    match_dynamic (split_path user_path) get (registered {R = ℕ} two_routes) ≡ some user_match
unfolding match_dynamic split_path segments_of insert_route insert_at parse_segment upsert
    find_child add_child update_child lookup method_eq method_number bytes_eq insert
user_found = refl

match_dynamic-registered_example : ServedBy user_path get 1 two_routes
match_dynamic-registered_example =
    match_dynamic-registered ℕ two_routes user_path get user_match user_found

user-IsServed : IsServed user_path get two_routes
unfolding split_path segments_of parse_segment
user-IsServed = inr (inl ((refl, tt), refl))

registered-IsServed_example :
    match_dynamic (split_path user_path) get (registered {R = ℕ} two_routes) ≢ none
registered-IsServed_example = registered-IsServed ℕ two_routes user_path get user-IsServed

abbrev plain_child : RadixNode ℕ ℕ
plain_child = new_node (codes "a") static []

abbrev one_child : RadixNodes ℕ ℕ
one_child = cons (new_node (codes ":id") param (codes "id")) nil

abbrev compile_length : Bytes → Option ℕ
compile_length s = some 3

insert_regex-match_dynamic_example :
    match_dynamic (split_path user_path) get (
      insert_regex compile_length get
        (codes "/u/([0-9]+)")
        (codes "id" ∷ [])
        5
        (registered {R = ℕ} two_routes))
    ≡ match_dynamic (split_path user_path) get (registered {R = ℕ} two_routes)
insert_regex-match_dynamic_example =
    insert_regex-match_dynamic compile_length get get (codes "/u/([0-9]+)") (codes "id" ∷ []) 5
      (split_path user_path) (registered two_routes)

-- A middleware that counts and one that refuses.
abbrev counting : Middleware ℕ
counting = record { before = λ w. (true, suc w); after = λ w. w + 10 }

abbrev refusing : Middleware ℕ
refusing = record { before = λ w. (false, w); after = λ w. w + 100 }

abbrev two_layers : MiddlewareChain ℕ
two_layers = record { middlewares = counting ∷ (refusing ∷ []); executed_count = 0 }

run_chain-onion_example : run_chain two_layers suc 0 ≡ onion (counting ∷ (refusing ∷ [])) suc 0
run_chain-onion_example = run_chain-onion two_layers suc 0

abbrev keep_exchange : RouteHandlerWrapper (Exchange ℕ)
keep_exchange = from_callback (λ x. x)

abbrev no_regex : ℕ → Bytes → Option (List Bytes)
no_regex r s = none

abbrev first_router : Router (Exchange ℕ) ℕ
first_router = new_router

home_static : is_dynamic_path (codes "/home") ≡ false
unfolding is_dynamic_path contains
home_static = refl

add_route_internal-static_example :
    find_route no_regex
      (codes "/home")
      get
      (add_route_internal get (codes "/home") keep_exchange first_router)
    ≡ (if bytes_eq (codes "/home") (codes "/home") && method_eq get get
        then record {
          handler = some keep_exchange;
          middlewares =
              (entry_or_new (lookup (codes "/home") first_router.static_routes)).middlewares;
          params = [];
        }
        else find_route no_regex (codes "/home") get first_router)
add_route_internal-static_example =
    add_route_internal-static no_regex first_router keep_exchange (codes "/home") (codes "/home")
      get get home_static

abbrev first_exchange : Exchange ℕ
first_exchange = record {
  request = new_request (λ ps. ps);
  response = new_response (λ ps. ps);
  others = 0;
}

route-onion_example : route no_regex first_router first_exchange ≡ (
  is_found (find_route no_regex [] HttpMethod.unknown first_router).handler,
  onion
      (first_router.global_middlewares
        ++ (list_or_new (lookup [] first_router.route_middlewares)
            ++ (find_route no_regex [] HttpMethod.unknown first_router).middlewares))
      (call (
        chosen
          (find_route no_regex [] HttpMethod.unknown first_router).handler
          first_router.not_found_handler))
      (with_params no_regex
        (find_route no_regex [] HttpMethod.unknown first_router).params
        first_exchange),
)
route-onion_example = route-onion no_regex first_router first_exchange
