-- ===== src/Http/Router.antt =====
-- zhttp/include/router.h and zhttp/src/router.cc, with `RouteHandlerWrapper` of zhttp/include/radix_tree.h. Handlers
-- and middlewares are user code: they change the request, the response and whatever else they reach, `U`.
pub mod Dispatch
use zhttp.Prelude.{
  ℕ, Bool, true, false, ◌||◌, List, [], ◌∷◌, ◌++◌, Option, none, some, Bytes, codes, bytes_key,
  Dict, lookup, insert, ◌==◌, if◌then◌else◌,
}
use mathlib.Core.Option
use zhttp.Http.Common.{HttpMethod}
use zhttp.Http.Request.{HttpRequest, set_path_param, Params}
use zhttp.Http.Response.{HttpResponse, set_status, set_content_type, set_body}
use zhttp.Http.Middleware.{
  Middleware, MiddlewareChain, empty_chain, add, execute_before, execute_after,
}
use zhttp.Http.Radix.{
  RadixNode, RouteMatch, empty_root, insert_route, is_empty, method_key, or_else,
}
use zhttp.Http.Radix.Find.{MatchType, find, insert_regex}

-- What a handler or a middleware may change.
pub record Exchange (U : Type 0) : Type 0 where
  pub request : HttpRequest
  pub response : HttpResponse
  pub others : U

-- Either field may be an empty pointer.
pub record RouteHandlerWrapper (W : Type 0) : Type 0 where
  pub callback : Option (W → W)
  pub handler : Option (W → W)

abbrev pub call_handler : {W : Type 0} → Option (W → W) → W → W
call_handler none w = w
call_handler (some f) w = f w

abbrev pub call_either : {W : Type 0} → Option (W → W) → Option (W → W) → W → W
call_either none handler w = call_handler handler w
call_either (some f) handler w = f w

unfoldable pub call : {W : Type 0} → RouteHandlerWrapper W → W → W
call f w = call_either f.callback f.handler w

pub record StaticRouteEntry (W : Type 0) : Type 0 where
  pub handlers : Dict HttpMethod (RouteHandlerWrapper W)
  pub middlewares : List (Middleware W)

pub record RouteContext (W : Type 0) : Type 0 where
  pub handler : Option (RouteHandlerWrapper W)
  pub middlewares : List (Middleware W)
  pub params : Params

pub record Router (W R : Type 0) : Type 0 where
  pub static_routes : Dict Bytes (StaticRouteEntry W)
  pub radix_tree : RadixNode (RouteHandlerWrapper W) R
  pub route_middlewares : Dict Bytes (List (Middleware W))
  pub global_middlewares : List (Middleware W)
  pub not_found_handler : RouteHandlerWrapper W

unfoldable pub contains : ℕ → Bytes → Bool
contains c [] = false
contains c (x ∷ s) = (x == c) || contains c s

unfoldable pub is_dynamic_path : Bytes → Bool
is_dynamic_path path = contains b':' path || contains b'*' path

module _ {U : Type 0} where
  unfoldable pub default_404 : Exchange U → Exchange U
  default_404 x = record x {
    response =
        set_body (codes "<html><body><h1>404 Not Found</h1></body></html>")
          (set_content_type (codes "text/html; charset=utf-8") (set_status 404 x.response));
  }

  abbrev pub from_callback : (Exchange U → Exchange U) → RouteHandlerWrapper (Exchange U)
  from_callback f = record { callback = some f; handler = none }

  unfoldable pub new_router : {R : Type 0} → Router (Exchange U) R
  new_router = record {
    static_routes = [];
    radix_tree = empty_root;
    route_middlewares = [];
    global_middlewares = [];
    not_found_handler = from_callback default_404;
  }

module _ {W : Type 0} where
  -- `operator[]` makes an empty entry where there is none.
  abbrev pub entry_or_new : Option (StaticRouteEntry W) → StaticRouteEntry W
  entry_or_new none = record { handlers = []; middlewares = [] }
  entry_or_new (some e) = e

  abbrev pub set_entry :
      HttpMethod → RouteHandlerWrapper W → StaticRouteEntry W → StaticRouteEntry W
  set_entry m h e = record e { handlers = insert m h e.handlers }

  abbrev pub list_or_new : Option (List (Middleware W)) → List (Middleware W)
  list_or_new none = []
  list_or_new (some ms) = ms

  -- The routes that one entry of the hash map has for a method.
  abbrev pub entry_answer : Option (StaticRouteEntry W) → HttpMethod → Option (RouteContext W)
  entry_answer none m = none
  entry_answer (some e) m =
      Option.map (λ h. record { handler = some h; middlewares = e.middlewares; params = [] })
        (lookup m e.handlers)

  abbrev pub tree_context : RouteMatch (RouteHandlerWrapper W) × MatchType → RouteContext W
  tree_context (r, type) = record { handler = some r.handler; middlewares = []; params = r.params }

  abbrev pub nothing_found : RouteContext W
  nothing_found = record { handler = none; middlewares = []; params = [] }

  abbrev pub context_or : Option (RouteContext W) → RouteContext W → RouteContext W
  context_or none c = c
  context_or (some c) _ = c

  abbrev pub add_all : List (Middleware W) → MiddlewareChain W → MiddlewareChain W
  add_all [] c = c
  add_all (m ∷ ms) c = add_all ms (add (some m) c)

  abbrev pub chosen : Option (RouteHandlerWrapper W) → RouteHandlerWrapper W → RouteHandlerWrapper W
  chosen none not_found = not_found
  chosen (some h) not_found = h

  abbrev pub is_found : Option (RouteHandlerWrapper W) → Bool
  is_found none = false
  is_found (some h) = true

module _ {W R : Type 0} where
  unfoldable pub add_route_internal :
      HttpMethod → Bytes → RouteHandlerWrapper W → Router W R → Router W R
  add_route_internal m path h r =
      if is_dynamic_path path
      then record r { radix_tree = insert_route m path h r.radix_tree }
      else record r {
        static_routes =
            insert path (set_entry m h (entry_or_new (lookup path r.static_routes)))
              r.static_routes;
      }

  unfoldable pub add_regex_route_internal :
      (Bytes → Option R)
      → HttpMethod
      → Bytes
      → List Bytes
      → RouteHandlerWrapper W
      → Router W R
      → Router W R
  add_regex_route_internal compile m pattern names h r = record r {
    radix_tree = insert_regex compile m pattern names h r.radix_tree;
  }

  -- `use`; a null pointer is not kept.
  unfoldable pub use_global : Option (Middleware W) → Router W R → Router W R
  use_global none r = r
  use_global (some m) r = record r { global_middlewares = r.global_middlewares ++ (m ∷ []) }

  unfoldable pub use_at : Bytes → Option (Middleware W) → Router W R → Router W R
  use_at path none r = r
  use_at path (some m) r = record r {
    route_middlewares =
        insert path (list_or_new (lookup path r.route_middlewares) ++ (m ∷ [])) r.route_middlewares;
  }

  unfoldable pub set_not_found_handler : RouteHandlerWrapper W → Router W R → Router W R
  set_not_found_handler h r = record r { not_found_handler = h }

  -- The hash map first, then the tree.
  unfoldable pub find_route :
      (R → Bytes → Option (List Bytes)) → Bytes → HttpMethod → Router W R → RouteContext W
  find_route matches path m r =
      context_or (entry_answer (lookup path r.static_routes) m)
        (context_or (Option.map tree_context (find matches path m r.radix_tree)) nothing_found)

unfoldable pub set_path_params : Params → HttpRequest → HttpRequest
set_path_params [] q = q
set_path_params ((key, value) ∷ more) q = set_path_params more (set_path_param key value q)

module _ {U R : Type 0} (matches : R → Bytes → Option (List Bytes)) where
  abbrev pub with_params : Params → Exchange U → Exchange U
  with_params params x = record x { request = set_path_params params x.request }

  -- The chain that `route` builds: global, for the path, of the route.
  unfoldable pub chain_of :
      Router (Exchange U) R → RouteContext (Exchange U) → Bytes → MiddlewareChain (Exchange U)
  chain_of r ctx path = add_all ctx.middlewares (
      add_all (list_or_new (lookup path r.route_middlewares))
        (add_all r.global_middlewares empty_chain))

  unfoldable pub route : Router (Exchange U) R → Exchange U → Bool × Exchange U
  route r x =
      let ctx = find_route matches x.request.path x.request.method r in
      let x' = with_params ctx.params x in
      let chain = chain_of r ctx x'.request.path in
      let (should_continue, chain', x'') = execute_before chain x' in
      let handled = call (chosen ctx.handler r.not_found_handler) x'' in
      (is_found ctx.handler, execute_after chain' (if should_continue then handled else x''))
