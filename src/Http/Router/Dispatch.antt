-- ===== src/Http/Router/Dispatch.antt =====
-- What registering does to the search, and the order in which a request passes middlewares and handler.
use zhttp.Prelude.{
  ◌≡◌, refl, ap, sym, ◌∙◌, false, ◌&&◌, List, [], ◌∷◌, ◌++◌, append-nil, append_assoc, Option, none,
  some, Bytes, bytes_key, bytes_eq, bytes_eq_iff, lookup, lookup-insert, if◌then◌else◌, Bool-cases,
  inl, inr,
}
use mathlib.Core.Option
use zhttp.Http.Common.{HttpMethod}
use zhttp.Http.Request.{HttpRequest, set_path_param, Params}
use zhttp.Http.Middleware.{Middleware, MiddlewareChain, empty_chain, add}
use zhttp.Http.Middleware.Onion.{run_chain, onion, run_chain-onion}
use zhttp.Http.Radix.{method_key, method_eq}
use zhttp.Http.Radix.Find.{find}
use zhttp.Http.Router.{
  Exchange, Router, RouteHandlerWrapper, RouteContext, StaticRouteEntry, call, is_dynamic_path,
  add_route_internal, find_route, route, chain_of, add_all, with_params, set_path_params,
  list_or_new, entry_or_new, set_entry, entry_answer, context_or, tree_context, nothing_found,
  chosen, is_found,
}

entry_answer-entry_or_new :
    {W : Type 0} (o : Option (StaticRouteEntry W)) (m : HttpMethod)
    → entry_answer (some (entry_or_new o)) m ≡ entry_answer o m
entry_answer-entry_or_new none m = (unfold lookup in refl)
entry_answer-entry_or_new (some e) m = refl

-- A registered static route answers exactly its own path and method, with the middlewares of its entry
-- and no parameters; every other search has the result that it had.
pub add_route_internal-static :
    {W R : Type 0} (matches : R → Bytes → Option (List Bytes)) (r : Router W R)
    (h : RouteHandlerWrapper W) (path path' : Bytes) (m m' : HttpMethod)
    → is_dynamic_path path ≡ false
    → find_route matches path' m' (add_route_internal m path h r) ≡ (
        if bytes_eq path path' && method_eq m m'
        then record {
          handler = some h;
          middlewares = (entry_or_new (lookup path r.static_routes)).middlewares;
          params = [];
        }
        else find_route matches path' m' r)
unfolding find_route add_route_internal
add_route_internal-static matches r h path path' m m' e =
    let old = entry_or_new (lookup path r.static_routes) in
    rw (e, lookup-insert path path' (set_entry m h old) r.static_routes)
      (elim (Bool-cases (bytes_eq path path')) [
        | inl same ↦
            let e' : path' ≡ path = sym ((bytes_eq_iff path path').0 same) in
            rw same (
              rw e' (
                rw (lookup-insert m m' h old.handlers) (elim (Bool-cases (method_eq m m')) [
                  | inl hit ↦ rw hit refl
                  | inr miss ↦ rw miss (
                      ap
                        (λ a. context_or a (
                          context_or (Option.map tree_context (find matches path m' r.radix_tree))
                            nothing_found))
                        (entry_answer-entry_or_new (lookup path r.static_routes) m'))
                ])))
        | inr other ↦ rw other refl
      ])

module _ {W : Type 0} where
  add_all_lem :
      (ms : List (Middleware W)) (c : MiddlewareChain W)
      → (add_all ms c).middlewares ≡ c.middlewares ++ ms
  unfolding add
  add_all_lem [] c = sym (append-nil c.middlewares)
  add_all_lem (m ∷ ms) c = add_all_lem ms (add (some m) c) ∙ append_assoc c.middlewares (m ∷ []) ms

chain_of_lem :
    {U R : Type 0} (matches : R → Bytes → Option (List Bytes)) (r : Router (Exchange U) R)
    (ctx : RouteContext (Exchange U)) (path : Bytes)
    → (chain_of matches r ctx path).middlewares
      ≡ r.global_middlewares ++ (list_or_new (lookup path r.route_middlewares) ++ ctx.middlewares)
unfolding chain_of
chain_of_lem matches r ctx path =
    let at_path = list_or_new (lookup path r.route_middlewares) in
    add_all_lem ctx.middlewares (add_all at_path (add_all r.global_middlewares empty_chain))
    ∙ (ap (λ ms. ms ++ ctx.middlewares)
          (add_all_lem at_path (add_all r.global_middlewares empty_chain)
            ∙ ap (λ ms. ms ++ at_path) (add_all_lem r.global_middlewares empty_chain))
        ∙ append_assoc r.global_middlewares at_path ctx.middlewares)

set_path_params-path :
    (params : Params) (q : HttpRequest) → (set_path_params params q).path ≡ q.path
unfolding set_path_params set_path_param
set_path_params-path [] q = refl
set_path_params-path ((k, v) ∷ more) q = set_path_params-path more (set_path_param k v q)

-- A request gets the parameters of the route found for it and then passes the global middlewares, those
-- of its path and those of the route, as layers around the handler of the route, or around the
-- handler for unknown routes; the result says which.
pub route-onion :
    {U R : Type 0} (matches : R → Bytes → Option (List Bytes)) (r : Router (Exchange U) R)
    (x : Exchange U)
    → route matches r x ≡ (
        let ctx = find_route matches x.request.path x.request.method r in
        (
          is_found ctx.handler,
          onion
              (r.global_middlewares
                ++ (list_or_new (lookup x.request.path r.route_middlewares) ++ ctx.middlewares))
              (call (chosen ctx.handler r.not_found_handler))
              (with_params matches ctx.params x),
        ))
unfolding route run_chain chain_of
route-onion matches r x =
    let ctx = find_route matches x.request.path x.request.method r in
    let x' = with_params matches ctx.params x in
    let handle = call (chosen ctx.handler r.not_found_handler) in
    ap (λ y. (is_found ctx.handler, y))
      (run_chain-onion (chain_of matches r ctx x'.request.path) handle x'
        ∙ ap (λ ms. onion ms handle x')
            (ap (λ p. (chain_of matches r ctx p).middlewares)
                (set_path_params-path ctx.params x.request)
              ∙ chain_of_lem matches r ctx x.request.path))
