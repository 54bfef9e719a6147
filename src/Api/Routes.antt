-- ===== src/Api/Routes.antt =====
-- The routes and the CORS headers of internal/api/server.go, and the pages of openapi.go. The path of
-- a request is clean: http.ServeMux answers any other by a redirect to the clean one.
pub mod Answers
pub mod Legacy
use koinos_token_tracker.Base.{
  Bool, true, false, Option, none, some, List, [], ◌∷◌, ◌++◌, if◌then◌else◌, length, ltb, filter, ℕ,
  ◌&&◌, ◌==◌,
}
use koinos_token_tracker.Base.Table.{find}
use koinos_token_tracker.Base.Text.{Text, codes, text_eq, has_prefix, has_suffix}
use koinos_token_tracker.Store.Types.{Store}
use koinos_token_tracker.Api.{
  Request, Body, spec_page, docs_page, explorer_page, not_found_page, moved_to, no_body, Handler,
  respond,
}
use koinos_token_tracker.Api.Handlers.{
  handle_status, handle_stats, handle_addresses, handle_address, handle_holders, handle_blocks,
  handle_producers, handle_tokens, handle_transfers,
}

abbrev pub handle_open_api : Request → Handler
handle_open_api r = respond 200 spec_page

abbrev pub handle_docs : Request → Handler
handle_docs r = respond 200 docs_page

unfoldable pub handle_root : Request → Handler
unfolding text_eq
handle_root r =
    if text_eq r.path (codes "/") then respond 200 explorer_page else respond 404 not_found_page

-- A pattern and its handler.
abbrev pub Route : Type 0
Route = Text × (Request → Handler)

abbrev pub routes_at : Text → List Route → List Route
routes_at p rest =
    (p ++ codes "/status", handle_status)
    ∷ (p ++ codes "/stats", handle_stats)
    ∷ (p ++ codes "/addresses", handle_addresses)
    ∷ (p ++ codes "/address/", handle_address)
    ∷ (p ++ codes "/holders/", handle_holders)
    ∷ (p ++ codes "/blocks", handle_blocks)
    ∷ (p ++ codes "/producers", handle_producers)
    ∷ (p ++ codes "/tokens", handle_tokens)
    ∷ (p ++ codes "/transfers/", handle_transfers)
    ∷ rest

abbrev pub prefix : Text
prefix = codes "/v1/token-tracker"

abbrev pub legacy_prefix : Text
legacy_prefix = codes "/v1/indexer"

abbrev pub pages : List Route
pages =
    (codes "/openapi.json", handle_open_api)
    ∷ (codes "/docs", handle_docs)
    ∷ (codes "/", handle_root)
    ∷ []

abbrev pub routes : List Route
routes = routes_at prefix (routes_at legacy_prefix pages)

-- http.ServeMux: the pattern that is the path; else a redirect to the path and a slash, if that is
-- a pattern; else the longest pattern that ends in a slash and begins the path.
abbrev pub is_above : Text → Route → Bool
is_above path route = has_suffix route.0 (codes "/") && has_prefix path route.0

abbrev pub longer : Route → Option Route → Option Route
longer route none = some route
longer route (some best) = if ltb (length best.0) (length route.0) then some route else some best

abbrev pub longest : List Route → Option Route
longest [] = none
longest (route ∷ rest) = longer route (longest rest)

abbrev pub run_route : Request → Option Route → Handler
run_route r none = respond 404 not_found_page
run_route r (some route) = route.1 r

abbrev pub not_exact : Request → Option Route → Handler
not_exact r (some _) = respond 301 (moved_to (r.path ++ codes "/") r.raw_query)
not_exact r none = run_route r (longest (filter (is_above r.path) routes))

abbrev pub found : Request → Option Route → Handler
found r (some route) = route.1 r
found r none = not_exact r (find (λ route. text_eq route.0 (r.path ++ codes "/")) routes)

unfoldable pub serve_mux : Request → Handler
unfolding find text_eq has_prefix has_suffix handle_root
serve_mux r = found r (find (λ route. text_eq route.0 r.path) routes)

abbrev pub cors_headers : List (Text × Text)
cors_headers =
    (codes "Access-Control-Allow-Origin", codes "*")
    ∷ (codes "Access-Control-Allow-Methods", codes "GET, OPTIONS")
    ∷ (codes "Access-Control-Allow-Headers", codes "Content-Type")
    ∷ []

-- The headers that are set first, and the answer with the store after it.
pub record Served : Type 0 where
  pub headers : List (Text × Text)
  pub outcome : Option (ℕ × Body) × Store

abbrev pub with_cors : Request → Handler → Store → Served
with_cors r next s = record {
  headers = cors_headers;
  outcome = (if text_eq r.method (codes "OPTIONS") then respond 200 no_body else next) s;
}

-- corsMiddleware around the routes.
unfoldable pub serve : Request → Store → Served
unfolding serve_mux text_eq
serve r = with_cors r (serve_mux r)
