-- ===== src/Api/Routes/Answers.antt =====
-- Every request gets an answer, whichever route takes it.
use koinos_token_tracker.Base.{
  Bool, Option, none, some, List, [], ◌∷◌, ◌++◌, All, All-filter, map, Bool-cases, inl, inr, length,
  ltb,
}
use koinos_token_tracker.Base.Table.{find}
use koinos_token_tracker.Base.Text.{Text, codes, text_eq}
use koinos_token_tracker.Store.Types.{Address, Store}
use koinos_token_tracker.Store.Action.{Action}
use koinos_token_tracker.Store.Reads.{
  get_sync_state, get_address, get_balances, get_stats, get_all_tokens, list_backfills,
}
use koinos_token_tracker.Store.Producers.{get_producers}
use koinos_token_tracker.Api.{
  Request, extract_path_param, status_body, stats_body, address_body, tokens_body, producers_body,
  spec_page, docs_page, explorer_page, not_found_page, moved_to, no_body, Handler, respond, ask,
}
use koinos_token_tracker.Api.Handlers.{
  handle_status, handle_stats, handle_address, with_address, handle_tokens, tokens_out,
  handle_producers,
}
use koinos_token_tracker.Api.ReadOnly.{
  ServedAt, Serves, Serves-respond, Serves-refuse, Serves-if, Serves-with_param,
}
use koinos_token_tracker.Api.Fetched.{Anything, get_sync_state-GetsAt}
use koinos_token_tracker.Api.Bounded.{
  ask-ServedAt, only_get-Serves, handle_addresses-Serves, handle_holders-Serves,
  handle_blocks-Serves, handle_transfers-Serves,
}
use koinos_token_tracker.Api.Gets.{
  Reads, get_address-Reads, get_balances-Reads, get_all_tokens-Reads, list_backfills-Reads,
  get_stats-Reads, get_producers-Reads,
}
use koinos_token_tracker.Api.Routes.{
  handle_root, Route, prefix, legacy_prefix, routes_at, pages, routes, is_above, longer, longest,
  run_route, not_exact, found, serve_mux, serve,
}

ask-Serves :
    {A : Type 0} (m : Action A) (k : A → Handler)
    → Reads m
    → ((a : A) → Serves (k a))
    → Serves (ask m k)
ask-Serves m k h hk = record { at = λ s. ask-ServedAt Anything m k s (h.at s) (λ a _. hk a) }

get_sync_state-Reads : Reads get_sync_state
get_sync_state-Reads = record { at = get_sync_state-GetsAt }

handle_status-Serves : (r : Request) → Serves (handle_status r)
unfolding handle_status
handle_status-Serves r = only_get-Serves r _ (
    ask-Serves get_sync_state _ get_sync_state-Reads λ state.
      ask-Serves get_stats _ get_stats-Reads
        λ stats. Serves-respond 200 (status_body state.0 state.1 stats) tt)

handle_stats-Serves : (r : Request) → Serves (handle_stats r)
unfolding handle_stats
handle_stats-Serves r = only_get-Serves r _ (
    ask-Serves get_stats _ get_stats-Reads λ stats.
      ask-Serves get_all_tokens _ get_all_tokens-Reads
        λ tokens. Serves-respond 200 (stats_body stats tokens) tt)

with_address-Serves : (a : Text) (o : Option Address) → Serves (with_address a o)
with_address-Serves a none = Serves-refuse 404 "address not found"
with_address-Serves a (some x) =
    ask-Serves (get_balances a) _ (get_balances-Reads a)
      λ rows. Serves-respond 200 (address_body x (map (λ b. (b.token, b.balance)) rows)) tt

handle_address-Serves : (r : Request) → Serves (handle_address r)
unfolding handle_address
handle_address-Serves r =
    let send : Text → Handler = λ a. ask (get_address a) (with_address a) in
    only_get-Serves r _ (
      Serves-with_param {k = send} "invalid address" (extract_path_param r 4) λ a.
        ask-Serves (get_address a) (with_address a) (get_address-Reads a) (with_address-Serves a))

handle_tokens-Serves : (r : Request) → Serves (handle_tokens r)
unfolding handle_tokens
handle_tokens-Serves r = only_get-Serves r _ (
    ask-Serves get_all_tokens _ get_all_tokens-Reads λ tokens.
      ask-Serves list_backfills _ list_backfills-Reads
        λ backfills. Serves-respond 200 (tokens_body (tokens_out backfills tokens)) tt)

handle_producers-Serves : (r : Request) → Serves (handle_producers r)
unfolding handle_producers
handle_producers-Serves r = only_get-Serves r _ (
    ask-Serves (get_producers 28800) _ (get_producers-Reads 28800)
      λ x. Serves-respond 200 (producers_body x.0 x.1) tt)

handle_root-Serves : (r : Request) → Serves (handle_root r)
unfolding handle_root
handle_root-Serves r =
    Serves-if (text_eq r.path (codes "/")) (λ _. Serves-respond 200 explorer_page tt)
      (λ _. Serves-respond 404 not_found_page tt)

-- The route's handler answers every request.
abbrev IsServing : Route → Type 0
IsServing route = (r : Request) → Serves (route.1 r)

routes_at-IsServing :
    (p : Text) (rest : List Route) → All IsServing rest → All IsServing (routes_at p rest)
routes_at-IsServing p rest h = (
  handle_status-Serves,
  (
    handle_stats-Serves,
    (
      handle_addresses-Serves,
      (
        handle_address-Serves,
        (
          handle_holders-Serves,
          (
            handle_blocks-Serves,
            (handle_producers-Serves, (handle_tokens-Serves, (handle_transfers-Serves, h))),
          ),
        ),
      ),
    ),
  ),
)

routes-IsServing : All IsServing routes
routes-IsServing = routes_at-IsServing prefix (routes_at legacy_prefix pages) (
    routes_at-IsServing legacy_prefix pages (
      λ r. Serves-respond 200 spec_page tt,
      (λ r. Serves-respond 200 docs_page tt, (handle_root-Serves, tt)),
    ))

-- A route that is found serves.
abbrev IsServingIf : Option Route → Type 0
IsServingIf none = Unit {0}
IsServingIf (some route) = IsServing route

find-IsServing : (p : Route → Bool) (rs : List Route) → All IsServing rs → IsServingIf (find p rs)
unfolding find
find-IsServing p [] h = tt
find-IsServing p (route ∷ rs) h = elim (Bool-cases (p route)) [
  | inl e ↦ rw e h.0
  | inr e ↦ rw e (find-IsServing p rs h.1)
]

longer-IsServing :
    (route : Route) (o : Option Route)
    → IsServing route
    → IsServingIf o
    → IsServingIf (longer route o)
longer-IsServing route none h k = h
longer-IsServing route (some best) h k = elim (Bool-cases (ltb (length best.0) (length route.0))) [
  | inl e ↦ rw e h
  | inr e ↦ rw e k
]

longest-IsServing : (rs : List Route) → All IsServing rs → IsServingIf (longest rs)
longest-IsServing [] h = tt
longest-IsServing (route ∷ rs) h =
    longer-IsServing route (longest rs) h.0 (longest-IsServing rs h.1)

run_route-Serves : (r : Request) (o : Option Route) → IsServingIf o → Serves (run_route r o)
run_route-Serves r none h = Serves-respond 404 not_found_page tt
run_route-Serves r (some route) h = h r

not_exact-Serves : (r : Request) (o : Option Route) → Serves (not_exact r o)
not_exact-Serves r (some route) = Serves-respond 301 (moved_to (r.path ++ codes "/") r.raw_query) tt
not_exact-Serves r none =
    run_route-Serves r _
      (longest-IsServing _ (All-filter IsServing (is_above r.path) routes routes-IsServing))

found-Serves : (r : Request) (o : Option Route) → IsServingIf o → Serves (found r o)
found-Serves r (some route) h = h r
found-Serves r none h =
    not_exact-Serves r (find (λ route. text_eq route.0 (r.path ++ codes "/")) routes)

serve_mux-Serves : (r : Request) → Serves (serve_mux r)
unfolding serve_mux
serve_mux-Serves r =
    found-Serves r _ (find-IsServing (λ route. text_eq route.0 r.path) routes routes-IsServing)

-- The server answers every request, whichever its method and path and whatever the database's
-- faults, and leaves the tables, the transaction and the mutex as they were. An answer has no more
-- rows than its limit, which is at most 1000 (500 for transfers), from an offset of at most 100000;
-- blocks come from a range of at most 1001 heights and lie in it. The path is clean.
pub serve-ServedAt : (r : Request) (s : Store) → ServedAt s (serve r s).outcome
unfolding serve
serve-ServedAt r s =
    (Serves-if {h = respond 200 no_body} {k = serve_mux r} (text_eq r.method (codes "OPTIONS"))
        (λ _. Serves-respond 200 no_body tt) (λ _. serve_mux-Serves r)).at
      s
