-- ===== src/Api/Routes/Legacy.antt =====
-- The legacy prefix answers like the present one.
use koinos_token_tracker.Base.{
  ◌≡◌, refl, ◌⊎◌, inl, inr, Bool, true, false, Option, none, some, ◌∷◌, ◌++◌, if◌then◌else◌, filter,
  Bool-cases,
}
use koinos_token_tracker.Base.Table.{find}
use koinos_token_tracker.Base.Text.{Text, codes, text_eq, has_prefix, has_suffix}
use koinos_token_tracker.Store.Types.{Store}
use koinos_token_tracker.Api.{
  Request, extract_path_param, split_slashes, moved_to, Handler, respond,
}
use koinos_token_tracker.Api.Handlers.{
  handle_status, handle_stats, handle_addresses, handle_address, handle_holders, handle_blocks,
  handle_producers, handle_tokens, handle_transfers,
}
use koinos_token_tracker.Api.Routes.{
  handle_root, Route, prefix, legacy_prefix, routes, is_above, longest, run_route, not_exact, found,
  serve_mux, serve,
}

module _ (method raw_query : Text) (query : Text → Text) (rest : Text) where
  abbrev pub at : Text → Request
  at p = record { method = method; path = p ++ b'/' ∷ rest; raw_query = raw_query; query = query }

  -- Both are the same handler, but for the prefix of the path.
  abbrev IsSame : Option Route → Option Route → Type 0
  IsSame (some a) (some b) = a.1 (at legacy_prefix) ≡ b.1 (at prefix)
  IsSame none none = Unit {0}
  IsSame none (some b) = ⊥
  IsSame (some a) none = ⊥

  record Agrees (a b : Option Route) : Type 0 where
    agreed : IsSame a b

  Agrees-if :
      (b : Bool) {x x' y y' : Option Route}
      → Agrees x x'
      → Agrees y y'
      → Agrees (if b then x else y) (if b then x' else y')
  Agrees-if true h k = h
  Agrees-if false h k = k

  both : {a b : Route} → a.1 (at legacy_prefix) ≡ b.1 (at prefix) → Agrees (some a) (some b)
  both h = record { agreed = h }

  same_status : handle_status (at legacy_prefix) ≡ handle_status (at prefix)
  unfolding handle_status
  same_status = refl

  same_stats : handle_stats (at legacy_prefix) ≡ handle_stats (at prefix)
  unfolding handle_stats
  same_stats = refl

  same_addresses : handle_addresses (at legacy_prefix) ≡ handle_addresses (at prefix)
  unfolding handle_addresses
  same_addresses = refl

  same_address : handle_address (at legacy_prefix) ≡ handle_address (at prefix)
  unfolding handle_address extract_path_param split_slashes
  same_address = refl

  same_holders : handle_holders (at legacy_prefix) ≡ handle_holders (at prefix)
  unfolding handle_holders extract_path_param split_slashes
  same_holders = refl

  same_blocks : handle_blocks (at legacy_prefix) ≡ handle_blocks (at prefix)
  unfolding handle_blocks
  same_blocks = refl

  same_producers : handle_producers (at legacy_prefix) ≡ handle_producers (at prefix)
  unfolding handle_producers
  same_producers = refl

  same_tokens : handle_tokens (at legacy_prefix) ≡ handle_tokens (at prefix)
  unfolding handle_tokens
  same_tokens = refl

  same_transfers : handle_transfers (at legacy_prefix) ≡ handle_transfers (at prefix)
  unfolding handle_transfers extract_path_param split_slashes
  same_transfers = refl

  same_root : handle_root (at legacy_prefix) ≡ handle_root (at prefix)
  unfolding handle_root text_eq
  same_root = refl

  -- The patterns of both prefixes, against a path of either.
  routes-Agrees :
      (t : Text)
      → Agrees
          (find (λ route. text_eq route.0 (legacy_prefix ++ b'/' ∷ t)) routes)
          (find (λ route. text_eq route.0 (prefix ++ b'/' ∷ t)) routes)
  unfolding find text_eq
  routes-Agrees t = Agrees-if (text_eq (codes "status") t) (both same_status) (
      Agrees-if (text_eq (codes "stats") t) (both same_stats) (
        Agrees-if (text_eq (codes "addresses") t) (both same_addresses) (
          Agrees-if (text_eq (codes "address/") t) (both same_address) (
            Agrees-if (text_eq (codes "holders/") t) (both same_holders) (
              Agrees-if (text_eq (codes "blocks") t) (both same_blocks) (
                Agrees-if (text_eq (codes "producers") t) (both same_producers) (
                  Agrees-if (text_eq (codes "tokens") t) (both same_tokens) (
                    Agrees-if (text_eq (codes "transfers/") t) (both same_transfers)
                      (record { agreed = tt })))))))))

  above-Agrees :
      (b₁ b₂ b₃ : Bool)
      → has_prefix rest (codes "address/") ≡ b₁
      → has_prefix rest (codes "holders/") ≡ b₂
      → has_prefix rest (codes "transfers/") ≡ b₃
      → Agrees
          (longest (filter (is_above (at legacy_prefix).path) routes))
          (longest (filter (is_above (at prefix).path) routes))
  unfolding has_prefix has_suffix text_eq
  above-Agrees true true true e₁ e₂ e₃ = rw (e₁, e₂, e₃) (both same_transfers)
  above-Agrees false true true e₁ e₂ e₃ = rw (e₁, e₂, e₃) (both same_transfers)
  above-Agrees true false true e₁ e₂ e₃ = rw (e₁, e₂, e₃) (both same_transfers)
  above-Agrees false false true e₁ e₂ e₃ = rw (e₁, e₂, e₃) (both same_transfers)
  above-Agrees true true false e₁ e₂ e₃ = rw (e₁, e₂, e₃) (both same_holders)
  above-Agrees false true false e₁ e₂ e₃ = rw (e₁, e₂, e₃) (both same_holders)
  above-Agrees true false false e₁ e₂ e₃ = rw (e₁, e₂, e₃) (both same_address)
  above-Agrees false false false e₁ e₂ e₃ = rw (e₁, e₂, e₃) (both same_root)

  -- The same answer, or each a redirect to its own path with a slash.
  abbrev pub IsAlike : Handler → Handler → Type 0
  IsAlike h k =
      (h ≡ k)
      ⊎ ((h ≡ respond 301 (moved_to ((at legacy_prefix).path ++ codes "/") raw_query))
          × (k ≡ respond 301 (moved_to ((at prefix).path ++ codes "/") raw_query)))

  run_route-alike :
      (a b : Option Route) → IsSame a b → run_route (at legacy_prefix) a ≡ run_route (at prefix) b
  run_route-alike (some a) (some b) h = h
  run_route-alike none none h = refl
  run_route-alike none (some b) h = absurd h
  run_route-alike (some a) none h = absurd h

  not_exact-IsAlike :
      (a b : Option Route)
      → IsSame a b
      → IsAlike (not_exact (at legacy_prefix) a) (not_exact (at prefix) b)
  not_exact-IsAlike (some a) (some b) h = inr (refl, refl)
  not_exact-IsAlike none none h =
      inl (run_route-alike _ _ (above-Agrees _ _ _ refl refl refl).agreed)
  not_exact-IsAlike none (some b) h = absurd h
  not_exact-IsAlike (some a) none h = absurd h

  found-IsAlike :
      (a b : Option Route) → IsSame a b → IsAlike (found (at legacy_prefix) a) (found (at prefix) b)
  found-IsAlike (some a) (some b) h = inl h
  found-IsAlike none none h = not_exact-IsAlike _ _ (routes-Agrees (rest ++ codes "/")).agreed
  found-IsAlike none (some b) h = absurd h
  found-IsAlike (some a) none h = absurd h

  serve_mux-IsAlike : IsAlike (serve_mux (at legacy_prefix)) (serve_mux (at prefix))
  unfolding serve_mux
  serve_mux-IsAlike = found-IsAlike _ _ (routes-Agrees rest).agreed

  -- Under the legacy prefix the server answers every request like under the present one, in the
  -- answer, the store that it leaves and the headers, except that where one redirects to its own
  -- path with a slash, so does the other. The path after the prefix begins with a slash and is clean.
  pub serve-IsAlike :
      IsAlike (λ s. (serve (at legacy_prefix) s).outcome) (λ s. (serve (at prefix) s).outcome)
      × ((s : Store) → (serve (at legacy_prefix) s).headers ≡ (serve (at prefix) s).headers)
  unfolding serve
  serve-IsAlike = (
    elim (Bool-cases (text_eq method (codes "OPTIONS"))) [
      | inl e ↦ rw e (inl refl)
      | inr e ↦ rw e serve_mux-IsAlike
    ],
    λ s. refl,
  )
