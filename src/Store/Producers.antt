-- ===== src/Store/Producers.antt =====
-- GetProducers of internal/store/sqlite.go. The map of entries is a list of them, each address
-- once, in the order of insertion.
pub mod Listed
pub mod Answered
use koinos_token_tracker.Base.{
  ℕ, ◌+◌, ◌-◌, Bool, ◌&&◌, not, Option, none, some, List, [], ◌∷◌, filter, map, length, is_empty,
  ltb, ◌==◌, if◌then◌else◌,
}
use koinos_token_tracker.Base.Text.{Text, codes, text_eq}
use koinos_token_tracker.Base.TextSet.{TextSet, add}
use koinos_token_tracker.Base.Table.{find, upsert}
use koinos_token_tracker.Store.Types.{Balance, Block, Db, Store}
use koinos_token_tracker.Store.Action.{message, Action, context, query, pure, fail, ◌>>=◌}
use koinos_token_tracker.Store.Reads.{is_holder}

pub record Producer : Type 0 where
  pub address : Text
  pub vhp_balance : Text
  pub blocks_24h : ℕ
  pub last_block_time : ℕ

-- An entry of the map with its key.
pub record Entry : Type 0 where
  pub address : Text
  pub vhp : Text
  pub blocks : ℕ

-- SELECT COALESCE(MAX(height), 0)
abbrev pub highest : List Block → ℕ
highest [] = 0
highest (b ∷ bs) = let h = highest bs in if ltb h b.height then b.height else h

abbrev pub since_of : ℕ → ℕ → ℕ
since_of window head = if ltb window head then head - window else 0

-- WHERE height > ? AND signer != ''
abbrev pub is_recent : ℕ → Block → Bool
is_recent since r = ltb since r.height && not (is_empty r.signer)

abbrev pub is_signed : Text → Block → Bool
is_signed address r = text_eq r.signer address

-- The signers, each once.
abbrev pub signers : List Block → TextSet
signers [] = []
signers (b ∷ bs) = add b.signer (signers bs)

-- SELECT signer, COUNT(*) … GROUP BY signer
abbrev pub group_of : List Block → Text → Text × ℕ
group_of blocks signer = (signer, length (filter (is_signed signer) blocks))

unfoldable pub group_by_signer : ℕ → Db → List (Text × ℕ)
unfolding add
group_by_signer since d =
    let recent = filter (is_recent since) d.blocks in map (group_of recent) (signers recent)

abbrev pub is_entry_of : Text → Entry → Bool
is_entry_of address e = text_eq e.address address

-- The loop over the signers.
abbrev pub signer_entry : Text × ℕ → Entry
signer_entry g = record { address = g.0; vhp = codes "0"; blocks = g.1 }

unfoldable pub put_signers : List (Text × ℕ) → List Entry → List Entry
unfolding upsert
put_signers [] m = m
put_signers (g ∷ gs) m =
    put_signers gs (upsert (is_entry_of g.0) (signer_entry g) (λ e. signer_entry g) m)

abbrev pub total_of : List (Text × ℕ) → ℕ
total_of [] = 0
total_of (g ∷ gs) = g.1 + total_of gs

abbrev pub holder_entry : Balance → Entry
holder_entry r = record { address = r.address; vhp = r.balance; blocks = 0 }

abbrev pub with_vhp : Balance → Entry → Entry
with_vhp r e = record e { vhp = r.balance }

-- The loop over the holders of VHP.
unfoldable pub put_holders : List Balance → List Entry → List Entry
unfolding upsert
put_holders [] m = m
put_holders (r ∷ rs) m =
    put_holders rs (upsert (is_entry_of r.address) (holder_entry r) (with_vhp r) m)

abbrev pub time_of : Option Block → Action ℕ
time_of none = fail (message "sql: no rows in result set")
time_of (some b) = pure b.timestamp

abbrev pub block_time : ℕ → Action ℕ
block_time height =
    context "get last block time" (query (λ d. find (λ r. r.height == height) d.blocks) >>= time_of)

unfoldable pub producer_of : Entry → Action Producer
unfolding query find
producer_of e = do
  last ← context "get last block" (query (λ d. highest (filter (is_signed e.address) d.blocks)))
  time ← if ltb 0 last then block_time last else pure 0
  pure (record {
    address = e.address;
    vhp_balance = e.vhp;
    blocks_24h = e.blocks;
    last_block_time = time;
  })

-- The last loop, over the map.
unfoldable pub producers_of : List Entry → Action (List Producer)
unfolding producer_of
producers_of [] = pure []
producers_of (e ∷ es) = do p ← producer_of e; ps ← producers_of es; pure (p ∷ ps)

unfoldable pub get_producers : ℕ → Action (List Producer × ℕ)
unfolding query group_by_signer put_signers put_holders producers_of
get_producers window s =
    (do
      head ← context "get head height" (query (λ d. highest d.blocks))
      groups ← context "get producers blocks" (query (group_by_signer (since_of window head)))
      holders ←
          context "count vhp holders" (query (λ d. filter (is_holder s.vhp_contract) d.balances))
      producers ← producers_of (put_holders holders (put_signers groups []))
      pure (producers, total_of groups))
      s
