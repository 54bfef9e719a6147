-- ===== src/Backfill/Client.antt =====
-- The client of koinos-rest: getJSONFrom, getJSONOrFallback, History, blockOf and HistoryHeight. What
-- the nodes answer, and whether the context is cancelled, are functions of the time, which moves on
-- with every look at either. An error is `none`.
pub mod Anchored
pub mod Canonical
use koinos_token_tracker.Base.{
  ℕ, zero, suc, ◌+◌, Bool, true, false, ◌&&◌, ◌||◌, not, Option, none, some, List, [], ◌∷◌, ◌++◌,
  map, is_empty, ltb, leb, ◌==◌, if◌then◌else◌,
}
use mathlib.Core.List.{reverse}
use koinos_token_tracker.Base.Text.{Bytes, Text, codes, text_eq, has_prefix}
use koinos_token_tracker.Decimal.{print, parse_uint}
use koinos_token_tracker.Backfill.{BlockInfo}
use koinos_token_tracker.Backfill.Ops.{HistoryEvent}

-- historyEntry; a nil pointer is `none`.
pub record HistoryTrx : Type 0 where
  pub id : Text
  pub events : List HistoryEvent

pub record HistoryBlock : Type 0 where
  pub height : Text
  pub timestamp : Text
  pub events : List HistoryEvent

pub record HistoryEntry : Type 0 where
  pub seq_num : Text
  pub trx : Option HistoryTrx
  pub block : Option HistoryBlock

-- blockResponse
pub record BlockResponse : Type 0 where
  pub block_id : Text
  pub block_height : Text
  pub timestamp : Text

-- A request that cannot be made, one that fails on the way, and one with a status and a body.
pub data Reply : Type 0 where
  unmade : Reply
  broken : Reply
  answered : ℕ → Bytes → Reply

-- net/http, encoding/json, url.PathEscape, bytes.TrimSpace and the context. `json_tx` gives the
-- containing blocks of a txResponse.
pub record Net : Type 0 where
  pub reply : ℕ → Text → Reply
  pub is_cancelled : ℕ → Bool
  pub path_escape : Text → Text
  pub trim_space : Bytes → Bytes
  pub json_raw : Bytes → Option Bytes
  pub json_page : Bytes → Option (List HistoryEntry)
  pub json_tx : Bytes → Option (List Text)
  pub json_block : Bytes → Option BlockResponse

-- Client, with the time. The maps are association lists, the latest entry first.
pub record Client : Type 0 where
  pub rest : Text
  pub fallback : Text
  pub blocks : List (Text × BlockInfo)
  pub canon : List (ℕ × Text)
  pub time : ℕ

abbrev drop_slashes : Text → Text
drop_slashes [] = []
drop_slashes (c ∷ s) = let rest = drop_slashes s in if c == b'/' then rest else c ∷ s

-- strings.TrimRight(s, "/")
abbrev pub trim_slashes : Text → Text
trim_slashes s = reverse (drop_slashes (reverse s))

unfoldable pub new_client : Text → Text → ℕ → Client
new_client rest_url fallback_url time = record {
  rest = trim_slashes rest_url;
  fallback = trim_slashes fallback_url;
  blocks = [];
  canon = [];
  time = time;
}

abbrev pub tick : Client → Client
tick c = record c { time = suc c.time }

abbrev pub Ask {ℓ} : Type ℓ → Type ℓ
Ask A = Client → Option A × Client

module _ {A B : Type 0} where
  abbrev pub go_on : Option A → (A → Ask B) → Ask B
  go_on none f c = (none, c)
  go_on (some a) f c = f a c

  infixl 5 ◌>>=◌
  abbrev pub ◌>>=◌ : Ask A → (A → Ask B) → Ask B
  ◌>>=◌ m f c = let (r, c') = m c in go_on r f c'

abbrev pub max_retries : ℕ
max_retries = 4

-- A status of the 400s ends the attempts, but for 429.
abbrev pub is_final : ℕ → Bool
is_final status = leb 400 status && ltb status 500 && not (status == 429)

-- map[string]blockInfo and map[uint64]string
unfoldable pub known_block : Text → List (Text × BlockInfo) → Option BlockInfo
known_block id [] = none
known_block id ((i, b) ∷ m) = if text_eq i id then some b else known_block id m

unfoldable pub known_canon : ℕ → List (ℕ × Text) → Option Text
known_canon h [] = none
known_canon h ((i, id) ∷ m) = if i == h then some id else known_canon h m

-- strings.EqualFold on ASCII
abbrev lower_case : ℕ → ℕ
lower_case c = if leb b'A' c && leb c b'Z' then c + 32 else c

unfoldable pub equal_fold : Text → Text → Bool
unfolding text_eq
equal_fold a b = text_eq (map lower_case a) (map lower_case b)

-- strconv.ParseUint, `none` on an error
abbrev pub parsed_uint : Text → Option ℕ
parsed_uint t = let (n, fine) = parse_uint t in if fine then some n else none

module _ (net : Net) where
  -- The loop of getJSONFrom over the attempts left. All but the first wait, unless the context ends.
  unfoldable pub attempts : {A : Type 0} → (Bytes → Option A) → Text → ℕ → Bool → Ask A
  attempts decode url zero first c = (none, c)
  attempts decode url (suc left) first c = elim (not first && net.is_cancelled c.time) [
    | true ↦ (none, tick c)
    | false ↦ elim (net.reply c.time url) [
      | unmade ↦ (none, tick c)
      | broken ↦ attempts decode url left false (tick c)
      | answered status body ↦ elim (status == 200) [
        | true ↦ (decode body, tick c)
        | false ↦ elim (is_final status) [
          | true ↦ (none, tick c)
          | false ↦ attempts decode url left false (tick c)
        ]
      ]
    ]
  ]

  unfoldable pub get_json : {A : Type 0} → (Bytes → Option A) → Text → Ask A
  unfolding attempts
  get_json decode path c = attempts decode (c.rest ++ path) max_retries true c

  abbrev pub or_fallback : {A : Type 0} → (Bytes → Option A) → Text → Option A → Ask A
  or_fallback decode path (some a) c = (some a, c)
  or_fallback decode path none c =
      if is_empty c.fallback || net.is_cancelled c.time
      then (none, tick c)
      else attempts decode (c.fallback ++ path) max_retries true (tick c)

  unfoldable pub get_json_or_fallback : {A : Type 0} → (Bytes → Option A) → Text → Ask A
  unfolding get_json
  get_json_or_fallback decode path c =
      let (r, c') = get_json decode path c in or_fallback decode path r c'

  -- An answer that is not an array is an empty page.
  abbrev pub page_of : Bytes → Option (List HistoryEntry)
  page_of raw =
      if has_prefix (net.trim_space raw) (codes "[")
      then net.json_page (net.trim_space raw)
      else some []

  -- url.Values.Encode sorts the keys.
  abbrev pub history_path : Text → ℕ → ℕ → Text
  history_path token seq limit =
      codes "/v1/account/"
      ++ (token
          ++ (codes "/history?ascending=true&irreversible=true&limit="
              ++ (print limit ++ (codes "&sequence_number=" ++ print seq))))

  unfoldable pub history : Text → ℕ → ℕ → Ask (List HistoryEntry)
  unfolding get_json print
  history token seq limit =
      get_json net.json_raw (history_path token seq limit) >>= λ raw c. (page_of raw, c)

  -- The canonical block id at a height, from the map or the primary node.
  unfoldable pub canonical_at : ℕ → Ask Text
  unfolding known_canon get_json print
  canonical_at h c = elim (known_canon h c.canon) [
    | some id ↦ (some id, c)
    | none ↦
        (get_json net.json_block (codes "/v1/block/" ++ print h) >>= λ b c.
        (some b.block_id, record c { canon = (h, b.block_id) ∷ c.canon }))
          c
  ]

  abbrev pub remember : Text → BlockInfo → Ask BlockInfo
  remember id b c = (some b, record c { blocks = (id, b) ∷ c.blocks })

  -- A candidate block at a height: its position, if it is the canonical one there. Another one, and
  -- an error, is `none`, and the loop goes on with the next candidate.
  unfoldable pub candidate_at : Text → BlockResponse → ℕ → Ask BlockInfo
  unfolding canonical_at equal_fold
  candidate_at id br h = canonical_at h >>= λ canon_id.
      if equal_fold canon_id id
      then remember id (record { height = h; timestamp = (parse_uint br.timestamp).0 })
      else λ c. (none, c)

  abbrev pub with_height : Text → BlockResponse → Option ℕ → Ask BlockInfo
  with_height id br none c = (none, c)
  with_height id br (some h) c = if h == 0 then (none, c) else candidate_at id br h c

  unfoldable pub candidate : Text → Ask BlockInfo
  unfolding known_block get_json_or_fallback candidate_at parse_uint
  candidate id c = elim (known_block id c.blocks) [
    | some b ↦ (some b, c)
    | none ↦
        (get_json_or_fallback net.json_block (codes "/v1/block/" ++ net.path_escape id) >>= λ br.
        with_height id br (parsed_uint br.block_height))
          c
  ]

  -- The loop over the containing blocks.
  unfoldable pub first_canonical : List Text → Ask BlockInfo
  unfolding candidate
  first_canonical [] c = (none, c)
  first_canonical (id ∷ ids) c =
      let (r, c') = candidate id c in
      elim r [ some b ↦ (some b, c') | none ↦ first_canonical ids c' ]

  unfoldable pub block_of : Text → Ask BlockInfo
  unfolding get_json_or_fallback first_canonical
  block_of tx_id =
      get_json_or_fallback net.json_tx
        (codes "/v1/transaction/" ++ (net.path_escape tx_id ++ codes "?return_receipt=false"))
      >>= first_canonical

  -- The first entry of each kind, in the order of the page.
  abbrev pub first_block : List HistoryEntry → Option HistoryBlock
  first_block [] = none
  first_block (e ∷ es) = elim e.block [ some b ↦ some b | none ↦ first_block es ]

  abbrev named : Option HistoryTrx → Option Text
  named none = none
  named (some t) = if is_empty t.id then none else some t.id

  abbrev pub first_trx : List HistoryEntry → Option Text
  first_trx [] = none
  first_trx (e ∷ es) = elim (named e.trx) [ some id ↦ some id | none ↦ first_trx es ]

  -- Unlike History, a reference account whose answer is not an array is an error.
  abbrev pub reference_page : Bytes → Option (List HistoryEntry)
  reference_page raw =
      if has_prefix (net.trim_space raw) (codes "[")
      then net.json_page (net.trim_space raw)
      else none

  abbrev pub nonzero : Option ℕ → Option ℕ
  nonzero none = none
  nonzero (some h) = if h == 0 then none else some h

  abbrev pub height_in : List HistoryEntry → Ask ℕ
  height_in page c = elim (first_block page) [
    | some b ↦ (nonzero (parsed_uint b.height), c)
    | none ↦ elim (first_trx page) [
      | some id ↦ (block_of id >>= λ b c. (some b.height, c)) c
      | none ↦ (none, c)
    ]
  ]

  unfoldable pub history_height : Text → Ask ℕ
  unfolding get_json block_of parse_uint
  history_height ref =
      get_json net.json_raw (
        codes "/v1/account/" ++ (ref ++ codes "/history?ascending=false&irreversible=true&limit=5"))
      >>= λ raw. (λ c. (reference_page raw, c)) >>= height_in
