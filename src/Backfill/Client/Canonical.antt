-- ===== src/Backfill/Client/Canonical.antt =====
-- The position that blockOf gives.
use mathlib.Core.Path.{subst}
use koinos_token_tracker.Base.{
  ℕ, ◌≡◌, refl, Option, none, some, List, [], ◌∷◌, ◌++◌, inl, inr, Bool-cases, Option-cases, All,
  Any, ◌==◌, ==_iff,
}
use koinos_token_tracker.Base.Text.{Text, codes, text_eq, text_eq_iff}
use koinos_token_tracker.Decimal.{print}
use koinos_token_tracker.Backfill.{BlockInfo}
use koinos_token_tracker.Backfill.Ops.Usable.{none-some, some_inj}
use koinos_token_tracker.Backfill.Client.{
  Net, BlockResponse, Client, known_block, known_canon, equal_fold, get_json, get_json_or_fallback,
  canonical_at, candidate_at, with_height, candidate, first_canonical, block_of, HistoryEntry,
  page_of, history, first_block, first_trx, nonzero, reference_page, height_in, history_height,
  parsed_uint,
}
use koinos_token_tracker.Backfill.Client.Anchored.{
  IsNamed, IsCanonical, IsAnchored, Ends, AnsweredByOne, go_on-Ends, get_json-Ends, Ends-weaken,
  get_json_or_fallback-Ends,
}

pair_eq : {A B : Type 0} {a a' : A} {b b' : B} → a ≡ a' → b ≡ b' → ◌≡◌ {A = A × B} (a, b) (a', b')
pair_eq e f = rw (e, f) refl

module _ (net : Net) (node second : Text) (start : ℕ) where
  known_canon-IsNamed :
      (h : ℕ) (m : List (ℕ × Text)) (id : Text)
      → All (IsNamed net node) m
      → known_canon h m ≡ some id
      → IsNamed net node (h, id)
  unfolding known_canon
  known_canon-IsNamed h [] id a e = absurd (none-some e)
  known_canon-IsNamed h ((i, id') ∷ m) id a e = elim (Bool-cases (i == h)) [
    | inl o ↦
        subst (IsNamed net node) (pair_eq ((==_iff i h).0 o) (some_inj (rw (o, known_canon) at e)))
          a.0
    | inr o ↦ known_canon-IsNamed h m id a.1 (rw (o, known_canon) at e)
  ]

  known_block-IsCanonical :
      (id : Text) (m : List (Text × BlockInfo)) (b : BlockInfo)
      → All (IsCanonical net node) m
      → known_block id m ≡ some b
      → IsCanonical net node (id, b)
  unfolding known_block
  known_block-IsCanonical id [] b a e = absurd (none-some e)
  known_block-IsCanonical id ((i, b') ∷ m) b a e = elim (Bool-cases (text_eq i id)) [
    | inl o ↦
        subst (IsCanonical net node)
          (pair_eq ((text_eq_iff i id).0 o) (some_inj (rw (o, known_block) at e))) a.0
    | inr o ↦ known_block-IsCanonical id m b a.1 (rw (o, known_block) at e)
  ]

  canonical_at-Ends :
      (h : ℕ) (c : Client)
      → IsAnchored net node second start c
      → Ends net node second start (λ id. IsNamed net node (h, id)) (canonical_at net h c)
  unfolding canonical_at
  canonical_at-Ends h c a = elim (Option-cases (known_canon h c.canon)) [
    | inl e ↦
        rw (e, canonical_at, Ends)
          (go_on-Ends net node second start (λ id. IsNamed net node (h, id))
            (get_json net net.json_block (codes "/v1/block/" ++ print h) c) _
            (get_json-Ends net node second start net.json_block (codes "/v1/block/" ++ print h) c a)
            (λ b c' a' s. ((a'.0, a'.1, ((b, (s, refl)), a'.2), a'.3, a'.4), (b, (s, refl)))))
    | inr (id, e) ↦ rw (e, canonical_at, Ends) (a, known_canon-IsNamed h c.canon id a.2 e)
  ]

  candidate_at-Ends :
      (id : Text) (br : BlockResponse) (h : ℕ) (c : Client)
      → IsAnchored net node second start c
      → Ends net node second start (λ b. IsCanonical net node (id, b)) (candidate_at net id br h c)
  unfolding candidate_at
  candidate_at-Ends id br h c a =
      go_on-Ends net node second start (λ b. IsCanonical net node (id, b)) (canonical_at net h c) _
        (canonical_at-Ends h c a)
        (λ i c' a' n. elim (Bool-cases (equal_fold i id)) [
          | inl e ↦ rw (e, Ends) ((a'.0, a'.1, a'.2, ((i, (n, e)), a'.3), a'.4), (i, (n, e)))
          | inr e ↦ rw (e, Ends) (a', tt)
        ])

  with_height-Ends :
      (id : Text) (br : BlockResponse) (o : Option ℕ) (c : Client)
      → IsAnchored net node second start c
      → Ends net node second start (λ b. IsCanonical net node (id, b)) (with_height net id br o c)
  with_height-Ends id br none c a = (a, tt)
  with_height-Ends id br (some h) c a = elim (Bool-cases (h == 0)) [
    | inl e ↦ rw (e, Ends) (a, tt)
    | inr e ↦ rw (e, Ends) (candidate_at-Ends id br h c a)
  ]

  candidate-Ends :
      (id : Text) (c : Client)
      → IsAnchored net node second start c
      → Ends net node second start (λ b. IsCanonical net node (id, b)) (candidate net id c)
  unfolding candidate
  candidate-Ends id c a = elim (Option-cases (known_block id c.blocks)) [
    | inl e ↦
        rw (e, candidate, Ends)
          (go_on-Ends net node second start (λ b. IsCanonical net node (id, b))
            (get_json_or_fallback net net.json_block (codes "/v1/block/" ++ net.path_escape id) c) _
            (get_json_or_fallback-Ends net node second start net.json_block
              (codes "/v1/block/" ++ net.path_escape id) c a)
            (λ br c' a' _. with_height-Ends id br (parsed_uint br.block_height) c' a'))
    | inr (b, e) ↦ rw (e, candidate, Ends) (a, known_block-IsCanonical id c.blocks b a.3 e)
  ]

  -- The position is that of one of these blocks.
  abbrev pub IsCanonicalOf : List Text → BlockInfo → Type 0
  IsCanonicalOf ids b = Any (λ id. IsCanonical net node (id, b)) ids

  next_candidate-Ends :
      (id : Text) (ids : List Text) (x : Option BlockInfo × Client)
      → Ends net node second start (λ b. IsCanonical net node (id, b)) x
      → ((c : Client)
          → IsAnchored net node second start c
          → Ends net node second start (IsCanonicalOf ids) (first_canonical net ids c))
      → Ends net node second start
          (IsCanonicalOf (id ∷ ids))
          (elim x.0 as (λ _. Option BlockInfo × Client) [
            | some b ↦ (some b, x.1)
            | none ↦ first_canonical net ids x.1
          ])
  next_candidate-Ends id ids (some b, c) e k = (e.0, inl e.1)
  next_candidate-Ends id ids (none, c) e k =
      Ends-weaken net node second start (first_canonical net ids c) (λ b. inr) (k c e.0)

  first_canonical-Ends :
      (ids : List Text) (c : Client)
      → IsAnchored net node second start c
      → Ends net node second start (IsCanonicalOf ids) (first_canonical net ids c)
  unfolding first_canonical
  first_canonical-Ends [] c a = (a, tt)
  first_canonical-Ends (id ∷ ids) c a =
      next_candidate-Ends id ids (candidate net id c) (candidate-Ends id c a)
        (first_canonical-Ends ids)

  -- The blocks that one of the nodes says contain the transaction.
  abbrev pub ContainedIn : Text → List Text → Type 0
  ContainedIn tx_id ids =
      AnsweredByOne net node second start net.json_tx
        (codes "/v1/transaction/" ++ (net.path_escape tx_id ++ codes "?return_receipt=false")) ids

  -- However blockOf ends, the client's maps hold only what the primary node answered, if they did
  -- before. If it gives a position, then the transaction's block, of those that one of the nodes
  -- listed for it, is the block that the primary node named at that height.
  pub block_of-IsCanonical :
      (tx_id : Text) (c : Client)
      → IsAnchored net node second start c
      → Ends net node second start
          (λ b. (ids : List Text) × (ContainedIn tx_id ids × IsCanonicalOf ids b))
          (block_of net tx_id c)
  unfolding block_of
  block_of-IsCanonical tx_id c a =
      go_on-Ends net node second start _ (get_json_or_fallback net net.json_tx _ c) _
        (get_json_or_fallback-Ends net node second start net.json_tx _ c a)
        (λ ids c' a' s.
          Ends-weaken net node second start (first_canonical net ids c') (λ b k. (ids, (s, k)))
            (first_canonical-Ends ids c' a'))

  abbrev Nothing : {A : Type 0} → A → Type 0
  Nothing a = Unit {0}

  given-Ends :
      {A : Type 0} (o : Option A) (c : Client)
      → IsAnchored net node second start c
      → Ends net node second start Nothing (o, c)
  given-Ends none c a = (a, tt)
  given-Ends (some x) c a = (a, tt)

  pub history-Ends :
      (token : Text) (seq limit : ℕ) (c : Client)
      → IsAnchored net node second start c
      → Ends net node second start Nothing (history net token seq limit c)
  unfolding history
  history-Ends token seq limit c a =
      go_on-Ends net node second start Nothing (get_json net net.json_raw _ c) _
        (get_json-Ends net node second start net.json_raw _ c a)
        (λ raw c' a' _. given-Ends (page_of net raw) c' a')

  height_in-Ends :
      (page : List HistoryEntry) (c : Client)
      → IsAnchored net node second start c
      → Ends net node second start Nothing (height_in net page c)
  height_in-Ends page c a = elim (Option-cases (first_block net page)) [
    | inr (b, e) ↦ rw (e, height_in, Ends) (given-Ends (nonzero net (parsed_uint b.height)) c a)
    | inl e ↦ elim (Option-cases (first_trx net page)) [
      | inl f ↦ rw (e, f, height_in, Ends) (a, tt)
      | inr (id, f) ↦
          rw (e, f, height_in, Ends)
            (go_on-Ends net node second start Nothing (block_of net id c)
              (λ b c'. (some b.height, c')) (block_of-IsCanonical id c a) (λ b c' a' _. (a', tt)))
    ]
  ]

  pub history_height-Ends :
      (ref : Text) (c : Client)
      → IsAnchored net node second start c
      → Ends net node second start Nothing (history_height net ref c)
  unfolding history_height
  history_height-Ends ref c a =
      go_on-Ends net node second start Nothing (get_json net net.json_raw _ c) _
        (get_json-Ends net node second start net.json_raw _ c a)
        (λ raw c' a' _.
          go_on-Ends net node second start Nothing (reference_page net raw, c') (height_in net)
            (given-Ends (reference_page net raw) c' a')
            (λ page c'' a'' _. height_in-Ends page c'' a''))
