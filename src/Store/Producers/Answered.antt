-- ===== src/Store/Producers/Answered.antt =====
-- What GetProducers answers when the driver does not fail.
use mathlib.Core.Path.{subst}
use koinos_token_tracker.Base.{
  ℕ, ◌<◌, ◌≡◌, refl, sym, ap, ◌∙◌, ◌⊎◌, inl, inr, Bool, false, ◌||◌, some, List, [], ◌∷◌, filter,
  map, length, any, All, Any, ltb, ltb→lt, ◌==◌, arith, Bool-cases,
}
use koinos_token_tracker.Base.Text.{Text, codes, text_eq}
use koinos_token_tracker.Base.TextSet.{member, member-add, IsDistinct}
use koinos_token_tracker.Base.Table.{find}
use koinos_token_tracker.Store.Types.{Balance, Block, Db, Store, current}
use koinos_token_tracker.Store.Action.{ok, query}
use koinos_token_tracker.Store.Reads.{is_holder}
use koinos_token_tracker.Store.Producers.{
  Producer, Entry, highest, since_of, is_recent, is_signed, signers, group_of, group_by_signer,
  put_signers, total_of, put_holders, producer_of, producers_of, get_producers,
}
use koinos_token_tracker.Store.Producers.Listed.{
  keys, count, total-length, signers-IsDistinct, shown, IsListing, put_signers-keys,
  put_signers-IsListing, put_holders-keys, put_holders-IsListing,
}

-- The driver does not fail.
abbrev pub calm : Store → Store
calm s = record s { faults = [] }

Any-highest :
    (p : Block → Bool) (blocks : List Block) (h : ℕ)
    → highest (filter p blocks) ≡ h
    → 0 < h
    → Any (λ b. b.height ≡ h) blocks
Any-highest p [] h e lt = absurd (omega (arith, e))
Any-highest p (b ∷ bs) h e lt = elim (Bool-cases (p b)) [
  | inl it ↦ elim (Bool-cases (ltb (highest (filter p bs)) b.height)) [
    | inl more ↦ inl (ground (arith, e, it, more))
    | inr less ↦ inr (Any-highest p bs h (ground (arith, e, it, less)) lt)
  ]
  | inr not_it ↦ inr (Any-highest p bs h (ground (arith, e, not_it)) lt)
]

abbrev Timed : List Block → ℕ → Type 0
Timed blocks h =
    (b : Block) × (find (λ r. r.height == h) blocks ≡ some b)
    × Any (λ r. (r.height ≡ h) × (r.timestamp ≡ b.timestamp)) blocks

find-height : (h : ℕ) (blocks : List Block) → Any (λ b. b.height ≡ h) blocks → Timed blocks h
unfolding find
find-height h [] i = absurd i
find-height h (b ∷ bs) i = elim (Bool-cases (b.height == h)) [
  | inl e ↦ (b, rw e refl, inl (ground (arith, e), refl))
  | inr e ↦ elim i [
    | inl z ↦ absurd (ground (arith, z, e))
    | inr j ↦ let x = find-height h bs j in (x.0, rw (e, find) x.1, inr x.2)
  ]
]

signers-any :
    (a : Text) (blocks : List Block) → member a (signers blocks) ≡ any (is_signed a) blocks
unfolding member
signers-any a [] = refl
signers-any a (b ∷ bs) = ground (arith, signers-any a bs, member-add a b.signer (signers bs))

module _ (window : ℕ) (s : Store) where
  abbrev db : Db
  db = current s

  -- The address's highest block, 0 without one.
  abbrev pub last_of : Text → ℕ
  last_of a = highest (filter (is_signed a) db.blocks)

  abbrev pub recent : List Block
  recent = filter (is_recent (since_of window (highest db.blocks))) db.blocks

  abbrev pub holders : List Balance
  holders = filter (is_holder s.vhp_contract) db.balances

  -- The time of the row is the one of the address's highest block, or 0.
  abbrev pub IsTimed : Producer → Type 0
  IsTimed p =
      ((last_of p.address ≡ 0) × (p.last_block_time ≡ 0))
      ⊎ Any (λ b. (b.height ≡ last_of p.address) × (b.timestamp ≡ p.last_block_time)) db.blocks

  abbrev pub IsRow : Producer → Type 0
  IsRow p =
      (p.blocks_24h ≡ count p.address recent)
      × (p.vhp_balance ≡ shown holders (codes "0") p.address)
      × IsTimed p

  abbrev IsOf : Entry → Type 0
  IsOf e = (e.blocks ≡ count e.address recent) × (e.vhp ≡ shown holders (codes "0") e.address)

  producer_of-IsRow :
      (e : Entry)
      → IsOf e
      → (p : Producer) × (producer_of e (calm s) ≡ (ok p, calm s))
        × (p.address ≡ e.address)
        × IsRow p
  unfolding producer_of query
  producer_of-IsRow e h = elim (Bool-cases (ltb 0 (last_of e.address))) [
    | inl some_block ↦
        let (b, found, i) = find-height (last_of e.address) db.blocks (
          Any-highest (is_signed e.address) db.blocks (last_of e.address) refl
            (ltb→lt _ _ some_block)) in
        (
          record {
            address = e.address;
            vhp_balance = e.vhp;
            blocks_24h = e.blocks;
            last_block_time = b.timestamp;
          },
          rw (some_block, found) refl,
          refl,
          (h.0, h.1, inr i),
        )
    | inr no_block ↦ (
      record {
        address = e.address;
        vhp_balance = e.vhp;
        blocks_24h = e.blocks;
        last_block_time = 0;
      },
      rw no_block refl,
      refl,
      (h.0, h.1, inl (ground (arith, no_block), refl)),
    )
  ]

  producers_of-IsRow :
      (m : List Entry)
      → All IsOf m
      → (ps : List Producer) × (producers_of m (calm s) ≡ (ok ps, calm s))
        × (map (λ p. p.address) ps ≡ keys m)
        × All IsRow ps
  unfolding producers_of
  producers_of-IsRow [] h = ([], refl, refl, tt)
  producers_of-IsRow (e ∷ m) h =
      let (p, one, same, row) = producer_of-IsRow e h.0 in
      let (ps, all, sames, rows) = producers_of-IsRow m h.1 in
      (p ∷ ps, rw (one, all) refl, cc, (row, rows))

  abbrev made : List Entry
  made = put_holders holders (put_signers (map (group_of recent) (signers recent)) [])

  made-IsListing : IsListing recent (λ a. shown holders (codes "0") a) made
  unfolding member
  made-IsListing =
      put_holders-IsListing recent holders (λ _. codes "0") _
        (λ a k. put_signers-keys recent a (signers recent) [] ∙ ap (λ x. x || false) k)
        (put_signers-IsListing recent (signers recent) [] (record { distinct = tt; counted = tt }))

  made-keys :
      (a : Text)
      → member a (keys made) ≡ (any (λ r. text_eq r.address a) holders || any (is_signed a) recent)
  unfolding member
  made-keys a = ground (
    arith,
    put_holders-keys recent a holders (put_signers (map (group_of recent) (signers recent)) []),
    put_signers-keys recent a (signers recent) [],
    signers-any a recent,
  )

  -- What GetProducers answers: it lists the holders of VHP and the signers of the window's blocks,
  -- each once; a row has the number of the address's blocks of the window, its balance of VHP ("0"
  -- without one), and the time of its highest block (0 without one); the total is the number of the
  -- window's blocks.
  abbrev pub IsAnswer : List Producer → ℕ → Type 0
  IsAnswer rows total =
      IsDistinct (map (λ p. p.address) rows)
      × ((a : Text)
          → member a (map (λ p. p.address) rows)
            ≡ (any (λ r. text_eq r.address a) holders || any (is_signed a) recent))
      × All IsRow rows
      × (total ≡ length recent)

  -- When the driver does not fail, GetProducers returns, changes nothing, and lists the holders of
  -- VHP and the signers of the window's blocks, each once, with the number of the address's blocks
  -- in the window, its balance of VHP ("0" without one) and the time of its highest block (0
  -- without one); the total is the number of the window's signed blocks.
  pub get_producers-IsAnswer :
      (rows : List Producer) × (total : ℕ) × (get_producers window (calm s)
        ≡ (ok (rows, total), calm s))
      × IsAnswer rows total
  unfolding get_producers query group_by_signer
  get_producers-IsAnswer =
      let (ps, all, same, rows) = producers_of-IsRow made made-IsListing.counted in
      (
        ps,
        total_of (map (group_of recent) (signers recent)),
        rw all refl,
        (
          subst IsDistinct (sym same) made-IsListing.distinct,
          λ a. ap (member a) same ∙ made-keys a,
          rows,
          total-length recent (signers recent) (signers-IsDistinct recent) (λ a k. k),
        ),
      )
