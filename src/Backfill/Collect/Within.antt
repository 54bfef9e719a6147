-- ===== src/Backfill/Collect/Within.antt =====
-- What a page holds.
use koinos_token_tracker.Base.{
  ℕ, ◌≤◌, ◌<◌, ◌≡◌, refl, ◌⊎◌, inl, inr, Bool, true, false, Option, none, some, List, [], ◌∷◌, ◌++◌,
  is_empty, ltb, arith, Bool-cases, Option-cases, All,
}
use koinos_token_tracker.Base.Text.{Text}
use koinos_token_tracker.Wire.{Wire}
use koinos_token_tracker.Backfill.{Op}
use koinos_token_tracker.Backfill.Decode.{Codecs, parse_seq}
use koinos_token_tracker.Backfill.Ops.{ops_of}
use koinos_token_tracker.Backfill.Ops.Usable.{IsUsable, ops_of-IsUsable}
use koinos_token_tracker.Backfill.Client.{
  HistoryTrx, HistoryBlock, HistoryEntry, Net, Client, parsed_uint, history, block_of,
}
use koinos_token_tracker.Backfill.Client.Anchored.{IsAnchored, Gives, Ends, go_on-Ends}
use koinos_token_tracker.Backfill.Client.Canonical.{
  IsCanonicalOf, ContainedIn, block_of-IsCanonical, history-Ends,
}
use koinos_token_tracker.Backfill.Collect.{
  page_size, Page, Placed, block_at, place_trx, place, added, take_placed, collect_entries,
  empty_page, collect,
}

All-append : {A : Type 0} (P : A → Type 0) (xs ys : List A) → All P xs → All P ys → All P (xs ++ ys)
All-append P [] ys h k = k
All-append P (x ∷ xs) ys h k = (h.0, All-append P xs ys h.1 k)

module _ (net : Net) (node second : Text) (start : ℕ) where
  -- The position of a block's own entry, or the canonical one of the transaction.
  abbrev pub IsPlaced : Placed → Type 0
  IsPlaced x =
      (x.tx_id ≡ [])
      ⊎ ((ids : List Text) × (ContainedIn net node second start x.tx_id ids
            × IsCanonicalOf net node second start ids x.position))

  abbrev OptionPlaced : Option Placed → Type 0
  OptionPlaced none = Unit {0}
  OptionPlaced (some x) = IsPlaced x

  place_trx-Ends :
      (t : HistoryTrx) (c : Client)
      → IsAnchored net node second start c
      → Ends net node second start OptionPlaced (place_trx net t c)
  place_trx-Ends t c a = elim (Bool-cases (is_empty t.id)) [
    | inl e ↦ rw (e, Ends) (a, tt)
    | inr e ↦
        rw (e, Ends)
          (go_on-Ends net node second start OptionPlaced (block_of net t.id c) _
            (block_of-IsCanonical net node second start t.id c a) (λ b c' a' k. (a', inr k)))
  ]

  block_at-Gives :
      (b : HistoryBlock) (o : Option ℕ) → Gives net node second start OptionPlaced (block_at b o)
  block_at-Gives b none = tt
  block_at-Gives b (some h) = inl refl

  place-Ends :
      (e : HistoryEntry) (c : Client)
      → IsAnchored net node second start c
      → Ends net node second start OptionPlaced (place net e c)
  unfolding place
  place-Ends e c a = elim (Option-cases e.block) [
    | inr (b, i) ↦ rw (i, place, Ends) (a, block_at-Gives b (parsed_uint b.height))
    | inl i ↦ elim (Option-cases e.trx) [
      | inr (t, j) ↦ rw (i, j, place, Ends) (place_trx-Ends t c a)
      | inl j ↦ rw (i, j, place, Ends) (a, tt)
    ]
  ]

  module _ (w : Wire) (k : Codecs) (token : Text) (cutoff : ℕ) where
    -- An operation that opsOf lets through, of an entry that is not above the cutoff.
    abbrev pub IsWithin : Op → Type 0
    IsWithin op =
        (seq : ℕ) × (x : Placed) × (IsPlaced x
          × (x.position.height ≤ cutoff)
          × IsUsable seq x.position op)

    abbrev pub PageIsWithin : Page → Type 0
    PageIsWithin p =
        All IsWithin p.ops
        × ((p.stopped ≡ 0) ⊎ (cutoff < p.stopped))
        × (p.at_end ≡ ltb p.entries page_size)

    All-IsWithin :
        (seq : ℕ) (x : Placed) (ops : List Op)
        → IsPlaced x
        → x.position.height ≤ cutoff
        → All (IsUsable seq x.position) ops
        → All IsWithin ops
    All-IsWithin seq x [] i h u = tt
    All-IsWithin seq x (op ∷ ops) i h u = ((seq, x, (i, h, u.0)), All-IsWithin seq x ops i h u.1)

    added-Gives :
        (p : Page) (seq : ℕ) (x : Placed) (o : Option (List Op))
        → PageIsWithin p
        → IsPlaced x
        → x.position.height ≤ cutoff
        → ((ops : List Op) → o ≡ some ops → All (IsUsable seq x.position) ops)
        → Gives net node second start PageIsWithin (added net w k token cutoff p seq o)
    added-Gives p seq x none h i le u = tt
    added-Gives p seq x (some ops) h i le u =
        (All-append IsWithin p.ops ops h.0 (All-IsWithin seq x ops i le (u ops refl)), h.1, h.2)

    take_placed-Gives :
        (seq : ℕ) (x : Placed) (p : Page)
        → PageIsWithin p
        → IsPlaced x
        → Gives net node second start PageIsWithin (take_placed net w k token cutoff seq x p).0
    unfolding take_placed
    take_placed-Gives seq x p h i = elim (Bool-cases (ltb cutoff x.position.height)) [
      | inl e ↦ rw (e, take_placed, Gives) (h.0, inr (ground arith), h.2)
      | inr e ↦
          rw (e, take_placed, Gives)
            (added-Gives p seq x (ops_of w k token seq x.position x.tx_id x.events) h i
              (ground arith) (ops_of-IsUsable w k token seq x.position x.tx_id x.events))
    ]

    taken-Ends :
        (es : List HistoryEntry) (r : Option Page) (goes_on : Bool) (c : Client)
        → IsAnchored net node second start c
        → Gives net node second start PageIsWithin r
        → ((p : Page)
            → PageIsWithin p
            → Ends net node second start PageIsWithin (collect_entries net w k token cutoff es p c))
        → Ends net node second start PageIsWithin (elim r as (λ _. Option Page × Client) [
          | none ↦ (none, c)
          | some p' ↦ elim goes_on [
            | true ↦ collect_entries net w k token cutoff es p' c
            | false ↦ (some p', c)
          ]
        ])
    taken-Ends es none g c a h rest = (a, tt)
    taken-Ends es (some p) true c a h rest = rest p h
    taken-Ends es (some p) false c a h rest = (a, h)

    placed-Ends :
        (e : HistoryEntry) (es : List HistoryEntry) (p : Page) (placed : Option (Option Placed))
        (c : Client)
        → IsAnchored net node second start c
        → Gives net node second start OptionPlaced placed
        → PageIsWithin p
        → ((p : Page)
            → PageIsWithin p
            → Ends net node second start PageIsWithin (collect_entries net w k token cutoff es p c))
        → Ends net node second start PageIsWithin (elim placed as (λ _. Option Page × Client) [
          | none ↦ (none, c)
          | some none ↦ collect_entries net w k token cutoff es p c
          | some (some x) ↦
              let (r, goes_on) = take_placed net w k token cutoff (parse_seq e.seq_num) x p in
              elim r [
                | none ↦ (none, c)
                | some p' ↦ elim goes_on [
                  | true ↦ collect_entries net w k token cutoff es p' c
                  | false ↦ (some p', c)
                ]
              ]
        ])
    placed-Ends e es p none c a g h rest = (a, tt)
    placed-Ends e es p (some none) c a g h rest = rest p h
    placed-Ends e es p (some (some x)) c a g h rest =
        let taken = take_placed net w k token cutoff (parse_seq e.seq_num) x p in
        taken-Ends es taken.0 taken.1 c a (take_placed-Gives (parse_seq e.seq_num) x p h g) rest

    collect_entries-Ends :
        (es : List HistoryEntry) (p : Page) (c : Client)
        → IsAnchored net node second start c
        → PageIsWithin p
        → Ends net node second start PageIsWithin (collect_entries net w k token cutoff es p c)
    unfolding collect_entries
    collect_entries-Ends [] p c a h = (a, h)
    collect_entries-Ends (e ∷ es) p c a h =
        let (a', g) = place-Ends e c a in
        placed-Ends e es p (place net e c).0 (place net e c).1 a' g h
          (λ p'. λ h'. collect_entries-Ends es p' (place net e c).1 a' h')

    pub collect-PageIsWithin :
        (seq : ℕ) (c : Client)
        → IsAnchored net node second start c
        → Ends net node second start PageIsWithin (collect net w k token cutoff seq c)
    unfolding collect
    collect-PageIsWithin seq c a =
        go_on-Ends net node second start PageIsWithin (history net token seq page_size c) _
          (history-Ends net node second start token seq page_size c a)
          (λ es c' a' _.
            collect_entries-Ends es (empty_page net w k token cutoff es) c' a' (tt, inl refl, refl))
