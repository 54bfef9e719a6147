-- ===== src/Indexer/Block/Addresses.antt =====
-- The addresses and the balance changes of a block's result.
use koinos_token_tracker.Base.{
  ◌≡◌, true, false, Option, none, some, List, [], ◌∷◌, is_empty, arith, All,
}
use koinos_token_tracker.Base.Text.{Text, text_eq_refl}
use koinos_token_tracker.Base.TextSet.{TextSet, member, IsDistinct, member-add}
use koinos_token_tracker.Config.{TokenTrackerConfig}
use koinos_token_tracker.Wire.{Wire}
use koinos_token_tracker.Indexer.Types.{Transaction, Block, BlockReceipt, BalanceChange}
use koinos_token_tracker.Indexer.Event.{note_address}
use koinos_token_tracker.Indexer.Event.Sound.{
  IsSound, FoundIsSound, note_address-IsDistinct, process_event-FoundIsSound,
}
use koinos_token_tracker.Indexer.Block.{
  nothing_found, header_height, header_signer, note_changes, note_transactions, note_block,
  found_in, result_of,
}
use koinos_token_tracker.Indexer.Block.Induction.{process_block_receipt-keeps}

note_changes-IsDistinct :
    (cs : List BalanceChange) (s : TextSet) → IsDistinct s → IsDistinct (note_changes cs s)
unfolding note_changes
note_changes-IsDistinct [] s d = d
note_changes-IsDistinct (c ∷ cs) s d =
    note_changes-IsDistinct cs _ (note_address-IsDistinct c.address s d)

note_address-keeps :
    (a b : Text) (s : TextSet) → member a s ≡ true → member a (note_address b s) ≡ true
unfolding note_address
note_address-keeps a b s h = ground (arith, member-add a b s)

note_changes-keeps :
    (a : Text) (cs : List BalanceChange) (s : TextSet)
    → member a s ≡ true
    → member a (note_changes cs s) ≡ true
unfolding note_changes
note_changes-keeps a [] s h = h
note_changes-keeps a (c ∷ cs) s h = note_changes-keeps a cs _ (note_address-keeps a c.address s h)

note_address-member :
    (a : Text) (s : TextSet) → is_empty a ≡ false → member a (note_address a s) ≡ true
unfolding note_address
note_address-member a s h = ground (arith, member-add a a s, text_eq_refl a)

note_changes-members :
    (cs : List BalanceChange) (s : TextSet)
    → All IsSound cs
    → All (λ c. member c.address (note_changes cs s) ≡ true) cs
unfolding note_changes
note_changes-members [] s h = tt
note_changes-members (c ∷ cs) s h = (
  note_changes-keeps c.address cs _ (note_address-member c.address s h.0.0),
  note_changes-members cs _ h.1,
)

module _ (w : Wire) where
  note_transactions-IsDistinct :
      (txs : List (Option Transaction)) (s : TextSet)
      → IsDistinct s
      → IsDistinct (note_transactions w txs s)
  unfolding note_transactions
  note_transactions-IsDistinct [] s d = d
  note_transactions-IsDistinct (none ∷ txs) s d = note_transactions-IsDistinct txs s d
  note_transactions-IsDistinct (some tx ∷ txs) s d =
      grind (arith, note_transactions-IsDistinct txs, note_address-IsDistinct)

  note_block-IsDistinct : (b : Block) → IsDistinct (note_block w b)
  unfolding note_block
  note_block-IsDistinct b =
      note_transactions-IsDistinct b.transactions _
        (note_address-IsDistinct (header_signer w b.header) [] tt)

  -- A block's result lists each address once, each of its balance changes has a delta that is not
  -- zero and lies within ±(2^63 - 1), and the change's address is not blank and is listed.
  pub result_of-IsSound :
      (cfg : TokenTrackerConfig) (b : Block) (receipt : Option BlockReceipt)
      → let r = result_of w cfg b receipt in
        IsDistinct r.addresses
        × All IsSound r.balance_changes
        × All (λ c. member c.address r.addresses ≡ true) r.balance_changes
  unfolding result_of found_in
  result_of-IsSound cfg b receipt =
      let h =
        process_block_receipt-keeps w cfg (header_height b.header) FoundIsSound
          (λ ev tx_id f. process_event-FoundIsSound w cfg ev tx_id (header_height b.header) f)
          b.transactions receipt (record nothing_found { addresses = note_block w b })
          (note_block-IsDistinct b, tt) in
      (note_changes-IsDistinct _ _ h.0, h.1, note_changes-members _ _ h.1)
