-- ===== src/Tests/Backfills.antt =====
-- The theorems on the replay of a history, at concrete inputs.
use koinos_token_tracker.Base.{
  ◌≡◌, refl, true, false, none, some, List, [], ◌∷◌, All, map, inl, inr, is_empty, arith,
}
use koinos_token_tracker.Base.Text.{Text, codes, text_eq, contains, has_prefix}
use koinos_token_tracker.Store.Types.{Backfill}
use koinos_token_tracker.Store.Batch.Lock.{Settles}
use koinos_token_tracker.Backfill.{Op, BlockInfo}
use koinos_token_tracker.Backfill.Apply.{apply}
use koinos_token_tracker.Backfill.Decode.{Codecs, RawLoop, raw_loop}
use koinos_token_tracker.Backfill.Decode.Strict.{raw_loop-strict}
use koinos_token_tracker.Backfill.Effect.{page_effect, apply-Settles}
use koinos_token_tracker.Backfill.Live.{IsTracked, Tells, live_events, apply-live}
use koinos_token_tracker.Backfill.Ops.{HistoryEvent, ops_of}
use koinos_token_tracker.Backfill.Ops.Usable.{IsUsable, ops_of-IsUsable}
use koinos_token_tracker.Tests.Toy.{toy, toy-IsWire}
use koinos_token_tracker.Tests.Blocks.{config, paid, burnt}
use koinos_token_tracker.Config.{TokenTrackerConfig, is_extra}
use koinos_token_tracker.Base.TextSet.{member}
use koinos_token_tracker.Base.Iterate.{iterate}
use koinos_token_tracker.Indexer.Types.{EventData}
use koinos_token_tracker.Indexer.Event.{names_event, is_unusable}
use koinos_token_tracker.Indexer.Parse.{
  encode_addr, transfer_field, party_field, transfer_round, party_round, parse_transfer_event,
  parse_burn_event,
}
use koinos_token_tracker.Store.Action.{ok}
use koinos_token_tracker.Store.Producers.Answered.{calm}
use koinos_token_tracker.Tests.Stores.{faulty}

abbrev pub carol : Text
carol = codes "11111111111111111111"

-- Every object decodes to a mint of 25 to carol, and nothing else decodes.
abbrev pub toy_codecs : Codecs
toy_codecs = record {
  trim_space = λ b. b;
  json_object = λ b.
      some (record { sender = []; receiver = codes "11111111111111111111"; value = codes "25" });
  json_string = λ b. none;
  base64_url = λ t. none;
  base64_std = λ t. none;
  consume_field_value = λ n t b. none;
}

abbrev pub minted : HistoryEvent
minted = record { source = codes "T"; name = codes "t.mint_event"; payload = codes "{}" }

abbrev at_block : BlockInfo
at_block = record { height = 12; timestamp = 77 }

abbrev pub op : Op
op = record {
  seq = 4;
  height = 12;
  timestamp = 77;
  tx_id = [];
  event_type = codes "mint";
  sender = [];
  receiver = codes "11111111111111111111";
  value = 25;
}

minted-ops : ops_of toy toy_codecs (codes "T") 4 at_block [] (minted ∷ []) ≡ some (op ∷ [])
unfolding ops_of text_eq
minted-ops = refl

ops_of-IsUsable_example : All (IsUsable 4 at_block) (op ∷ [])
ops_of-IsUsable_example =
    ops_of-IsUsable toy toy_codecs (codes "T") 4 at_block [] (minted ∷ []) (op ∷ []) minted-ops

abbrev pub progress : Backfill
progress = record {
  token = codes "T";
  next_seq = 5;
  cutoff_height = 30;
  done = false;
  verified = false;
  mismatches = 0;
  failures = 0;
  updated_at = 0;
}

apply-Settles_example :
    Settles faulty
      (page_effect (codes "T") (op ∷ []) progress faulty.now faulty.db)
      (apply (codes "T") (op ∷ []) progress faulty)
apply-Settles_example = apply-Settles (codes "T") (op ∷ []) progress faulty refl refl

abbrev tracking : TokenTrackerConfig
tracking = record config { extra_tokens = codes "T" ∷ [] }

abbrev burn_op : Op
burn_op = record op { event_type = codes "burn"; sender = codes "bob"; receiver = []; value = 2 }

abbrev transfer_op : Op
transfer_op = record op {
  event_type = codes "transfer";
  sender = codes "alice";
  receiver = codes "bob";
  value = 30;
}

-- The replayed operations with the events that the blocks have for them.
abbrev told : List (Op × EventData)
told =
    (transfer_op, record paid { source = codes "T" })
    ∷ (burn_op, record burnt { source = codes "T" })
    ∷ []

told-Tells : All (λ p. Tells toy tracking (codes "T") p.0 p.1) told
unfolding names_event contains has_prefix text_eq encode_addr parse_transfer_event parse_burn_event
    transfer_round transfer_field party_round party_field iterate is_unusable
told-Tells = (
  (refl, refl, inl (refl, refl, refl, refl, refl)),
  ((refl, refl, inr (inr (refl, refl, refl, refl, refl, refl))), tt),
)

tracking-IsTracked : IsTracked toy tracking (codes "T")
unfolding is_extra text_eq member
tracking-IsTracked = (refl, refl, refl, refl)

apply-live_example :
    ((apply (codes "T") (map (λ p. p.0) told) progress faulty).0 ≡ ok tt
      → (apply (codes "T") (map (λ p. p.0) told) progress faulty).1.db.balances
        ≡ (live_events toy tracking (codes "T") told (calm faulty)).1.db.balances)
    × ((apply (codes "T") (map (λ p. p.0) told) progress (calm faulty)).0 ≡ ok tt)
    × ((live_events toy tracking (codes "T") told (calm faulty)).0 ≡ ok tt)
apply-live_example =
    apply-live toy tracking (codes "T") told progress faulty tracking-IsTracked told-Tells refl refl

abbrev unread : RawLoop
unread = record { rest = 16 ∷ 9 ∷ []; addr1 = []; addr2 = []; num1 = 0; num2 = 0; num3 = 0 }

abbrev all_read : RawLoop
all_read = record { rest = []; addr1 = []; addr2 = []; num1 = 0; num2 = 9; num3 = 0 }

unread-loop : raw_loop toy toy_codecs 2 unread ≡ some all_read
unfolding raw_loop
unread-loop = refl

raw_loop-strict_example : is_empty all_read.rest ≡ true
raw_loop-strict_example =
    raw_loop-strict toy toy_codecs 2 unread all_read toy-IsWire (omega arith) unread-loop
