-- ===== src/Tests/Texts.antt =====
-- The theorems on decimal texts, configurations and transaction ids, at concrete inputs.
use koinos_token_tracker.Base.{ℕ, zero, suc, ◌≡◌, refl, none, some, [], ◌∷◌, ◌++◌, arith, ltb}
use koinos_token_tracker.Base.Text.{Bytes, codes}
use koinos_token_tracker.Decimal.{print}
use koinos_token_tracker.Decimal.Order.{decimal_ltb, decimal_ltb-print}
use koinos_token_tracker.Config.{YamlTokenTracker, load}
use koinos_token_tracker.Config.Load.{Outcome, load-HasContracts}
use koinos_token_tracker.Sync.Process.{encode_hex}
use koinos_token_tracker.Backfill.Decode.{tx_id_base58}
use koinos_token_tracker.Backfill.Decode.TxId.{tx_id_base58-encode_hex}
use koinos_token_tracker.Tests.Toy.{toy}

decimal_ltb-print_example : decimal_ltb (print 99) (print 100) ≡ ltb 99 100
decimal_ltb-print_example = decimal_ltb-print 99 100

-- A file with one blank and one new contract.
abbrev section : YamlTokenTracker
section = record {
  koin_contract = some [];
  vhp_contract = some (codes "V2");
  old_koin_contract = none;
  old_vhp_contract = none;
  kcs4_migration_height = some 0;
}

load-HasContracts_example :
    Outcome (load (λ _. some (codes "yaml")) (λ _. some section) (codes "config.yml"))
load-HasContracts_example =
    load-HasContracts (λ _. some (codes "yaml")) (λ _. some section) (codes "config.yml")

abbrev repeated : ℕ → Bytes
repeated zero = []
repeated (suc n) = 171 ∷ repeated n

tx_id_base58-encode_hex_example :
    tx_id_base58 toy (codes "0x" ++ encode_hex (18 ∷ 32 ∷ repeated 32))
    ≡ some (toy.encode (18 ∷ 32 ∷ repeated 32))
tx_id_base58-encode_hex_example = tx_id_base58-encode_hex toy (repeated 32) (omega arith) refl
