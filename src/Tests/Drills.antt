-- ===== src/Tests/Drills.antt =====
-- The theorem on the dry run, at a concrete page, and a dry run.
use koinos_token_tracker.Base.{
  ℕ, ◌≡◌, ◌≢◌, ◌≤◌, refl, arith, inl, inr, true, none, some, [], ◌∷◌, Bool-cases, if◌then◌else◌,
}
use koinos_token_tracker.Base.Int.{pos}
use koinos_token_tracker.Base.Text.{codes, text_eq}
use koinos_token_tracker.Base.Table.{find}
use koinos_token_tracker.Decimal.{set_string}
use koinos_token_tracker.Store.Reads.{balance_of}
use koinos_token_tracker.Backfill.Apply.{apply}
use koinos_token_tracker.Backfill.Client.{Net, answered, new_client}
use koinos_token_tracker.Backfill.DryRun.{Holdings, dry_run}
use koinos_token_tracker.Backfill.Run.{out_of_fuel}
use koinos_token_tracker.Backfill.DryRun.Deadline.{dry_run-Returns}
use koinos_token_tracker.Backfill.DryRun.Agrees.{Agrees, KeepsUp, apply-KeepsUp}
use koinos_token_tracker.Tests.Toy.{toy}
use koinos_token_tracker.Tests.Stores.{funded, faulty}
use koinos_token_tracker.Tests.Backfills.{toy_codecs, carol, op, progress}
use koinos_token_tracker.Tests.Runs.{net, entry}

abbrev held : Holdings
held a = if text_eq (codes "alice") a then some (pos 40) else none

held-Agrees : Agrees (codes "K") held funded
unfolding balance_of find set_string
held-Agrees a = elim (Bool-cases (text_eq (codes "alice") a)) [
  | inl h ↦ rw (h, balance_of, find) (unfold text_eq in refl)
  | inr h ↦ rw (h, balance_of, find) refl
]

apply-KeepsUp_example :
    KeepsUp (codes "K") (op ∷ []) held (apply (codes "K") (op ∷ []) progress faulty)
apply-KeepsUp_example =
    apply-KeepsUp (codes "K") (op ∷ []) progress held faulty refl refl held-Agrees

-- One page of one block, whatever its path.
abbrev drill_net : Net
drill_net = record net {
  reply = λ t url. answered 200 (b'[' ∷ []);
  json_page = λ b. some (entry ∷ []);
}

drilled : (dry_run drill_net toy toy_codecs (codes "T") 3 (codes "n/") []).1 carol ≡ some (pos 25)
unfolding dry_run new_client
drilled = refl

cancelled_late : (t : ℕ) → 50 ≤ t → drill_net.is_cancelled t ≡ true
cancelled_late t h = ground arith

dry_run-Returns_example :
    (dry_run drill_net toy toy_codecs (codes "T") 51 (codes "n/") []).0 ≢ out_of_fuel
dry_run-Returns_example =
    dry_run-Returns drill_net toy toy_codecs (codes "T") (codes "n/") [] 50 cancelled_late
