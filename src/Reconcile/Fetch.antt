-- ===== src/Reconcile/Fetch.antt =====
-- fetchBalance and fetchBalanceWithRetry of internal/reconcile.
use koinos_token_tracker.Base.{
  ℕ, zero, suc, ◌||◌, not, Option, none, some, ◌==◌, is_empty, if◌then◌else◌,
}
use koinos_token_tracker.Base.Text.{Text, codes}
use koinos_token_tracker.Reconcile.Amount.{decimal_to_satoshis}

-- What client.Get gives: an error, or the status and the decoded balanceResponse (`none` if its
-- body is no such JSON).
pub data Reply : Type 0 where
  unreachable : Reply
  answered : ℕ → Option Text → Reply

abbrev pub satoshis : Option Text → Option Text
satoshis none = none
satoshis (some value) =
    let sat = decimal_to_satoshis value in if is_empty sat then none else some sat

-- The status "ok" is `some`, and "error" is `none`.
unfoldable pub fetch_balance : Reply → Option Text
unfolding decimal_to_satoshis
fetch_balance unreachable = none
fetch_balance (answered status value) =
    if (status == 400) || (status == 404)
    then some (codes "0")
    else if not (status == 200)
    then none
    else satoshis value

-- The attempts that are left, from one on.
unfoldable pub attempts : (ℕ → Reply) → ℕ → ℕ → Option Text
unfolding fetch_balance
attempts reply zero attempt = none
attempts reply (suc left) attempt = elim (fetch_balance (reply attempt)) [
  | some balance ↦ some balance
  | none ↦ attempts reply left (suc attempt)
]

abbrev pub max_retries : ℕ
max_retries = 3

unfoldable pub fetch_balance_with_retry : (ℕ → Reply) → Option Text
unfolding attempts
fetch_balance_with_retry reply = attempts reply max_retries 0
