-- ===== src/Reconcile/Check/Verified.antt =====
-- What a verified check says.
use mathlib.Core.Path.{subst}
use koinos_token_tracker.Base.{
  ℕ, suc, ◌+◌, ◌^◌, ◌≤◌, ◌<◌, ◌≡◌, ◌≢◌, refl, sym, ◌∙◌, Bool, true, false, Option, none, some, List,
  [], ◌∷◌, length, ltb, inl, inr, ap, arith, All, Bool-cases,
}
use koinos_token_tracker.Base.Sort.{sort}
use koinos_token_tracker.Base.Sort.Rows.{All-sort, length-sort, take-all}
use koinos_token_tracker.Base.Text.{Text, text_eq, text_eq_iff}
use koinos_token_tracker.Decimal.{print}
use koinos_token_tracker.Wire.{Wire}
use koinos_token_tracker.Store.Types.{Balance, Store, current}
use koinos_token_tracker.Store.Action.{Error, Result, ok, err, blocked}
use koinos_token_tracker.Store.Reads.{holds_more, get_top_holders}
use koinos_token_tracker.Store.Reads.Holders.{holders_of, Ranks, get_top_holders-Ranks}
use koinos_token_tracker.Reconcile.Check.{
  Rpc, balance_of, Detail, CheckResult, is_verified, CheckEnd, checked_all, interrupted, no_holders,
  stuck, detailed, compared, check_holders, empty_check, of_holders, check_token,
}

false-true : false ≢ true
false-true z = cc

no_holders-checked : {e : Error} {r : CheckResult} → no_holders e ≢ checked_all r
no_holders-checked z = cc

suc-zero : (n : ℕ) → n + 1 ≢ 0
suc-zero n e = omega arith

module _ (w : Wire) (rpc : Rpc) (token : Text) where
  -- At some time the chain's answer for the address is the stored balance.
  abbrev pub Agrees : Balance → Type 0
  Agrees h =
      (t : ℕ) × (v : ℕ) × (((balance_of w rpc token h.address t).0 ≡ some v)
        × (print v ≡ h.balance))

  -- The counts only grow.
  detailed_same :
      (d : Detail) (r : CheckResult)
      → ((detailed d r).failures ≡ r.failures)
        × ((detailed d r).mismatches ≡ r.mismatches)
        × ((detailed d r).checked ≡ r.checked)
  detailed_same d r = elim (Bool-cases (ltb (length r.details) 20)) [
    | inl e ↦ rw e (refl, refl, refl)
    | inr e ↦ rw e (refl, refl, refl)
  ]

  abbrev Clean : CheckResult → Type 0
  Clean r = (r.failures ≡ 0) × (r.mismatches ≡ 0)

  compared-Clean :
      (h : Balance) (o : Option ℕ) (r : CheckResult)
      → Clean (compared h o r)
      → Clean r × ((v : ℕ) × ((o ≡ some v) × (print v ≡ h.balance)))
  unfolding compared
  compared-Clean h none r c =
      absurd (
        suc-zero r.failures
          (sym (detailed_same _ (record r { failures = r.failures + 1 })).0 ∙ c.0))
  compared-Clean h (some v) r c = elim (Bool-cases (text_eq (print v) h.balance)) [
    | inl e ↦ (rw (e, compared) at c, (v, (refl, (text_eq_iff (print v) h.balance).0 e)))
    | inr e ↦
        let c' = rw (e, compared) at c in
        absurd (
          suc-zero r.mismatches
            (sym (detailed_same _ (record r { mismatches = r.mismatches + 1 })).1 ∙ c'.1))
  ]

  abbrev EndIsClean : CheckEnd → Type 0
  EndIsClean (checked_all r) = Clean r
  EndIsClean (interrupted r) = ⊥
  EndIsClean (no_holders e) = ⊥
  EndIsClean stuck = ⊥

  check_holders-Agrees :
      (hs : List Balance) (r : CheckResult) (t : ℕ)
      → EndIsClean (check_holders w rpc token hs r t)
      → Clean r × All Agrees hs
  unfolding check_holders
  check_holders-Agrees [] r t c = (c, tt)
  check_holders-Agrees (h ∷ hs) r t c = elim (Bool-cases (rpc.is_cancelled t)) [
    | inl x ↦ absurd (rw (x, check_holders, EndIsClean) at c)
    | inr x ↦
        let answer = balance_of w rpc token h.address (suc t) in
        let (clean, rest) =
          check_holders-Agrees hs (compared h answer.0 r) answer.1 (rw (x, check_holders) at c) in
        let (before, agrees) = compared-Clean h answer.0 r clean in
        (before, ((suc t, agrees.0, agrees.1), rest))
  ]

  is_verified-Clean : (r : CheckResult) → is_verified r ≡ true → Clean r
  unfolding is_verified
  is_verified-Clean r h = (ground arith, ground arith)

  abbrev end_verified : CheckEnd → Bool
  end_verified (checked_all r) = is_verified r
  end_verified (interrupted r) = false
  end_verified (no_holders e) = false
  end_verified stuck = false

  some_checked :
      (hs : List Balance) (r : CheckResult)
      → check_holders w rpc token hs (empty_check w rpc token hs) 0 ≡ checked_all r
      → is_verified r ≡ true
      → 0 < length hs
  unfolding check_holders is_verified
  some_checked [] r e v = absurd (false-true (ap end_verified e ∙ v))
  some_checked (h ∷ hs) r e v = omega arith

  ranked-Agrees :
      (s : Store) (r : CheckResult) (x : Result (List Balance × ℕ)) (s' : Store)
      → Ranks token (2 ^ 30) 0 s x
      → (of_holders w rpc token (x, s')).0 ≡ checked_all r
      → is_verified r ≡ true
      → length (holders_of token (current s)) ≤ 2 ^ 30
      → (0 < length (holders_of token (current s))) × All Agrees (holders_of token (current s))
  ranked-Agrees s r (ok (hs, n)) s' k e v few =
      let all =
        take-all (2 ^ 30) (sort holds_more (holders_of token (current s)))
          (omega (arith, few, length-sort holds_more (holders_of token (current s)))) in
      let checked =
        (check_holders-Agrees hs (empty_check w rpc token hs) 0
          (subst EndIsClean (sym e) (is_verified-Clean r v))).1 in
      (
        subst (λ n. 0 < n)
            (ap length (k.0 ∙ all) ∙ length-sort holds_more (holders_of token (current s)))
            (some_checked hs r e v),
        All-sort Agrees holds_more (holders_of token (current s))
            (subst (All Agrees) (k.0 ∙ all) checked),
      )
  ranked-Agrees s r (err x) s' k e v few = absurd (no_holders-checked e)
  ranked-Agrees s r blocked s' k e v few = absurd k

  -- If CheckToken answers without an error and the result is verified, then the token has a holder,
  -- and for each of its rows with a balance other than "0", up to 2^30 of them, the chain answered
  -- with that balance.
  pub check_token-Agrees :
      (s : Store) (r : CheckResult)
      → (check_token w rpc token s).0 ≡ checked_all r
      → is_verified r ≡ true
      → length (holders_of token (current s)) ≤ 2 ^ 30
      → (0 < length (holders_of token (current s))) × All Agrees (holders_of token (current s))
  unfolding check_token
  check_token-Agrees s r e v few =
      ranked-Agrees s r (get_top_holders token (2 ^ 30) 0 s).0
        (get_top_holders token (2 ^ 30) 0 s).1 (get_top_holders-Ranks token (2 ^ 30) 0 s) e v few
