-- ===== src/Backfill/Client/Anchored.antt =====
-- What the client's maps hold, and that its requests keep it.
use mathlib.Core.Path.{subst}
use koinos_token_tracker.Base.{
  ℕ, zero, suc, ◌≤◌, ◌≡◌, refl, Bool, true, false, ◌&&◌, ◌||◌, not, Option, none, some, ◌++◌,
  is_empty, ◌⊎◌, inl, inr, Bool-cases, Option-cases, All, arith, ◌==◌, ==_iff,
}
use koinos_token_tracker.Base.Text.{Bytes, Text, codes}
use koinos_token_tracker.Decimal.{print}
use koinos_token_tracker.Backfill.{BlockInfo}
use koinos_token_tracker.Backfill.Client.{
  Net, Reply, unmade, broken, answered, BlockResponse, Client, Ask, tick, go_on, equal_fold,
  is_final, attempts, get_json, or_fallback, get_json_or_fallback, max_retries,
}

Reply-cases :
    (r : Reply)
    → (r ≡ unmade) ⊎ (r ≡ broken) ⊎ ((status : ℕ) × (body : Bytes) × (r ≡ answered status body))
Reply-cases unmade = inl refl
Reply-cases broken = inr (inl refl)
Reply-cases (answered status body) = inr (inr (status, body, refl))

module _ (net : Net) where
  -- At some time the node answered a request for the URL with status 200 and a body that decodes so.
  abbrev pub Answered : {A : Type 0} → (Bytes → Option A) → Text → A → Type 0
  Answered decode url a =
      (t : ℕ) × (body : Bytes) × ((net.reply t url ≡ answered 200 body) × (decode body ≡ some a))

  module _ (node : Text) where
    -- The primary node named the block at the height.
    abbrev pub IsNamed : ℕ × Text → Type 0
    IsNamed (h, id) =
        (b : BlockResponse) × (Answered net.json_block (node ++ (codes "/v1/block/" ++ print h)) b
          × (b.block_id ≡ id))

    -- The primary node's block at the position's height is the block of this id.
    abbrev pub IsCanonical : Text × BlockInfo → Type 0
    IsCanonical (id, b) = (i : Text) × (IsNamed (b.height, i) × (equal_fold i id ≡ true))

  module _ (node second : Text) (start : ℕ) where
    -- The client asks these two nodes, its maps hold what the primary one says, and the time is
    -- `start` or later.
    abbrev pub IsAnchored : Client → Type 0
    IsAnchored c =
        (c.rest ≡ node)
        × (c.fallback ≡ second)
        × All (IsNamed node) c.canon
        × All (IsCanonical node) c.blocks
        × (start ≤ c.time)

    pub IsAnchored-tick : (c : Client) → IsAnchored c → IsAnchored (tick c)
    IsAnchored-tick c h = (h.0, h.1, h.2, h.3, omega arith)

    abbrev pub Gives : {A : Type 0} → (A → Type 0) → Option A → Type 0
    Gives P none = Unit {0}
    Gives P (some a) = P a

    abbrev pub Ends : {A : Type 0} → (A → Type 0) → Option A × Client → Type 0
    Ends P (r, c) = IsAnchored c × Gives P r

    decoded-Gives :
        {A : Type 0} (decode : Bytes → Option A) (url : Text) (t : ℕ) (body : Bytes)
        → net.reply t url ≡ answered 200 body
        → Gives (Answered decode url) (decode body)
    decoded-Gives decode url t body e = elim (Option-cases (decode body)) [
      | inl n ↦ rw (n, Gives) tt
      | inr (a, n) ↦ rw (n, Gives) (t, body, (e, n))
    ]

    attempts-Ends :
        {A : Type 0} (decode : Bytes → Option A) (url : Text) (left : ℕ) (first : Bool) (c : Client)
        → IsAnchored c
        → Ends (Answered decode url) (attempts net decode url left first c)
    unfolding attempts
    attempts-Ends decode url zero first c h = (h, tt)
    attempts-Ends decode url (suc left) first c h =
        elim (Bool-cases (not first && net.is_cancelled c.time)) [
          | inl s ↦ rw (s, attempts, Ends) (IsAnchored-tick c h, tt)
          | inr s ↦ elim (Reply-cases (net.reply c.time url)) [
            | inl e ↦ rw (s, e, attempts, Ends) (IsAnchored-tick c h, tt)
            | inr (inl e) ↦
                rw (s, e, attempts, Ends)
                  (attempts-Ends decode url left false (tick c) (IsAnchored-tick c h))
            | inr (inr (status, body, e)) ↦ elim (Bool-cases (status == 200)) [
              | inl o ↦
                  rw (s, e, o, attempts, Ends)
                    (
                      IsAnchored-tick c h,
                      decoded-Gives decode url c.time body (
                          subst (λ n. net.reply c.time url ≡ answered n body)
                            ((==_iff status 200).0 o) e),
                    )
              | inr o ↦ elim (Bool-cases (is_final status)) [
                | inl f ↦ rw (s, e, o, f, attempts, Ends) (IsAnchored-tick c h, tt)
                | inr f ↦
                    rw (s, e, o, f, attempts, Ends)
                      (attempts-Ends decode url left false (tick c) (IsAnchored-tick c h))
              ]
            ]
          ]
        ]

    pub get_json-Ends :
        {A : Type 0} (decode : Bytes → Option A) (path : Text) (c : Client)
        → IsAnchored c
        → Ends (Answered decode (node ++ path)) (get_json net decode path c)
    unfolding get_json
    get_json-Ends decode path c h =
        subst (λ base. Ends (Answered decode (base ++ path)) (get_json net decode path c)) h.0
          (attempts-Ends decode (c.rest ++ path) max_retries true c h)

    -- One of the nodes answered a request for the path so.
    abbrev pub AnsweredByOne : {A : Type 0} → (Bytes → Option A) → Text → A → Type 0
    AnsweredByOne decode path a =
        Answered decode (node ++ path) a ⊎ Answered decode (second ++ path) a

    pub Ends-weaken :
        {A : Type 0} {P Q : A → Type 0} (x : Option A × Client)
        → ((a : A) → P a → Q a)
        → Ends P x
        → Ends Q x
    Ends-weaken (none, c) f e = (e.0, tt)
    Ends-weaken (some a, c) f e = (e.0, f a e.1)

    or_fallback-Ends :
        {A : Type 0} (decode : Bytes → Option A) (path : Text) (r : Option A) (c : Client)
        → Ends (Answered decode (node ++ path)) (r, c)
        → Ends (AnsweredByOne decode path) (or_fallback net decode path r c)
    or_fallback-Ends decode path (some a) c e = (e.0, inl e.1)
    or_fallback-Ends decode path none c e =
        elim (Bool-cases (is_empty c.fallback || net.is_cancelled c.time)) [
          | inl o ↦ rw (o, Ends) (IsAnchored-tick c e.0, tt)
          | inr o ↦
              rw (o, Ends)
                (Ends-weaken (attempts net decode (c.fallback ++ path) max_retries true (tick c))
                  (λ a. inr)
                  (subst
                    (λ base.
                      Ends (Answered decode (base ++ path))
                        (attempts net decode (c.fallback ++ path) max_retries true (tick c)))
                    e.0.1
                    (attempts-Ends decode (c.fallback ++ path) max_retries true (tick c)
                      (IsAnchored-tick c e.0))))
        ]

    pub go_on-Ends :
        {A B : Type 0} {P : A → Type 0} (Q : B → Type 0) (x : Option A × Client) (f : A → Ask B)
        → Ends P x
        → ((a : A) (c : Client) → IsAnchored c → P a → Ends Q (f a c))
        → Ends Q (go_on x.0 f x.1)
    go_on-Ends Q (none, c) f e k = (e.0, tt)
    go_on-Ends Q (some a, c) f e k = k a c e.0 e.1

    pub get_json_or_fallback-Ends :
        {A : Type 0} (decode : Bytes → Option A) (path : Text) (c : Client)
        → IsAnchored c
        → Ends (AnsweredByOne decode path) (get_json_or_fallback net decode path c)
    unfolding get_json_or_fallback
    get_json_or_fallback-Ends decode path c h =
        or_fallback-Ends decode path _ _ (get_json-Ends decode path c h)
