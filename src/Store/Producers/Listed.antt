-- ===== src/Store/Producers/Listed.antt =====
-- Which addresses GetProducers lists, and with how many blocks.
use mathlib.Core.Path.{subst}
use koinos_token_tracker.Base.{
  ℕ, ◌+◌, ◌≡◌, refl, sym, ap, inl, inr, true, false, ◌||◌, List, [], ◌∷◌, filter, map, length, any,
  All, arith, Bool-cases, if◌then◌else◌,
}
use koinos_token_tracker.Base.Text.{Text, codes, text_eq, text_eq_iff, text_eq_refl}
use koinos_token_tracker.Base.TextSet.{TextSet, member, add, member-add, IsDistinct, add-IsDistinct}
use koinos_token_tracker.Base.Table.{upsert}
use koinos_token_tracker.Store.Types.{Balance, Block}
use koinos_token_tracker.Store.Producers.{
  Entry, is_signed, signers, group_of, is_entry_of, signer_entry, holder_entry, with_vhp,
  put_signers, total_of, put_holders,
}

abbrev pub keys : List Entry → TextSet
keys m = map (λ e. e.address) m

keys-upsert :
    (a : Text) (fresh : Entry) (merge : Entry → Entry) (m : List Entry)
    → fresh.address ≡ a
    → ((e : Entry) → text_eq e.address a ≡ true → (merge e).address ≡ e.address)
    → keys (upsert (is_entry_of a) fresh merge m) ≡ add a (keys m)
unfolding upsert add member
keys-upsert a fresh merge [] new same = ap (λ x. x ∷ []) new
keys-upsert a fresh merge (e ∷ m) new same = elim (Bool-cases (text_eq e.address a)) [
  | inl h ↦ rw (h) (ap (λ x. x ∷ keys m) (same e h))
  | inr h ↦ rw (h, keys-upsert a fresh merge m new same) ground arith
]

abbrev pub count : Text → List Block → ℕ
count a blocks = length (filter (is_signed a) blocks)

count_none :
    (a : Text) (blocks : List Block) → member a (signers blocks) ≡ false → count a blocks ≡ 0
count_none a [] h = refl
count_none a (b ∷ bs) h = ground (arith, count_none a bs, member-add a b.signer (signers bs))

pub signers-IsDistinct : (blocks : List Block) → IsDistinct (signers blocks)
signers-IsDistinct [] = tt
signers-IsDistinct (b ∷ bs) = add-IsDistinct b.signer (signers bs) (signers-IsDistinct bs)

-- How often a text is in a list.
abbrev times : Text → TextSet → ℕ
times a [] = 0
times a (x ∷ s) = (if text_eq a x then 1 else 0) + times a s

times_none : (a : Text) (s : TextSet) → member a s ≡ false → times a s ≡ 0
unfolding member
times_none a [] h = refl
times_none a (x ∷ s) h = ground (arith, times_none a s, text_eq_iff a x, text_eq_iff x a)

times_once : (a : Text) (s : TextSet) → IsDistinct s → member a s ≡ true → times a s ≡ 1
unfolding member
times_once a [] d h = cc
times_once a (x ∷ s) d h = elim (Bool-cases (text_eq x a)) [
  | inl e ↦
      let same = (text_eq_iff x a).0 e in
      ground (
        arith,
        text_eq_refl a,
        text_eq_iff a x,
        sym same,
        times_none a s (subst (λ y. member y s ≡ false) same d.0),
      )
  | inr e ↦ ground (arith, times_once a s d.1, text_eq_iff a x, text_eq_iff x a)
]

total-step :
    (b : Block) (bs : List Block) (s : TextSet)
    → total_of (map (group_of (b ∷ bs)) s) ≡ times b.signer s + total_of (map (group_of bs) s)
total-step b bs [] = refl
total-step b bs (x ∷ s) = ground (arith, total-step b bs s)

-- The counts of the groups sum to the number of the rows.
pub total-length :
    (blocks : List Block) (s : TextSet)
    → IsDistinct s
    → ((a : Text) → member a (signers blocks) ≡ true → member a s ≡ true)
    → total_of (map (group_of blocks) s) ≡ length blocks
total-length [] s d h = no_rows s
  where
    no_rows : (s : TextSet) → total_of (map (group_of []) s) ≡ 0
    no_rows [] = refl
    no_rows (x ∷ s) = omega (arith, no_rows s)
total-length (b ∷ bs) s d h =
    let listed : (a : Text)
        → member a (signers (b ∷ bs)) ≡ (text_eq b.signer a || member a (signers bs)) =
      λ a. member-add a b.signer (signers bs) in
    let rest = total-length bs s d (λ a k. h a (ground (arith, listed a))) in
    let own = h b.signer (ground (arith, listed b.signer, text_eq_refl b.signer)) in
    omega (arith, total-step b bs s, rest, times_once b.signer s d own)

-- No entry has a key that is not listed.
others :
    (P Q : Entry → Type 0) (a : Text) (m : List Entry)
    → member a (keys m) ≡ false
    → ((e : Entry) → text_eq e.address a ≡ false → P e → Q e)
    → All P m
    → All Q m
unfolding member
others P Q a [] new keep h = tt
others P Q a (e ∷ m) new keep h =
    (keep e (ground (arith, new)) h.0, others P Q a m (ground (arith, new)) keep h.1)

-- What the entries have after an upsert: the new one, the merged one, and the others.
upsert-All_keyed :
    (P Q : Entry → Type 0) (a : Text) (fresh : Entry) (merge : Entry → Entry) (m : List Entry)
    → (member a (keys m) ≡ false → Q fresh)
    → ((e : Entry) → e.address ≡ a → P e → Q (merge e))
    → ((e : Entry) → text_eq e.address a ≡ false → P e → Q e)
    → IsDistinct (keys m)
    → All P m
    → All Q (upsert (is_entry_of a) fresh merge m)
unfolding upsert member
upsert-All_keyed P Q a fresh merge [] new change keep d h = (new refl, tt)
upsert-All_keyed P Q a fresh merge (e ∷ m) new change keep d h =
    elim (Bool-cases (text_eq e.address a)) [
      | inl x ↦
          let same = (text_eq_iff e.address a).0 x in
          rw x (
            change e same h.0,
            others P Q a m (subst (λ y. member y (keys m) ≡ false) same d.0) keep h.1,
          )
      | inr x ↦ rw x (
        keep e x h.0,
        upsert-All_keyed P Q a fresh merge m (λ k. new (ground (arith, x, k))) change keep d.1 h.1,
      )
    ]

-- The balance that the last of an address's rows gives, or `t` without one.
abbrev pub shown : List Balance → Text → Text → Text
shown [] t a = t
shown (r ∷ rs) t a = shown rs (if text_eq r.address a then r.balance else t) a

-- The entries of the map, for the recent blocks: `vhp` says the balances so far.
pub record IsListing (recent : List Block) (vhp : Text → Text) (m : List Entry) : Type 0 where
  pub distinct : IsDistinct (keys m)
  pub counted : All (λ e. (e.blocks ≡ count e.address recent) × (e.vhp ≡ vhp e.address)) m

module _ (recent : List Block) where
  pub put_signers-keys :
      (a : Text) (s : TextSet) (m : List Entry)
      → member a (keys (put_signers (map (group_of recent) s) m))
        ≡ (member a s || member a (keys m))
  unfolding put_signers member
  put_signers-keys a [] m = refl
  put_signers-keys a (x ∷ s) m =
      let m' =
        upsert (is_entry_of x) (signer_entry (group_of recent x))
          (λ e. signer_entry (group_of recent x)) m in
      let added =
        keys-upsert x (signer_entry (group_of recent x)) (λ e. signer_entry (group_of recent x)) m
          refl (λ e h. sym ((text_eq_iff e.address x).0 h)) in
      ground (arith, put_signers-keys a s m', ap (member a) added, member-add a x (keys m))

  pub put_signers-IsListing :
      (s : TextSet) (m : List Entry)
      → IsListing recent (λ _. codes "0") m
      → IsListing recent (λ _. codes "0") (put_signers (map (group_of recent) s) m)
  unfolding put_signers
  put_signers-IsListing [] m h = h
  put_signers-IsListing (x ∷ s) m h =
      let e = signer_entry (group_of recent x) in
      put_signers-IsListing s _ (record {
        distinct =
            subst IsDistinct
              (sym (keys-upsert x e (λ _. e) m refl (λ y k. sym ((text_eq_iff y.address x).0 k))))
              (add-IsDistinct x (keys m) h.distinct);
        counted =
            upsert-All_keyed _ _ x e (λ _. e) m (λ _. (refl, refl)) (λ _ _ _. (refl, refl))
              (λ _ _ k. k) h.distinct h.counted;
      })

  pub put_holders-keys :
      (a : Text) (rs : List Balance) (m : List Entry)
      → member a (keys (put_holders rs m))
        ≡ (any (λ r. text_eq r.address a) rs || member a (keys m))
  unfolding put_holders
  put_holders-keys a [] m = refl
  put_holders-keys a (r ∷ rs) m =
      let added = keys-upsert r.address (holder_entry r) (with_vhp r) m refl (λ e h. refl) in
      ground (
        arith,
        put_holders-keys a rs (upsert (is_entry_of r.address) (holder_entry r) (with_vhp r) m),
        ap (member a) added,
        member-add a r.address (keys m),
      )

  -- Every signer has an entry, so that a holder who has none signed no recent block.
  pub put_holders-IsListing :
      (rs : List Balance) (vhp : Text → Text) (m : List Entry)
      → ((a : Text) → member a (signers recent) ≡ true → member a (keys m) ≡ true)
      → IsListing recent vhp m
      → IsListing recent (λ a. shown rs (vhp a) a) (put_holders rs m)
  unfolding put_holders
  put_holders-IsListing [] vhp m all h = h
  put_holders-IsListing (r ∷ rs) vhp m all h =
      let added = keys-upsert r.address (holder_entry r) (with_vhp r) m refl (λ e h. refl) in
      put_holders-IsListing rs (λ a. if text_eq r.address a then r.balance else vhp a) _
        (λ a k. ground (arith, ap (member a) added, member-add a r.address (keys m), all a k))
        (record {
          distinct = subst IsDistinct (sym added) (add-IsDistinct r.address (keys m) h.distinct);
          counted =
              upsert-All_keyed _ _ r.address (holder_entry r) (with_vhp r) m
                (λ k. (
                  sym (count_none r.address recent (ground (arith, all r.address, k))),
                  rw (text_eq_refl r.address) refl,
                ))
                (λ e same k. (k.0, rw (same, text_eq_refl r.address) refl))
                (λ e other k. (
                  k.0,
                  ground (
                    arith,
                    k.1,
                    other,
                    text_eq_iff e.address r.address,
                    text_eq_iff r.address e.address,
                  ),
                ))
                h.distinct h.counted;
        })
