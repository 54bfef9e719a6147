-- ===== src/Store/Transfers/Union.antt =====
-- GetTransfersByAddress reads each side by itself and joins the two by UNION.
use Prim.Native.Nat.{min}
use mathlib.Core.Path.{subst}
use koinos_token_tracker.Base.{
  ℕ, ◌+◌, ◌≡◌, sym, ap, ◌∙◌, inl, inr, Bool, true, false, ◌||◌, not, List, filter, any, take, drop,
  length, leb, arith, Bool-cases,
}
use koinos_token_tracker.Base.Members.{
  Any-append_left, Any-append_right, In, In-append, In-filter, In-filtered, In-take, In-take-filter,
}
use koinos_token_tracker.Base.Sort.{page, sort}
use koinos_token_tracker.Base.Sort.Strict.{
  In-sort, In-sorted, IsStrict, filter-AreApart, first-AreApart, sort-IsStrict, filter-IsStrict,
  take_unique,
}
use koinos_token_tracker.Base.Text.{Text}
use koinos_token_tracker.Store.Types.{Transfer, Db, Store, current}
use koinos_token_tracker.Store.Action.{ok, query}
use koinos_token_tracker.Store.Producers.Answered.{calm}
use koinos_token_tracker.Store.Transfers.{
  is_newer, count_cap, newest, has_id, union, is_from, is_to, get_transfers_by_address,
}
use koinos_token_tracker.Store.Transfers.Numbered.{
  IsNumbered, IsNumbered-AreApart, any-In, is_newer_irrefl, is_newer_trans, page_first, same_id,
  union-AreApart,
}

module _ (address : Text) (d : Db) (numbered : IsNumbered d.transfers) where
  abbrev is_either : Transfer → Bool
  is_either r = is_from address r || is_to address r

  abbrev pub all_newest : List Transfer
  all_newest = sort is_newer (filter is_either d.transfers)

  side_sorted :
      (side : Transfer → Bool) → IsStrict is_newer (sort is_newer (filter side d.transfers))
  side_sorted side =
      sort-IsStrict is_newer is_newer_trans is_newer_irrefl (filter side d.transfers)
        (filter-AreApart is_newer side d.transfers (IsNumbered-AreApart d.transfers numbered))

  In-side :
      (side : Transfer → Bool) (r : Transfer)
      → In r d.transfers
      → side r ≡ true
      → In r (sort is_newer (filter side d.transfers))
  In-side side r i e =
      In-sort is_newer r (filter side d.transfers) (In-filter side r d.transfers e i)

  side-In :
      (side : Transfer → Bool) (r : Transfer)
      → In r (sort is_newer (filter side d.transfers))
      → In r d.transfers × (side r ≡ true)
  side-In side r i =
      In-filtered side r d.transfers (In-sorted is_newer r (filter side d.transfers) i)

  -- The first rows of both sides together that are of one side are the side's first rows.
  newest-first :
      (side : Transfer → Bool)
      → ((r : Transfer) → side r ≡ true → is_either r ≡ true)
      → (n : ℕ) (r : Transfer) → side r ≡ true
      → In r (take n all_newest)
      → In r (newest n side d)
  newest-first side within n r e i =
      subst (In r)
        (take_unique is_newer is_newer_trans is_newer_irrefl n (filter side all_newest)
          (sort is_newer (filter side d.transfers))
          (filter-IsStrict is_newer is_newer_trans is_newer_irrefl side all_newest
            (side_sorted is_either))
          (side_sorted side)
          (λ x j.
            let k = In-filtered side x all_newest j in
            In-side side x (side-In is_either x k.0).0 k.1)
          (λ x j.
            let k = side-In side x (In-take n x (sort is_newer (filter side d.transfers)) j) in
            In-filter side x all_newest k.1 (In-side is_either x k.0 (within x k.1))))
        (In-take-filter side n r all_newest e i)

  abbrev joined : ℕ → List Transfer
  joined n = union (newest n (is_from address) d) (newest n (is_to address) d)

  newest-In :
      (side : Transfer → Bool) (n : ℕ) (r : Transfer)
      → In r (newest n side d)
      → In r d.transfers × (side r ≡ true)
  newest-In side n r i = side-In side r (In-take n r (sort is_newer (filter side d.transfers)) i)

  joined-In : (n : ℕ) (r : Transfer) → In r (joined n) → In r all_newest
  unfolding union
  joined-In n r i = elim (In-append r (newest n (is_from address) d) _ i) [
    | inl j ↦
        let k = newest-In (is_from address) n r j in In-side is_either r k.0 (ground (arith, k.1))
    | inr j ↦
        let k = newest-In (is_to address) n r (In-filtered _ r (newest n (is_to address) d) j).0 in
        In-side is_either r k.0 (ground (arith, k.1))
  ]

  first-In : (n : ℕ) (r : Transfer) → In r (take n all_newest) → In r (joined n)
  unfolding union
  first-In n r i =
      let xs = newest n (is_from address) d in
      let new : Transfer → Bool = λ r. not (any (has_id r.id) xs) in
      let own = side-In is_either r (In-take n r all_newest i) in
      elim (Bool-cases (is_from address r)) [
        | inl e ↦
            Any-append_left (λ z. z ≡ r) xs _
              (newest-first (is_from address) (λ x h. ground (arith, h)) n r e i)
        | inr e ↦
            let j =
              newest-first (is_to address) (λ x h. ground (arith, h)) n r (ground (arith, own.1, e))
                i in
            elim (Bool-cases (any (has_id r.id) xs)) [
              | inr fresh ↦
                  Any-append_right (λ z. z ≡ r) xs _
                    (In-filter new r (newest n (is_to address) d) (ground (arith, fresh)) j)
              | inl seen ↦
                  let (x, k, same) = any-In (has_id r.id) xs seen in
                  let one =
                    same_id x r d.transfers numbered (newest-In (is_from address) n x k).0 own.0
                      same in
                  Any-append_left (λ z. z ≡ r) xs _ (subst (λ z. In z xs) one k)
            ]
      ]

  page-joined :
      (limit offset : ℕ)
      → page limit offset (sort is_newer (joined (limit + offset))) ≡ page limit offset all_newest
  page-joined limit offset =
      let n = limit + offset in
      page_first limit offset (sort is_newer (joined n))
      ∙ ap (drop offset) (
          take_unique is_newer is_newer_trans is_newer_irrefl n (sort is_newer (joined n))
            all_newest
            (sort-IsStrict is_newer is_newer_trans is_newer_irrefl (joined n) (
              union-AreApart (newest n (is_from address) d) (newest n (is_to address) d)
                (first-AreApart is_newer n _ (side_sorted (is_from address)))
                (first-AreApart is_newer n _ (side_sorted (is_to address)))))
            (side_sorted is_either) (λ r i. joined-In n r (In-sorted is_newer r (joined n) i))
            (λ r i. In-sort is_newer r (joined n) (first-In n r i)))
      ∙ sym (page_first limit offset all_newest)

uncapped :
    (m n : ℕ)
    → (leb count_cap (min m count_cap) || leb count_cap (min n count_cap)) ≡ false
    → min m count_cap + min n count_cap ≡ m + n
uncapped m n h = ground arith

-- Let the ids of the transfers be all different, as the table's primary key has it, and the driver
-- not fail. Then GetTransfersByAddress, which reads only the newest limit + offset rows of each
-- side, returns the same page as one query for the rows that are from or to the address, newest
-- first. The total is the number of the rows from it plus the number of those to it, unless it
-- says that the count was capped.
pub get_transfers_by_address-page :
    (address : Text) (limit offset : ℕ) (s : Store)
    → IsNumbered (current s).transfers
    → (total : ℕ) × (capped : Bool) × (get_transfers_by_address address limit offset (calm s) ≡ (
      ok (
        page limit offset (
            sort is_newer
              (filter (λ r. is_from address r || is_to address r) (current s).transfers)),
        total,
        capped,
      ),
      calm s,
    ))
      × (capped ≡ false
          → total
            ≡ length (filter (is_from address) (current s).transfers)
              + length (filter (is_to address) (current s).transfers))
unfolding get_transfers_by_address query
get_transfers_by_address-page address limit offset s numbered =
    let ins = length (filter (is_to address) (current s).transfers) in
    let outs = length (filter (is_from address) (current s).transfers) in
    (
      min outs count_cap + min ins count_cap,
      leb count_cap (min outs count_cap) || leb count_cap (min ins count_cap),
      ap
          (λ rows. (
            ok (
              rows,
              min outs count_cap + min ins count_cap,
              leb count_cap (min outs count_cap) || leb count_cap (min ins count_cap),
            ),
            calm s,
          ))
          (page-joined address (current s) numbered limit offset),
      λ e. uncapped outs ins e,
    )
