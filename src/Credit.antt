-- ===== src/Credit.antt =====
-- rust/facilitator/src/lib.rs: the prepaid credit of a seller, from which settlement fees are taken.
use ic_facilitator.Prelude.{
  ℕ, ◌+◌, ◌-◌, ◌^◌, ◌≤◌, ◌<◌, ◌≡◌, ◌≢◌, ap, ◌∙◌, false, Option, none, some, ◌++◌, arith, ltb, ◌==◌,
  if◌then◌else◌, Result, ok, err, ◌>>=◌, ◌>>◌, fail_if, ok_or, >>=-eq-ok,
}
use ic_facilitator.Text.{Text, text, text_eq, text_eq_iff, to_decimal}
use ic_facilitator.Map
use ic_facilitator.Map.{Map, get-insert, get-insert_self}
use ic_facilitator.Crates.{Message}
use ic_facilitator.State.{SellerCredit, SettlementRecord}
use ic_facilitator.Config.{now_seconds, normalize_evm_address, parse_positive_u128, sat_u128}

abbrev atoms : Option SellerCredit → ℕ
atoms none = 0
atoms (some item) = item.credit_atoms

unfoldable pub seller_credit_balance_for : Text → Map SellerCredit → ℕ
seller_credit_balance_for seller credits = atoms (Map.get seller credits)

abbrev credit_of : Message → ℕ → SellerCredit
credit_of m n = record { credit_atoms = n; updated_at = now_seconds m }

-- The new credits, or the refusal, after which they are as before.
unfoldable pub reserve_seller_credit :
    Message → Text → ℕ → Map SellerCredit → Result (Map SellerCredit)
unfolding seller_credit_balance_for
reserve_seller_credit m seller amount credits = do
  seller' ← normalize_evm_address m.crates (text "seller") seller
  let current = seller_credit_balance_for seller' credits
  fail_if (ltb current amount) (
      text "seller credit is below required fee: required="
      ++ (to_decimal amount ++ (text ", current=" ++ to_decimal current)))
  ok (Map.insert seller' (credit_of m (current - amount)) credits)

unfoldable pub add_seller_credit : Message → Text → ℕ → Map SellerCredit → Map SellerCredit
unfolding seller_credit_balance_for
add_seller_credit m seller amount credits =
    Map.insert seller (credit_of m (sat_u128 (seller_credit_balance_for seller credits + amount)))
      credits

unfoldable pub refund_seller_credit : Message → Text → ℕ → Map SellerCredit → Map SellerCredit
unfolding add_seller_credit
refund_seller_credit m seller amount credits =
    elim (normalize_evm_address m.crates (text "seller") seller) [
      | ok seller' ↦ add_seller_credit m seller' amount credits
      | err _ ↦ credits
    ]

-- The credits and the settlements that have been credited already.
unfoldable pub credit_seller_once :
    Message → Text → Text → ℕ → Map SellerCredit × Map Text → Map SellerCredit × Map Text
unfolding add_seller_credit
credit_seller_once m settlement_key seller amount (credits, credited) =
    if amount == 0
    then (credits, credited)
    else elim (normalize_evm_address m.crates (text "seller") seller) [
      | err _ ↦ (credits, credited)
      | ok seller' ↦ if Map.contains_key settlement_key credited then (credits, credited) else (
        add_seller_credit m seller' amount credits,
        Map.insert settlement_key seller' credited,
      )
    ]

unfoldable pub settlement_credit_amount : SettlementRecord → Result ℕ
settlement_credit_amount record' = do
  amount ← ok_or record'.response.amount (text "settlement amount is missing")
  parse_positive_u128 (text "settlement amount") amount

unfoldable pub credit_seller_from_record_once :
    Message
    → Text
    → Text
    → SettlementRecord
    → Map SellerCredit × Map Text
    → Result (Map SellerCredit × Map Text)
unfolding settlement_credit_amount credit_seller_once
credit_seller_from_record_once m settlement_key seller record' books = do
  amount ← settlement_credit_amount record'
  ok (credit_seller_once m settlement_key seller amount books)

-- `seller_credit`
unfoldable pub seller_credit : Message → Text → Map SellerCredit → ℕ
unfolding seller_credit_balance_for
seller_credit m seller credits = elim (normalize_evm_address m.crates (text "seller") seller) [
  | ok seller' ↦ seller_credit_balance_for seller' credits
  | err _ ↦ 0
]

-- For a seller whose address is valid, a fee that the credit covers is reserved: the credit falls
-- by the fee, and that of every other seller stays.
pub reserve_seller_credit_covered :
    (m : Message) (seller seller' other : Text) (amount : ℕ) (credits : Map SellerCredit)
    → normalize_evm_address m.crates (text "seller") seller ≡ ok seller'
    → amount ≤ seller_credit_balance_for seller' credits
    → seller' ≢ other
    → (after : Map SellerCredit) × (reserve_seller_credit m seller amount credits ≡ ok after)
      × (seller_credit_balance_for seller' after + amount
          ≡ seller_credit_balance_for seller' credits)
      × (seller_credit_balance_for other after ≡ seller_credit_balance_for other credits)
unfolding reserve_seller_credit
reserve_seller_credit_covered m seller seller' other amount credits e h ne = (
  Map.insert seller' (credit_of m (atoms (Map.get seller' credits) - amount)) credits,
  rw e (ground arith),
  rw get-insert_self (omega arith),
  let miss : text_eq seller' other ≡ false = ground (arith, text_eq_iff seller' other) in
      rw (get-insert, miss),
)

-- A fee above the credit is refused.
pub reserve_seller_credit_short :
    (m : Message) (seller seller' : Text) (amount : ℕ) (credits : Map SellerCredit)
    → normalize_evm_address m.crates (text "seller") seller ≡ ok seller'
    → seller_credit_balance_for seller' credits < amount
    → (message : Text) × (reserve_seller_credit m seller amount credits ≡ err message)
unfolding reserve_seller_credit
reserve_seller_credit_short m seller seller' amount credits e h = (
  text "seller credit is below required fee: required="
      ++ (to_decimal amount
          ++ (text ", current=" ++ to_decimal (seller_credit_balance_for seller' credits))),
  rw e (ground arith),
)

-- What a granted reservation says.
reserve_seller_credit_ok :
    (m : Message) (seller : Text) (amount : ℕ) (credits after : Map SellerCredit)
    → reserve_seller_credit m seller amount credits ≡ ok after
    → (seller' : Text) × (normalize_evm_address m.crates (text "seller") seller ≡ ok seller')
      × (amount ≤ seller_credit_balance_for seller' credits)
      × (after
          ≡ Map.insert seller'
              (credit_of m (seller_credit_balance_for seller' credits - amount))
              credits)
unfolding reserve_seller_credit
reserve_seller_credit_ok m seller amount credits after e =
    let (seller', e1, rest) =
      >>=-eq-ok (normalize_evm_address m.crates (text "seller") seller) _ e in
    (seller', e1, ground arith, ground arith)

-- The seller of a granted reservation has paid it.
pub reserve_seller_credit-pays :
    (m : Message) (seller : Text) (amount : ℕ) (credits after : Map SellerCredit)
    → reserve_seller_credit m seller amount credits ≡ ok after
    → (seller' : Text) × (normalize_evm_address m.crates (text "seller") seller ≡ ok seller')
      × (seller_credit_balance_for seller' after + amount
          ≡ seller_credit_balance_for seller' credits)
unfolding seller_credit_balance_for
reserve_seller_credit-pays m seller amount credits after e =
    let (seller', valid, covered, same) =
      reserve_seller_credit_ok m seller amount credits after e in
    (seller', valid, rw (same, get-insert_self) (omega (arith, covered)))

-- A reserved fee that is given back leaves the credit as it was, if that fits a `u128`.
pub refund-reserve_seller_credit :
    (m later : Message) (seller : Text) (amount : ℕ) (credits after : Map SellerCredit)
    → later.crates ≡ m.crates
    → seller_credit m seller credits < 2 ^ 128
    → reserve_seller_credit m seller amount credits ≡ ok after
    → seller_credit later seller (refund_seller_credit later seller amount after)
      ≡ seller_credit m seller credits
unfolding reserve_seller_credit refund_seller_credit seller_credit
refund-reserve_seller_credit m later seller amount credits after same h e =
    let (seller', e1, covered, a) = reserve_seller_credit_ok m seller amount credits after e in
    let e2 : normalize_evm_address later.crates (text "seller") seller ≡ ok seller' =
      ap (λ c. normalize_evm_address c (text "seller") seller) same ∙ e1 in
    let small : seller_credit_balance_for seller' credits < 2 ^ 128 = rw (e1, seller_credit) at h in
    rw (e2, e1, seller_credit, refund_seller_credit, e2, a, get-insert_self, get-insert_self)
      (ground arith)

-- A settlement that has changed the books is credited once: crediting it again, to whom and for
-- whatever amount, changes nothing.
pub credit_seller_once_twice :
    (m later : Message) (key seller other : Text) (amount again : ℕ)
    (books : Map SellerCredit × Map Text)
    → credit_seller_once m key seller amount books ≢ books
    → credit_seller_once later key other again (credit_seller_once m key seller amount books)
      ≡ credit_seller_once m key seller amount books
unfolding credit_seller_once
credit_seller_once_twice m later key seller other amount again (credits, credited) h =
    grind (arith, get-insert_self)

-- A refund to a valid address adds to its credit, up to the largest `u128`.
pub refund_seller_credit_adds :
    (m : Message) (seller seller' : Text) (amount : ℕ) (credits : Map SellerCredit)
    → normalize_evm_address m.crates (text "seller") seller ≡ ok seller'
    → seller_credit_balance_for seller' (refund_seller_credit m seller amount credits)
      ≡ sat_u128 (seller_credit_balance_for seller' credits + amount)
unfolding refund_seller_credit
refund_seller_credit_adds m seller seller' amount credits e =
    rw (refund_seller_credit, e, get-insert_self)
