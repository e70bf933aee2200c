-- ===== src/Fees/Tiers.antt =====
-- The tiers of a claim fee schedule: rust/facilitator/src/lib.rs, `scheduled_claim_fee`.
use ic_facilitator.Prelude.{
  ℕ, ◌≤◌, ◌≡◌, ap, sym, ◌∙◌, ◌++◌, inl, inr, Bool, true, false, some, List, [], ◌∷◌, ltb,
  if◌then◌else◌, ok, arith, Option-cases, Bool-cases, >>=-eq-ok, fail_if-eq-ok,
}
use ic_facilitator.Text.{Text, text, parse_u128}
use ic_facilitator.Map.{Map}
use ic_facilitator.Crates.{Message}
use ic_facilitator.Fees.{
  BatchClaimFeeSchedule, batch_claim_fee_schedule_has_any_value, validate_batch_claim_fee_schedule,
  validate_monotonic_fee_schedule, non_decreasing, claim_values, refund_values, each_valid,
  batch_claim_fee_schedule_values,
}
use ic_facilitator.Fees.Schedule.{
  read_schedule, configured_batch_claim_fee_schedule, scheduled_claim_fee, tier,
}

non_decreasing-step :
    (label : Text) (previous : ℕ) (value : Text) (values : List Text)
    → non_decreasing label previous (value ∷ values) ≡ ok tt
    → (n : ℕ) × (parse_u128 value ≡ some n)
      × (previous ≤ n)
      × (non_decreasing label n values ≡ ok tt)
unfolding non_decreasing
non_decreasing-step label previous value values e = elim (Option-cases (parse_u128 value)) [
  | inl missing ↦ absurd (let f = rw (non_decreasing, missing) at e in cc)
  | inr (n, found) ↦
      let f = rw (non_decreasing, found) at e in
      let (b, rest) =
        fail_if-eq-ok (ltb n previous) (label ++ text " must be non-decreasing by claim count")
          (non_decreasing label n values) f in
      (n, found, ground arith, rest)
]

tier-monotone :
    (v1 v10 v50 v100 : Text) (n1 n10 n50 n100 a b x y : ℕ)
    → (parse_u128 v1 ≡ some n1)
    → (parse_u128 v10 ≡ some n10)
    → (parse_u128 v50 ≡ some n50)
    → (parse_u128 v100 ≡ some n100)
    → n1 ≤ n10
    → n10 ≤ n50
    → n50 ≤ n100
    → a ≤ b
    → parse_u128 (tier (v1 ∷ v10 ∷ v50 ∷ v100 ∷ []) a) ≡ some x
    → parse_u128 (tier (v1 ∷ v10 ∷ v50 ∷ v100 ∷ []) b) ≡ some y
    → x ≤ y
unfolding tier
tier-monotone v1 v10 v50 v100 n1 n10 n50 n100 a b x y p1 p10 p50 p100 l1 l10 l50 le fa fb =
    ground arith

tier-le :
    (label v1 v10 v50 v100 : Text) (a b x y : ℕ)
    → validate_monotonic_fee_schedule label (v1 ∷ v10 ∷ v50 ∷ v100 ∷ []) ≡ ok tt
    → a ≤ b
    → parse_u128 (tier (v1 ∷ v10 ∷ v50 ∷ v100 ∷ []) a) ≡ some x
    → parse_u128 (tier (v1 ∷ v10 ∷ v50 ∷ v100 ∷ []) b) ≡ some y
    → x ≤ y
unfolding validate_monotonic_fee_schedule
tier-le label v1 v10 v50 v100 a b x y valid le fa fb =
    let (n1, p1, _, r1) = non_decreasing-step label 0 v1 (v10 ∷ v50 ∷ v100 ∷ []) valid in
    let (n10, p10, l10, r10) = non_decreasing-step label n1 v10 (v50 ∷ v100 ∷ []) r1 in
    let (n50, p50, l50, r50) = non_decreasing-step label n10 v50 (v100 ∷ []) r10 in
    let (n100, p100, l100, _) = non_decreasing-step label n50 v100 [] r50 in
    tier-monotone v1 v10 v50 v100 n1 n10 n50 n100 a b x y p1 p10 p50 p100 l10 l50 l100 le fa fb

configured-valid :
    (m : Message) (vars : Map Text) (s : BatchClaimFeeSchedule)
    → configured_batch_claim_fee_schedule m vars ≡ ok (some s)
    → validate_batch_claim_fee_schedule m vars s ≡ ok tt
unfolding configured_batch_claim_fee_schedule
configured-valid m vars s e = elim (Bool-cases (batch_claim_fee_schedule_has_any_value m vars)) [
  | inr unset ↦ absurd (let f = rw (configured_batch_claim_fee_schedule, unset) at e in cc)
  | inl some_value ↦
      let f = rw (configured_batch_claim_fee_schedule, some_value) at e in
      let (schedule, _, g) = >>=-eq-ok (read_schedule m vars) _ f in
      let (_, valid, h) = >>=-eq-ok (validate_batch_claim_fee_schedule m vars schedule) _ g in
      let same : schedule ≡ s = ground arith in
      ap (validate_batch_claim_fee_schedule m vars) (sym same) ∙ valid
]

abbrev values_of : Bool → BatchClaimFeeSchedule → List Text
values_of refund s = if refund then refund_values s else claim_values s

scheduled-tier :
    (m : Message) (vars : Map Text) (s : BatchClaimFeeSchedule) (refund : Bool) (a x : ℕ)
    → configured_batch_claim_fee_schedule m vars ≡ ok (some s)
    → scheduled_claim_fee m vars a refund ≡ ok x
    → ((1 ≤ a) × (a ≤ 100)) × (parse_u128 (tier (values_of refund s) a) ≡ some x)
unfolding scheduled_claim_fee
scheduled-tier m vars s refund a x configured e =
    let f = rw (scheduled_claim_fee, configured) at e in ground arith

tiers-le :
    (m : Message) (vars : Map Text) (s : BatchClaimFeeSchedule) (refund : Bool) (a b x y : ℕ)
    → validate_batch_claim_fee_schedule m vars s ≡ ok tt
    → a ≤ b
    → parse_u128 (tier (values_of refund s) a) ≡ some x
    → parse_u128 (tier (values_of refund s) b) ≡ some y
    → x ≤ y
unfolding validate_batch_claim_fee_schedule
tiers-le m vars s false a b x y valid le fa fb =
    let (_, _, r) = >>=-eq-ok (each_valid m vars (batch_claim_fee_schedule_values s)) _ valid in
    let (_, claims, _) =
      >>=-eq-ok (validate_monotonic_fee_schedule (text "claim fee schedule") (claim_values s)) _
        r in
    tier-le (text "claim fee schedule") s.claim_1_fee_amount s.claim_10_fee_amount
      s.claim_50_fee_amount s.claim_100_fee_amount a b x y claims le fa fb
tiers-le m vars s true a b x y valid le fa fb =
    let (_, _, r) = >>=-eq-ok (each_valid m vars (batch_claim_fee_schedule_values s)) _ valid in
    let (_, _, refunds) =
      >>=-eq-ok (validate_monotonic_fee_schedule (text "claim fee schedule") (claim_values s)) _
        r in
    tier-le (text "refund-with-claim fee schedule") s.refund_with_claim_1_fee_amount
      s.refund_with_claim_10_fee_amount s.refund_with_claim_50_fee_amount
      s.refund_with_claim_100_fee_amount a b x y refunds le fa fb

-- Under a configured schedule, where there is a fee for two numbers of claims, the larger number
-- never costs less, and both lie between 1 and 100.
pub scheduled_claim_fee-le :
    (m : Message) (vars : Map Text) (s : BatchClaimFeeSchedule) (refund : Bool) (a b x y : ℕ)
    → configured_batch_claim_fee_schedule m vars ≡ ok (some s)
    → a ≤ b
    → scheduled_claim_fee m vars a refund ≡ ok x
    → scheduled_claim_fee m vars b refund ≡ ok y
    → (x ≤ y) × (1 ≤ a) × (b ≤ 100)
scheduled_claim_fee-le m vars s refund a b x y configured le fa fb =
    let (ra, ta) = scheduled-tier m vars s refund a x configured fa in
    let (rb, tb) = scheduled-tier m vars s refund b y configured fb in
    (tiers-le m vars s refund a b x y (configured-valid m vars s configured) le ta tb, ra.0, rb.1)
