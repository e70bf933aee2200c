-- ===== src/Fees.antt =====
-- rust/facilitator/src/lib.rs: the fees of batch operations.
pub mod Schedule
pub mod Tiers
use ic_facilitator.Prelude.{
  ℕ, ◌+◌, ◌*◌, ◌/◌, ◌^◌, Bool, true, false, not, ◌&&◌, ◌||◌, Option, none, some, List, [], ◌∷◌,
  ◌++◌, reverse, ltb, leb, ◌==◌, if◌then◌else◌, any, is_some, Result, Checked, ok, err, ◌>>=◌, ◌>>◌,
  ok_or, fail_if, to_option,
}
use ic_facilitator.Text.{Text, text, text_eq, parse_u128, to_decimal, is_blank, starts_with}
use ic_facilitator.Map.{Map}
use ic_facilitator.Crates.{Message}
use ic_facilitator.Config.{
  optional_env_value, required_positive_u128, configured_network_profile, positive, set_env_value,
}

pub record BatchClaimFeeSchedule : Type 0 where
  pub claim_1_fee_amount : Text
  pub claim_10_fee_amount : Text
  pub claim_50_fee_amount : Text
  pub claim_100_fee_amount : Text
  pub refund_with_claim_1_fee_amount : Text
  pub refund_with_claim_10_fee_amount : Text
  pub refund_with_claim_50_fee_amount : Text
  pub refund_with_claim_100_fee_amount : Text

-- BATCH_DEPOSIT_FEE_ENV and the three after it
abbrev profile_names : List Text
profile_names =
    text "BATCH_DEPOSIT_FEE_AMOUNT"
    ∷ text "BATCH_CLAIM_FEE_AMOUNT"
    ∷ text "BATCH_SETTLE_FEE_AMOUNT"
    ∷ text "BATCH_REFUND_FEE_AMOUNT"
    ∷ []

-- BATCH_CLAIM_1_FEE_ENV and the seven after it
abbrev schedule_names : List Text
schedule_names =
    text "BATCH_CLAIM_1_FEE_AMOUNT"
    ∷ text "BATCH_CLAIM_10_FEE_AMOUNT"
    ∷ text "BATCH_CLAIM_50_FEE_AMOUNT"
    ∷ text "BATCH_CLAIM_100_FEE_AMOUNT"
    ∷ text "BATCH_REFUND_WITH_CLAIM_1_FEE_AMOUNT"
    ∷ text "BATCH_REFUND_WITH_CLAIM_10_FEE_AMOUNT"
    ∷ text "BATCH_REFUND_WITH_CLAIM_50_FEE_AMOUNT"
    ∷ text "BATCH_REFUND_WITH_CLAIM_100_FEE_AMOUNT"
    ∷ []

unfoldable pub batch_claim_fee_schedule_values : BatchClaimFeeSchedule → List (Text × Text)
batch_claim_fee_schedule_values s =
    (text "BATCH_CLAIM_1_FEE_AMOUNT", s.claim_1_fee_amount)
    ∷ (text "BATCH_CLAIM_10_FEE_AMOUNT", s.claim_10_fee_amount)
    ∷ (text "BATCH_CLAIM_50_FEE_AMOUNT", s.claim_50_fee_amount)
    ∷ (text "BATCH_CLAIM_100_FEE_AMOUNT", s.claim_100_fee_amount)
    ∷ (text "BATCH_REFUND_WITH_CLAIM_1_FEE_AMOUNT", s.refund_with_claim_1_fee_amount)
    ∷ (text "BATCH_REFUND_WITH_CLAIM_10_FEE_AMOUNT", s.refund_with_claim_10_fee_amount)
    ∷ (text "BATCH_REFUND_WITH_CLAIM_50_FEE_AMOUNT", s.refund_with_claim_50_fee_amount)
    ∷ (text "BATCH_REFUND_WITH_CLAIM_100_FEE_AMOUNT", s.refund_with_claim_100_fee_amount)
    ∷ []

unfoldable pub required_positive_u128_value : Text → Text → Result ℕ
required_positive_u128_value name value = do
  n ← ok_or (parse_u128 value) (name ++ text " must be a positive uint128 integer")
  fail_if (n == 0) (name ++ text " must be a positive uint128 integer")
  ok n

abbrev ends_with : Text → Text → Bool
ends_with s suffix = starts_with (reverse s) (reverse suffix)

abbrev is_one_of : List Text → Text → Bool
is_one_of names name = any (text_eq name) names

unfoldable pub minimum_of : Text → Option ℕ
minimum_of name =
    if is_one_of (text "SELLER_SETTLEMENT_FEE_AMOUNT" ∷ text "BATCH_SETTLEMENT_FEE_AMOUNT" ∷ [])
        name
      || is_one_of profile_names name
      || is_one_of schedule_names name
    then some (10 ^ 18 / 2)
    else none

abbrev is_polygon : Result Text → Bool
is_polygon (ok profile) = text_eq profile (text "polygon")
is_polygon (err e) = false

abbrev above_minimum : Text → Text → Option ℕ → Checked
above_minimum name value none = ok tt
above_minimum name value (some minimum) = do
  amount ← ok_or (parse_u128 value) (name ++ text " must be a positive uint128 integer")
  fail_if (ltb amount minimum) (name ++ text " is below the Polygon production minimum")

unfoldable pub validate_env_update : Message → Map Text → Text → Text → Checked
validate_env_update m vars name value =
    if not (is_polygon (configured_network_profile m vars)) then ok tt else (do
      fail_if
          (is_one_of
              (text "SELLER_TERMS_VERSION"
                ∷ text "PRIVACY_VERSION"
                ∷ text "ASSET_BOUNDARY_VERSION"
                ∷ [])
              name
            && (is_blank value || ends_with value (text "-draft")))
          (name ++ text " must be an approved, non-draft version for Polygon production")
      above_minimum name value (minimum_of name))

-- The loop of `validate_monotonic_fee_schedule`.
unfoldable pub non_decreasing : Text → ℕ → List Text → Checked
non_decreasing label previous [] = ok tt
non_decreasing label previous (value ∷ values) = do
  amount ← ok_or (parse_u128 value) (label ++ text " must contain positive uint128 integers")
  fail_if (ltb amount previous) (label ++ text " must be non-decreasing by claim count")
  non_decreasing label amount values

unfoldable pub validate_monotonic_fee_schedule : Text → List Text → Checked
unfolding non_decreasing
validate_monotonic_fee_schedule label values = non_decreasing label 0 values

-- The first loop of `validate_batch_claim_fee_schedule`.
unfoldable pub each_valid : Message → Map Text → List (Text × Text) → Checked
each_valid m vars [] = ok tt
each_valid m vars ((name, value) ∷ rest) = do
  required_positive_u128_value name value
  validate_env_update m vars name value
  each_valid m vars rest

abbrev pub claim_values : BatchClaimFeeSchedule → List Text
claim_values s =
    s.claim_1_fee_amount ∷ s.claim_10_fee_amount ∷ s.claim_50_fee_amount ∷ s.claim_100_fee_amount
    ∷ []

abbrev pub refund_values : BatchClaimFeeSchedule → List Text
refund_values s =
    s.refund_with_claim_1_fee_amount ∷ s.refund_with_claim_10_fee_amount
    ∷ s.refund_with_claim_50_fee_amount ∷ s.refund_with_claim_100_fee_amount ∷ []

unfoldable pub validate_batch_claim_fee_schedule :
    Message → Map Text → BatchClaimFeeSchedule → Checked
validate_batch_claim_fee_schedule m vars schedule = do
  each_valid m vars (batch_claim_fee_schedule_values schedule)
  validate_monotonic_fee_schedule (text "claim fee schedule") (claim_values schedule)
  validate_monotonic_fee_schedule (text "refund-with-claim fee schedule") (refund_values schedule)

abbrev is_set : Message → Map Text → Text → Bool
is_set m vars name = is_some (optional_env_value m vars name)

unfoldable pub batch_fee_profile_has_any_value : Message → Map Text → Bool
batch_fee_profile_has_any_value m vars = any (is_set m vars) profile_names

unfoldable pub batch_claim_fee_schedule_has_any_value : Message → Map Text → Bool
batch_claim_fee_schedule_has_any_value m vars = any (is_set m vars) schedule_names
