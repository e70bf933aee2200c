-- ===== src/Admission.antt =====
-- rust/facilitator/src/lib.rs: what the canister must have before it starts a transaction.
use ic_facilitator.Prelude.{
  Option, none, some, Bool, false, not, ◌&&◌, Result, Checked, ok, err, ◌>>=◌, ◌>>◌, fail_if,
}
use ic_facilitator.Text.{Text, text, text_eq}
use ic_facilitator.Map.{Map}
use ic_facilitator.Crates.{Message}
use ic_facilitator.Config.{
  env, optional_env_value, configured_network_profile, configured_batch_settlement_contract,
  private_key_address, batch_receiver_authorizer_address,
}
use ic_facilitator.Hexutil.{same_address}
use ic_facilitator.Batch.Checks.{batch_withdraw_delay_seconds}

unfoldable pub require_current_seller_acceptance : Message → Text → Checked
require_current_seller_acceptance m seller =
    fail_if (not (m.seller_accepted seller))
      (text "seller must accept the current legal document versions")

abbrev amoy : Result Text → Bool
amoy (ok profile) = text_eq profile (text "amoy")
amoy (err e) = false

abbrev is_text : Text → Option Text → Bool
is_text t none = false
is_text t (some value) = text_eq value t

unfoldable pub require_amoy_batch_contract_code_verified : Message → Map Text → Checked
require_amoy_batch_contract_code_verified m vars =
    fail_if
      (amoy (configured_network_profile m vars)
        && not (
            is_text (text "1")
              (optional_env_value m vars (text "AMOY_BATCH_CONTRACT_CODE_VERIFIED"))))
      (text "Amoy batch contract bytecode has not been verified; batch support is disabled")

unfoldable pub validate_batch_key_separation : Message → Map Text → Text → Checked
validate_batch_key_separation m vars receiver_authorizer = do
  key ← env m vars (text "FACILITATOR_EVM_PRIVATE_KEY")
  facilitator ← private_key_address m.crates key
  fail_if (same_address receiver_authorizer facilitator) (
      text
        "BATCH_RECEIVER_AUTHORIZER_PRIVATE_KEY must not derive the FACILITATOR_EVM_PRIVATE_KEY address")

unfoldable pub require_batch_settlement_enabled_except_fee : Message → Map Text → Result Text
require_batch_settlement_enabled_except_fee m vars = do
  receiver_authorizer ← batch_receiver_authorizer_address m vars
  batch_withdraw_delay_seconds m vars
  contract ← configured_batch_settlement_contract m vars
  require_amoy_batch_contract_code_verified m vars
  m.writer_scope_configured
  validate_batch_key_separation m vars receiver_authorizer
  ok contract
