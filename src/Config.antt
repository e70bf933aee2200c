-- ===== src/Config.antt =====
-- rust/facilitator/src/lib.rs: the configuration, kept in the map `ENV` over the canister's own
-- environment variables.
use ic_facilitator.Prelude.{
  ℕ, ◌-◌, ◌/◌, ◌^◌, Bool, false, not, Option, none, some, ◌++◌, ltb, if◌then◌else◌, Result, ok, err,
  ◌>>=◌, ◌>>◌, ok_or, fail_if, drop,
}
use ic_facilitator.Text.{Text, text, text_eq, is_blank, parse_u128, parse_uint}
use ic_facilitator.Map
use ic_facilitator.Map.{Map}
use ic_facilitator.Crates.{Crates, Message}
use ic_facilitator.Hexutil.{parse_hex, parse_address, address_hex, same_address}

-- `now_seconds`
unfoldable pub now_seconds : Message → ℕ
now_seconds m = m.time / 10 ^ 9

-- `a.saturating_add(b)` and `a.saturating_mul(b)` on `u64`
abbrev pub sat_u64 : ℕ → ℕ
sat_u64 n = if ltb n (2 ^ 64) then n else 2 ^ 64 - 1

abbrev pub sat_u128 : ℕ → ℕ
sat_u128 n = if ltb n (2 ^ 128) then n else 2 ^ 128 - 1

-- `set_env_value`
unfoldable pub set_env_value : Text → Text → Map Text → Map Text
set_env_value name value vars =
    if is_blank value then Map.remove name vars else Map.insert name value vars

-- A value that is there and not blank.
abbrev pub present : Option Text → Option Text
present none = none
present (some v) = if is_blank v then none else some v

unfoldable pub optional_env_value : Message → Map Text → Text → Option Text
optional_env_value m vars name = elim (present (Map.get name vars)) [
  | some value ↦ some value
  | none ↦ if not (m.env_var_name_exists name) then none else present (some (m.env_var_value name))
]

unfoldable pub env : Message → Map Text → Text → Result Text
env m vars name = elim (present (Map.get name vars)) [
  | some value ↦ ok value
  | none ↦ ok_or (present (some (m.env_var_value name))) (text "missing required env: " ++ name)
]

unfoldable pub normalize_evm_address : Crates → Text → Text → Result Text
normalize_evm_address c label value = do
  address ← parse_address c value label
  ok (address_hex c address)

-- `value.parse().ok().filter(|value| *value > 0)`
abbrev pub positive : Option ℕ → Option ℕ
positive none = none
positive (some n) = if ltb 0 n then some n else none

unfoldable pub parse_positive_u128 : Text → Text → Result ℕ
parse_positive_u128 label value =
    ok_or (positive (parse_u128 value)) (label ++ text " must be a positive integer")

unfoldable pub required_positive_u128 : Message → Map Text → Text → Result ℕ
required_positive_u128 m vars name = do value ← env m vars name; parse_positive_u128 name value

unfoldable pub seller_settlement_fee_amount : Message → Map Text → Result ℕ
seller_settlement_fee_amount m vars =
    required_positive_u128 m vars (text "SELLER_SETTLEMENT_FEE_AMOUNT")

-- `optional_positive_u64` and `optional_positive_u128`, by the bound of the type.
abbrev pub optional_positive : ℕ → Message → Map Text → Text → ℕ → Result ℕ
optional_positive bound m vars name default = elim (env m vars name) [
  | ok value ↦
      ok_or (positive (parse_uint bound value)) (name ++ text " must be a positive integer")
  | err _ ↦ ok default
]

unfoldable pub optional_positive_u64 : Message → Map Text → Text → ℕ → Result ℕ
optional_positive_u64 = optional_positive (2 ^ 64)

unfoldable pub optional_positive_u128 : Message → Map Text → Text → ℕ → Result ℕ
optional_positive_u128 = optional_positive (2 ^ 128)

abbrev pub or_default : Result Text → Text → Text
or_default (ok a) d = a
or_default (err _) d = d

unfoldable pub configured_network_profile : Message → Map Text → Result Text
configured_network_profile m vars =
    let profile = or_default (env m vars (text "NETWORK_PROFILE")) (text "polygon") in
    if text_eq profile (text "polygon")
    then ok profile
    else if text_eq profile (text "amoy")
    then (do
      token ← env m vars (text "AMOY_JPYC_ADDRESS")
      normalize_evm_address m.crates (text "AMOY_JPYC_ADDRESS") token
      contract ← env m vars (text "AMOY_BATCH_SETTLEMENT_CONTRACT")
      normalize_evm_address m.crates (text "AMOY_BATCH_SETTLEMENT_CONTRACT") contract
      ok profile)
    else err (text "NETWORK_PROFILE must be polygon or amoy")

abbrev pub is_amoy : Result Text → Bool
is_amoy (ok profile) = text_eq profile (text "amoy")
is_amoy (err _) = false

unfoldable pub configured_network : Message → Map Text → Text
configured_network m vars =
    if is_amoy (configured_network_profile m vars) then text "eip155:80002" else text "eip155:137"

unfoldable pub configured_chain_id : Message → Map Text → ℕ
configured_chain_id m vars = if is_amoy (configured_network_profile m vars) then 80002 else 137

abbrev pub jpyc_polygon_address : Text
jpyc_polygon_address = text "0x431D5dfF03120AFA4bDf332c61A6e1766eF37BDB"

abbrev pub canonical_batch_settlement_contract : Text
canonical_batch_settlement_contract = text "0x4020074e9dF2ce1deE5A9C1b5c3f541D02a10003"

unfoldable pub configured_token_address : Message → Map Text → Result Text
configured_token_address m vars = do
  profile ← configured_network_profile m vars
  if text_eq profile (text "amoy")
      then (do
        token ← env m vars (text "AMOY_JPYC_ADDRESS")
        normalize_evm_address m.crates (text "AMOY_JPYC_ADDRESS") token)
      else ok jpyc_polygon_address

unfoldable pub configured_batch_settlement_contract : Message → Map Text → Result Text
configured_batch_settlement_contract m vars = do
  value ← env m vars (text "BATCH_SETTLEMENT_CONTRACT")
  normalized ← normalize_evm_address m.crates (text "BATCH_SETTLEMENT_CONTRACT") value
  profile ← configured_network_profile m vars
  expected ←
      if text_eq profile (text "amoy")
      then (do
        contract ← env m vars (text "AMOY_BATCH_SETTLEMENT_CONTRACT")
        normalize_evm_address m.crates (text "AMOY_BATCH_SETTLEMENT_CONTRACT") contract)
      else ok canonical_batch_settlement_contract
  fail_if (not (same_address normalized expected))
      (text "BATCH_SETTLEMENT_CONTRACT does not match the selected NETWORK_PROFILE")
  ok normalized

-- The address of a private key: the last 20 bytes of the hash of its point.
unfoldable pub private_key_address : Crates → Text → Result Text
private_key_address c private_key = do
  bytes ← parse_hex c private_key (some 32)
  point ← ok_or (c.verifying_point bytes) (text "invalid facilitator private key")
  ok (address_hex c (drop 12 (c.keccak256 (drop 1 point))))

unfoldable pub batch_receiver_authorizer_address : Message → Map Text → Result Text
batch_receiver_authorizer_address m vars = do
  key ← env m vars (text "BATCH_RECEIVER_AUTHORIZER_PRIVATE_KEY")
  private_key_address m.crates key

pub record RpcConfig : Type 0 where
  pub url : Text
  pub max_gas : ℕ
  pub max_settlement_fee_wei : ℕ
  pub min_confirmations : ℕ

unfoldable pub rpc_config : Message → Map Text → Result RpcConfig
rpc_config m vars = do
  gas ← optional_positive_u128 m vars (text "FACILITATOR_MAX_GAS") 500_000
  fee ←
      optional_positive_u128 m vars (text "FACILITATOR_MAX_SETTLEMENT_FEE_WEI")
        30_000_000_000_000_000
  confirmations ← optional_positive_u64 m vars (text "SETTLE_MIN_CONFIRMATIONS") 3
  endpoint ← env m vars (text "POLYGON_RPC_URL")
  ok (record {
    url = endpoint;
    max_gas = gas;
    max_settlement_fee_wei = fee;
    min_confirmations = confirmations;
  })
