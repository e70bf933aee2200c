-- ===== src/AutoClaim/Worker/Prepare.antt =====
-- rust/facilitator/src/auto_claim.rs, `prepare`, and the `prepare_contract_transaction_reserving` of
-- rpc.rs that it calls: from an attempt with its fee and its lock to a stored transaction.
use ic_facilitator.Prelude.{
  ℕ, ◌*◌, ◌/◌, ◌^◌, not, Option, none, some, [], ◌∷◌, ltb, leb, if◌then◌else◌, ◌==◌, Result, ok,
  err, ◌>>=◌, ◌>>◌, fail_if,
}
use ic_facilitator.Text.{Text, text, to_decimal}
use ic_facilitator.Crates.{Message}
use ic_facilitator.State.{State, Attempt}
use ic_facilitator.Config.{env, sat_u128, RpcConfig, configured_chain_id, private_key_address}
use ic_facilitator.Hexutil.{parse_address, same_address}
use ic_facilitator.Nonce.{reserve_nonce}
use ic_facilitator.Active.{update_active_broadcast}
use ic_facilitator.Rpc.{FeeQuote, SettlementSendError, gas_too_expensive, other}
use ic_facilitator.Rpc.Outcomes.{raw_transaction_hash}
use ic_facilitator.Tx.{Signer, BatchRequestPayload}
use ic_facilitator.Tx.Calls.{encode_batch_claim_calldata}
use ic_facilitator.Tx.Eip1559.{sign_eip1559_tx}
use ic_facilitator.AutoClaim.{validate_signer}
use ic_facilitator.AutoClaim.Journal.{store_attempt, record_attempt}
use ic_facilitator.AutoClaim.Worker.{
  Unsigned, Progress, waits, latest_claimed, pending_nonce, fee_quote, gas_estimate, sending,
  give_up,
}

-- `prepare` up to its first wait
unfoldable pub begin_prepare :
    Message → RpcConfig → Text → Attempt → State → Option (Progress × State)
begin_prepare m config id a s = elim (parse_address m.crates a.contract (text "contract")) [
  | err e ↦ give_up m id a e s
  | ok _ ↦ some (waits (latest_claimed config a), s)
]

unfoldable pub latest_answered :
    Message → RpcConfig → Text → Attempt → Result ℕ → State → Option (Progress × State)
latest_answered m config id a (err e) s = give_up m id a e s
latest_answered m config id a (ok latest) s =
    if leb a.target latest
    then give_up m id a (text "auto_claim_already_mined") s
    else some (waits (pending_nonce config a), s)

-- The payload `{"type":"claim","claims":[claim]}`
abbrev pub claim_of : Attempt → BatchRequestPayload
claim_of a = record {
  kind = text "claim";
  channel_config = none;
  voucher = none;
  deposit = none;
  amount = none;
  refund_nonce = none;
  claims = some (
      record {
        voucher = record {
          channel = a.channel.channel_config;
          max_claimable_amount = a.channel.signed_max_claimable;
        };
        signature = a.channel.signature;
        total_claimed = to_decimal a.target;
      }
      ∷ []);
  receiver = none;
  token = none;
  claim_authorizer_signature = none;
  refund_authorizer_signature = none;
}

-- `map_err` of `prepare`
unfoldable pub send_error : SettlementSendError → Text
send_error gas_too_expensive = text "gas_too_expensive"
send_error _ = text "auto_claim_prepare_failed"

module _ (tools : Signer) where
  unfoldable pub unsigned : Message → Attempt → ℕ → State → Result Unsigned
  unsigned m a nonce s = do
    private_key ← env m s.env (text "FACILITATOR_EVM_PRIVATE_KEY")
    signer ← private_key_address m.crates private_key
    fail_if (not (same_address signer a.from)) (text "signer changed during preparation")
    validate_signer m s.env a.channel
    to ← parse_address m.crates a.contract (text "contract")
    authorizer_key ← env m s.env (text "BATCH_RECEIVER_AUTHORIZER_PRIVATE_KEY")
    data' ← encode_batch_claim_calldata tools m s.env (claim_of a) authorizer_key a.contract
    ok (record {
      private_key = private_key;
      to = to;
      «data» = data';
      chain_id = configured_chain_id m s.env;
      nonce = nonce;
    })

  unfoldable pub nonce_answered :
      Message → RpcConfig → Text → Attempt → Result ℕ → State → Option (Progress × State)
  nonce_answered m config id a (err e) s = give_up m id a e s
  nonce_answered m config id a (ok nonce) s = elim (unsigned m a nonce s) [
    | err e ↦ give_up m id a e s
    | ok tx ↦ some (waits (fee_quote config a tx), s)
  ]

unfoldable pub fees_answered :
    Message
    → RpcConfig
    → Text
    → Attempt
    → Unsigned
    → Result FeeQuote
    → State
    → Option (Progress × State)
fees_answered m config id a tx (err e) s = give_up m id a (send_error (other e)) s
fees_answered m config id a tx (ok fees) s = some (waits (gas_estimate config a tx fees), s)

unfoldable pub ensure_settlement_fee_cap : ℕ → ℕ → ℕ → Option SettlementSendError
ensure_settlement_fee_cap gas_limit max_fee_per_gas cap_wei =
    if leb (2 ^ 128) (gas_limit * max_fee_per_gas)
    then some gas_too_expensive
    else if ltb cap_wei (gas_limit * max_fee_per_gas)
    then some gas_too_expensive
    else none

abbrev pub gas_limit_of : ℕ → ℕ
gas_limit_of estimate = sat_u128 (estimate * 12) / 10

-- The checks between the gas estimate and the reservation of a nonce.
unfoldable pub refused_by :
    Message → RpcConfig → Unsigned → FeeQuote → ℕ → State → Option SettlementSendError
refused_by m config tx fees estimate s =
    if ltb config.max_gas (gas_limit_of estimate)
    then some (other (text "estimated settlement gas exceeds FACILITATOR_MAX_GAS"))
    else elim (ensure_settlement_fee_cap (gas_limit_of estimate) fees.max_fee_per_gas
        config.max_settlement_fee_wei) [
          | some e ↦ some e
          | none ↦
              if not (tx.chain_id == configured_chain_id m s.env)
              then some (other (text "network changed during transaction preparation"))
              else none
        ]

-- The stored transaction is noted in the lock and in the settlement record, and goes out.
unfoldable pub journalled : Message → Text → Attempt → ℕ → Text → State → Option (Progress × State)
journalled m id a nonce tx s = elim (store_attempt id a s) [
  | none ↦ none
  | some s' ↦ some (
    waits (sending a),
    record_attempt m a (text "broadcast") (record s' {
      active_settlements = update_active_broadcast a.scope a.key nonce tx s'.active_settlements;
    }),
  )
]

module _ (tools : Signer) where
  -- Signing, once the nonce is reserved and stored.
  unfoldable pub sign_reserved :
      Message → Text → Attempt → Unsigned → FeeQuote → ℕ → ℕ → State → Option (Progress × State)
  sign_reserved m id a tx fees estimate nonce s =
      elim (sign_eip1559_tx tools m.crates
        (record {
          nonce = nonce;
          max_priority_fee_per_gas = fees.max_priority_fee_per_gas;
          max_fee_per_gas = fees.max_fee_per_gas;
          gas_limit = gas_limit_of estimate;
          to = tx.to;
          value = 0;
          «data» = tx.«data»;
          chain_id = tx.chain_id;
        })
        tx.private_key) [
          | err e ↦ give_up m id a (send_error (other e)) s
          | ok raw ↦ elim (raw_transaction_hash m.crates raw) [
            | err _ ↦ give_up m id a (text "invalid prepared transaction") s
            | ok hash ↦ journalled m id (record a { raw = some raw; tx = some hash }) nonce hash s
          ]
        ]

  unfoldable pub gas_answered :
      Message
      → RpcConfig
      → Text
      → Attempt
      → Unsigned
      → FeeQuote
      → Result ℕ
      → State
      → Option (Progress × State)
  gas_answered m config id a tx fees (err e) s = give_up m id a (send_error (other e)) s
  gas_answered m config id a tx fees (ok estimate) s =
      elim (refused_by m config tx fees estimate s) [
        | some e ↦ give_up m id a (send_error e) s
        | none ↦
            let (nonce, nonces) = reserve_nonce a.from tx.nonce s.nonces in
            let a' = record a { nonce = some nonce } in
            elim (store_attempt id a' (record s { nonces = nonces })) [
              | none ↦ none
              | some s' ↦ sign_reserved m id a' tx fees estimate nonce s'
            ]
      ]
