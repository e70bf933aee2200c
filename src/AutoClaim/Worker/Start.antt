-- ===== src/AutoClaim/Worker/Start.antt =====
-- rust/facilitator/src/auto_claim.rs, `run`: what a claim takes: its checks, the lock, the fee.
use ic_facilitator.Prelude.{
  ℕ, ◌+◌, ◌^◌, not, ◌&&◌, ◌||◌, Option, none, some, ltb, leb, ◌++◌, if◌then◌else◌, Result, ok, err,
  ◌>>=◌, ◌>>◌, fail_if,
}
use ic_facilitator.Text.{Text, text, to_decimal}
use ic_facilitator.Crates.{Message}
use ic_facilitator.State.{State, BatchChannel, Collection, Attempt}
use ic_facilitator.Config.{env, RpcConfig, configured_chain_id, private_key_address}
use ic_facilitator.Active.{
  active_settlement_scope, acquire_active_settlement, release_active_settlement,
}
use ic_facilitator.Credit.{reserve_seller_credit}
use ic_facilitator.Fees.Schedule.{claim_fee}
use ic_facilitator.Admission.{
  require_current_seller_acceptance, require_batch_settlement_enabled_except_fee,
}
use ic_facilitator.Batch.Channel.{validate_batch_channel}
use ic_facilitator.AutoClaim.{enabled, save, amount, validate_signer}
use ic_facilitator.AutoClaim.Journal.{record_attempt}
use ic_facilitator.AutoClaim.Worker.{Progress, returned}
use ic_facilitator.AutoClaim.Worker.Prepare.{begin_prepare}

-- The checks before a claim, and the attempt that they allow.
unfoldable pub planned :
    Message → Text → Text → Collection → BatchChannel → ℕ → State → Result Attempt
planned m id contract c channel target s = do
  fail_if (ltb c.balance target) (text "insufficient_channel_balance")
  validate_signer m s.env channel
  validate_batch_channel m s.env id channel contract
  require_current_seller_acceptance m channel.channel_config.receiver
  require_batch_settlement_enabled_except_fee m s.env
  fee ← claim_fee m s.env
  private_key ← env m s.env (text "FACILITATOR_EVM_PRIVATE_KEY")
  from ← private_key_address m.crates private_key
  scope ← active_settlement_scope m.crates from channel.channel_config.receiver
  fail_if (leb (2 ^ 64) (c.attempt_sequence + 1)) (text "attempt sequence exhausted")
  ok (record {
    key =
        text "auto-claim:"
        ++ (id
            ++ (text ":"
                ++ (to_decimal target ++ (text ":" ++ to_decimal (c.attempt_sequence + 1)))));
    channel = channel;
    target = target;
    from = from;
    contract = contract;
    chain_id = configured_chain_id m s.env;
    scope = scope;
    fee = fee;
    nonce = none;
    raw = none;
    tx = none;
  })

-- The collection with its new attempt. (The seed's charges were parsed when it was reconciled.)
unfoldable pub attempted : Collection → Attempt → State → Option Collection
attempted c a s = elim (amount c.seed.charged_cumulative_amount) [
  | none ↦ none
  | some charged ↦ some (record c {
    attempt_sequence = c.attempt_sequence + 1;
    attempt = some a;
    force = not (enabled a.channel.channel_config.receiver s) || (c.force && ltb a.target charged);
  })
]

-- The lock and the fee, and the attempt with its record.
unfoldable pub start_attempt :
    Message → RpcConfig → Text → Collection → Attempt → State → Option (Progress × State)
start_attempt m config id c a s =
    let (got, locks) = acquire_active_settlement a.scope a.key s.active_settlements in
    if not got
    then some (returned (err (text "settlement_queue_busy")), s)
    else elim (reserve_seller_credit m a.channel.channel_config.receiver a.fee s.seller_credits) [
      | err e ↦ some (
        returned (err e),
        record s { active_settlements = release_active_settlement a.scope a.key locks },
      )
      | ok credits ↦
          let s' = record s { active_settlements = locks; seller_credits = credits } in
          elim (attempted c a s') [
            | none ↦ none
            | some c' ↦
                begin_prepare m config id a (record_attempt m a (text "checking") (save id c' s'))
          ]
    ]
