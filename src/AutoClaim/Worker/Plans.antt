-- ===== src/AutoClaim/Worker/Plans.antt =====
-- What a new attempt has passed: rust/facilitator/src/auto_claim.rs, `run`.
use ic_facilitator.Prelude.{
  ℕ, ◌+◌, ◌^◌, ◌≤◌, ◌≡◌, none, true, ok, ltb, leb, arith, fail_if, >>=-eq-ok,
}
use ic_facilitator.Text.{Text, text}
use ic_facilitator.Crates.{Message}
use ic_facilitator.State.{State, BatchChannel, Collection, Attempt}
use ic_facilitator.Config.{env, private_key_address}
use ic_facilitator.Active.{active_settlement_scope}
use ic_facilitator.Fees.Schedule.{claim_fee}
use ic_facilitator.Admission.{
  require_current_seller_acceptance, require_batch_settlement_enabled_except_fee,
}
use ic_facilitator.Batch.Channel.{validate_batch_channel}
use ic_facilitator.AutoClaim.{validate_signer}
use ic_facilitator.AutoClaim.Worker.Start.{planned}

-- The attempt claims all that is charged, which the balance covers; the channel is valid, the
-- seller's acceptance is current, the fee is that of a claim, the lock's scope is that of the sender
-- and the seller, and nothing is signed yet.
abbrev pub Plan : Message → Text → Text → Collection → BatchChannel → ℕ → State → Attempt → Type 0
Plan m id contract c channel target s a =
    (a.raw ≡ none)
    × (a.channel ≡ channel)
    × (a.target ≡ target)
    × (target ≤ c.balance)
    × (validate_batch_channel m s.env id channel contract ≡ ok tt)
    × (m.seller_accepted channel.channel_config.receiver ≡ true)
    × (claim_fee m s.env ≡ ok a.fee)
    × (active_settlement_scope m.crates a.from channel.channel_config.receiver ≡ ok a.scope)

accepted-true :
    (m : Message) (seller : Text)
    → require_current_seller_acceptance m seller ≡ ok tt
    → m.seller_accepted seller ≡ true
unfolding require_current_seller_acceptance
accepted-true m seller e = ground arith

pub planned-Plan :
    (m : Message) (id contract : Text) (c : Collection) (channel : BatchChannel) (target : ℕ)
    (s : State) (a : Attempt)
    → planned m id contract c channel target s ≡ ok a
    → Plan m id contract c channel target s a
unfolding planned
planned-Plan m id contract c channel target s a e =
    let (_, enough, r0) =
      >>=-eq-ok (fail_if (ltb c.balance target) (text "insufficient_channel_balance")) _ e in
    let (_, _, r1) = >>=-eq-ok (validate_signer m s.env channel) _ r0 in
    let (_, valid, r2) = >>=-eq-ok (validate_batch_channel m s.env id channel contract) _ r1 in
    let (_, accepted, r3) =
      >>=-eq-ok (require_current_seller_acceptance m channel.channel_config.receiver) _ r2 in
    let (_, _, r4) = >>=-eq-ok (require_batch_settlement_enabled_except_fee m s.env) _ r3 in
    let (fee, priced, r5) = >>=-eq-ok (claim_fee m s.env) _ r4 in
    let (key, _, r6) = >>=-eq-ok (env m s.env (text "FACILITATOR_EVM_PRIVATE_KEY")) _ r5 in
    let (from, _, r7) = >>=-eq-ok (private_key_address m.crates key) _ r6 in
    let (scope, scoped, r8) =
      >>=-eq-ok (active_settlement_scope m.crates from channel.channel_config.receiver) _ r7 in
    let (_, _, last) =
      >>=-eq-ok
        (fail_if (leb (2 ^ 64) (c.attempt_sequence + 1)) (text "attempt sequence exhausted")) _
        r8 in
    (
      ground arith,
      ground arith,
      ground arith,
      ground arith,
      ground arith,
      accepted-true m channel.channel_config.receiver accepted,
      ground arith,
      ground arith,
    )
