-- ===== src/AutoClaim/Worker/Parts.antt =====
-- Each part of the worker leaves phase and attempt in agreement: rust/facilitator/src/auto_claim.rs.
use ic_facilitator.Prelude.{
  ℕ, ◌≡◌, refl, ◌∙◌, some, arith, inl, inr, Result, ok, err, Option-cases, Result-cases, Bool-cases,
  leb,
}
use ic_facilitator.Text.{Text, text}
use ic_facilitator.Crates.{Message}
use ic_facilitator.State.{State, Attempt}
use ic_facilitator.Config.{RpcConfig}
use ic_facilitator.Hexutil.{parse_address}
use ic_facilitator.Nonce.{reserve_nonce}
use ic_facilitator.Active.{update_active_broadcast}
use ic_facilitator.Rpc.{FeeQuote, other}
use ic_facilitator.Rpc.Outcomes.{raw_transaction_hash}
use ic_facilitator.Tx.Eip1559.{sign_eip1559_tx}
use ic_facilitator.Tx.{Signer, Eip1559Tx}
use ic_facilitator.AutoClaim.Journal.{store_attempt, record_attempt}
use ic_facilitator.AutoClaim.Worker.{
  Progress, Unsigned, waits, attempt_of, sending, fee_quote, gas_estimate, pending_nonce,
  latest_claimed,
}
use ic_facilitator.AutoClaim.Worker.Prepare.{
  begin_prepare, latest_answered, nonce_answered, fees_answered, gas_answered, sign_reserved,
  gas_limit_of, journalled, unsigned, refused_by, send_error,
}
use ic_facilitator.AutoClaim.Worker.Kept.{store_attempt-attempt_of, record_attempt-attempt_of}
use ic_facilitator.AutoClaim.Worker.Journal.{Leaves, IsSendable, IsUnsent, give_up-Leaves}

pub begin_prepare-Leaves :
    (m : Message) (config : RpcConfig) (id : Text) (a : Attempt) (s : State)
    (out : Progress × State)
    → attempt_of id s ≡ some a
    → IsUnsent a
    → begin_prepare m config id a s ≡ some out
    → Leaves id out
unfolding begin_prepare
begin_prepare-Leaves m config id a s out stored unsent e =
    elim (Result-cases (parse_address m.crates a.contract (text "contract"))) [
      | inr (message, failed_) ↦
          let f = rw (begin_prepare, failed_) at e in give_up-Leaves m id a message s out f
      | inl (to, found) ↦
          let f = rw (begin_prepare, found) at e in
          let same : (waits (latest_claimed config a), s) ≡ out = ground arith in
          rw (← same) (stored, unsent)
    ]

pub latest_answered-Leaves :
    (m : Message) (config : RpcConfig) (id : Text) (a : Attempt) (answer : Result ℕ) (s : State)
    (out : Progress × State)
    → attempt_of id s ≡ some a
    → IsUnsent a
    → latest_answered m config id a answer s ≡ some out
    → Leaves id out
unfolding latest_answered
latest_answered-Leaves m config id a (err message) s out stored unsent e =
    give_up-Leaves m id a message s out e
latest_answered-Leaves m config id a (ok latest) s out stored unsent e =
    elim (Bool-cases (leb a.target latest)) [
      | inl mined ↦
          let f = rw (latest_answered, mined) at e in
          give_up-Leaves m id a (text "auto_claim_already_mined") s out f
      | inr open_ ↦
          let f = rw (latest_answered, open_) at e in
          let same : (waits (pending_nonce config a), s) ≡ out = ground arith in
          rw (← same) (stored, unsent)
    ]

pub nonce_answered-Leaves :
    (tools : Signer) (m : Message) (config : RpcConfig) (id : Text) (a : Attempt)
    (answer : Result ℕ) (s : State) (out : Progress × State)
    → attempt_of id s ≡ some a
    → IsUnsent a
    → nonce_answered tools m config id a answer s ≡ some out
    → Leaves id out
unfolding nonce_answered
nonce_answered-Leaves tools m config id a (err message) s out stored unsent e =
    give_up-Leaves m id a message s out e
nonce_answered-Leaves tools m config id a (ok nonce) s out stored unsent e =
    elim (Result-cases (unsigned tools m a nonce s)) [
      | inr (message, failed_) ↦
          let f = rw (nonce_answered, failed_) at e in give_up-Leaves m id a message s out f
      | inl (tx, ready) ↦
          let f = rw (nonce_answered, ready) at e in
          let same : (waits (fee_quote config a tx), s) ≡ out = ground arith in
          rw (← same) (stored, unsent)
    ]

pub fees_answered-Leaves :
    (m : Message) (config : RpcConfig) (id : Text) (a : Attempt) (tx : Unsigned)
    (answer : Result FeeQuote) (s : State) (out : Progress × State)
    → attempt_of id s ≡ some a
    → IsUnsent a
    → fees_answered m config id a tx answer s ≡ some out
    → Leaves id out
unfolding fees_answered
fees_answered-Leaves m config id a tx (err message) s out stored unsent e =
    give_up-Leaves m id a (send_error (other message)) s out e
fees_answered-Leaves m config id a tx (ok fees) s out stored unsent e =
    let same : (waits (gas_estimate config a tx fees), s) ≡ out = ground arith in
    rw (← same) (stored, unsent)

journalled-Leaves :
    (m : Message) (id : Text) (a : Attempt) (nonce : ℕ) (tx : Text) (s : State)
    (out : Progress × State)
    → IsSendable a
    → journalled m id a nonce tx s ≡ some out
    → Leaves id out
unfolding journalled
journalled-Leaves m id a nonce tx s out complete e = elim (Option-cases (store_attempt id a s)) [
  | inl trapped ↦ absurd (let f = rw (journalled, trapped) at e in cc)
  | inr (s', done) ↦
      let f = rw (journalled, done) at e in
      let noted = record s' {
        active_settlements = update_active_broadcast a.scope a.key nonce tx s'.active_settlements;
      } in
      let stored = store_attempt-attempt_of id a s s' done in
      let same : (waits (sending a), record_attempt m a (text "broadcast") noted) ≡ out =
        ground arith in
      rw (← same) (record_attempt-attempt_of id m a (text "broadcast") noted ∙ stored, complete)
]

-- The transaction that is signed for a reserved nonce.
abbrev tx_of : Unsigned → FeeQuote → ℕ → ℕ → Eip1559Tx
tx_of tx fees estimate nonce = record {
  nonce = nonce;
  max_priority_fee_per_gas = fees.max_priority_fee_per_gas;
  max_fee_per_gas = fees.max_fee_per_gas;
  gas_limit = gas_limit_of estimate;
  to = tx.to;
  value = 0;
  «data» = tx.«data»;
  chain_id = tx.chain_id;
}

sign_reserved-Leaves :
    (tools : Signer) (m : Message) (id : Text) (a : Attempt) (tx : Unsigned) (fees : FeeQuote)
    (estimate nonce : ℕ) (s : State) (out : Progress × State)
    → a.nonce ≡ some nonce
    → sign_reserved tools m id a tx fees estimate nonce s ≡ some out
    → Leaves id out
unfolding sign_reserved
sign_reserved-Leaves tools m id a tx fees estimate nonce s out numbered e =
    elim (Result-cases
      (sign_eip1559_tx tools m.crates (tx_of tx fees estimate nonce) tx.private_key)) [
        | inr (message, failed_) ↦
            let f = rw (sign_reserved, failed_) at e in
            give_up-Leaves m id a (send_error (other message)) s out f
        | inl (raw, signed) ↦ elim (Result-cases (raw_transaction_hash m.crates raw)) [
          | inr (message, failed_) ↦
              let f = rw (sign_reserved, signed, failed_) at e in
              give_up-Leaves m id a (text "invalid prepared transaction") s out f
          | inl (hash, hashed) ↦
              let f = rw (sign_reserved, signed, hashed) at e in
              journalled-Leaves m id (record a { raw = some raw; tx = some hash }) nonce hash s out
                ((raw, refl), (nonce, numbered), (hash, refl)) f
        ]
      ]

pub gas_answered-Leaves :
    (tools : Signer) (m : Message) (config : RpcConfig) (id : Text) (a : Attempt) (tx : Unsigned)
    (fees : FeeQuote) (answer : Result ℕ) (s : State) (out : Progress × State)
    → gas_answered tools m config id a tx fees answer s ≡ some out
    → Leaves id out
unfolding gas_answered
gas_answered-Leaves tools m config id a tx fees (err message) s out e =
    give_up-Leaves m id a (send_error (other message)) s out e
gas_answered-Leaves tools m config id a tx fees (ok estimate) s out e =
    elim (Option-cases (refused_by m config tx fees estimate s)) [
      | inr (reason, refused) ↦
          let f = rw (gas_answered, refused) at e in
          give_up-Leaves m id a (send_error reason) s out f
      | inl passed ↦
          let (nonce, nonces) = reserve_nonce a.from tx.nonce s.nonces in
          let a' = record a { nonce = some nonce } in
          let s' = record s { nonces = nonces } in
          elim (Option-cases (store_attempt id a' s')) [
            | inl trapped ↦ absurd (let f = rw (gas_answered, passed, trapped) at e in cc)
            | inr (s'', done) ↦
                let f = rw (gas_answered, passed, done) at e in
                sign_reserved-Leaves tools m id a' tx fees estimate nonce s'' out refl f
          ]
    ]
