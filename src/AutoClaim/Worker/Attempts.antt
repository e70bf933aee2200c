-- ===== src/AutoClaim/Worker/Attempts.antt =====
-- What a new attempt takes:
-- rust/facilitator/src/auto_claim.rs.
use ic_facilitator.Prelude.{
  ◌≡◌, ◌⊎◌, ap, ◌∙◌, sym, true, none, some, arith, inl, inr, ok, Option-cases, Result-cases,
  Bool-cases,
}
use ic_facilitator.Text.{Text, text}
use ic_facilitator.Crates.{Message}
use ic_facilitator.State.{State, Collection, Attempt}
use ic_facilitator.Config.{RpcConfig}
use ic_facilitator.Active.{acquire_active_settlement, release_active_settlement}
use ic_facilitator.Credit.{reserve_seller_credit}
use ic_facilitator.AutoClaim.{save}
use ic_facilitator.AutoClaim.Journal.{record_attempt}
use ic_facilitator.AutoClaim.Worker.{Progress, attempt_of}
use ic_facilitator.AutoClaim.Worker.Start.{attempted, start_attempt}
use ic_facilitator.AutoClaim.Worker.Kept.{attempt_of-save, record_attempt-attempt_of}
use ic_facilitator.AutoClaim.Worker.Prepare.{begin_prepare}
use ic_facilitator.Hexutil.{parse_address}
use ic_facilitator.AutoClaim.Worker.Outcomes.{
  record_attempt-active_settlements, record_attempt-seller_credits, save-active_settlements,
  save-seller_credits,
}
use ic_facilitator.AutoClaim.Worker.Kept.{give_up-attempt_of}
use ic_facilitator.AutoClaim.Worker.Readings.{attempted-attempt}

-- `prepare` begins with the state as it is, or it gives the attempt up.
begin_prepare-out :
    (m : Message) (config : RpcConfig) (id : Text) (a : Attempt) (s : State)
    (out : Progress × State)
    → begin_prepare m config id a s ≡ some out
    → (out.1 ≡ s) ⊎ (attempt_of id out.1 ≡ none)
unfolding begin_prepare
begin_prepare-out m config id a s out e =
    elim (Result-cases (parse_address m.crates a.contract (text "contract"))) [
      | inr (message, bad) ↦
          inr (give_up-attempt_of m id a message s out (rw (begin_prepare, bad) at e)).1
      | inl (to, good) ↦ let f = rw (begin_prepare, good) at e in inl (ground arith)
    ]

-- The lock was free or held under the attempt's key, and is held under it; the fee was covered, and
-- is taken.
abbrev pub IsPaid : Message → Attempt → State → State → Type 0
IsPaid m a s after =
    ((acquire_active_settlement a.scope a.key s.active_settlements).0 ≡ true)
    × (after.active_settlements ≡ (acquire_active_settlement a.scope a.key s.active_settlements).1)
    × (reserve_seller_credit m a.channel.channel_config.receiver a.fee s.seller_credits
        ≡ ok after.seller_credits)

pub start_attempt-IsPaid :
    (m : Message) (config : RpcConfig) (id : Text) (c : Collection) (a b : Attempt) (s : State)
    (out : Progress × State)
    → attempt_of id s ≡ none
    → start_attempt m config id c a s ≡ some out
    → attempt_of id out.1 ≡ some b
    → (b ≡ a) × IsPaid m a s out.1
unfolding start_attempt
start_attempt-IsPaid m config id c a b s out free e had =
    let (got, locks) = acquire_active_settlement a.scope a.key s.active_settlements in
    elim (Bool-cases got) [
      | inr busy ↦ absurd (
          let f = rw (start_attempt, busy) at e in
          let same : s ≡ out.1 = ground arith in
          let none_ : attempt_of id out.1 ≡ none = rw (← same) free in cc)
      | inl held ↦
          elim (Result-cases
            (reserve_seller_credit m a.channel.channel_config.receiver a.fee s.seller_credits)) [
              | inr (message, poor) ↦ absurd (
                  let f = rw (start_attempt, held, poor) at e in
                  let s' = record s {
                    active_settlements = release_active_settlement a.scope a.key locks;
                  } in
                  let same : s' ≡ out.1 = ground arith in
                  let none_ : attempt_of id out.1 ≡ none = rw (← same) free in cc)
              | inl (credits, paid) ↦
                  let s' = record s { active_settlements = locks; seller_credits = credits } in
                  elim (Option-cases (attempted c a s')) [
                    | inl trapped ↦
                        absurd (let f = rw (start_attempt, held, paid, trapped) at e in cc)
                    | inr (c', begun) ↦
                        let f = rw (start_attempt, held, paid, begun) at e in
                        let s'' = record_attempt m a (text "checking") (save id c' s') in
                        let stored : attempt_of id s'' ≡ some a =
                          record_attempt-attempt_of id m a (text "checking") (save id c' s')
                          ∙ attempt_of-save id c' s'
                          ∙ attempted-attempt c c' a s' begun in
                        elim (begin_prepare-out m config id a s'' out f) [
                          | inr gone ↦ absurd cc
                          | inl same ↦
                              let one : some a ≡ some b =
                                sym stored ∙ ap (attempt_of id) (sym same) ∙ had in
                              (
                                ground arith,
                                (
                                  held,
                                  rw (same) (
                                      record_attempt-active_settlements m a (text "checking")
                                        (save id c' s')
                                      ∙ save-active_settlements id c' s'),
                                  paid
                                      ∙ ap ok (
                                          sym (
                                            ap (λ x. x.seller_credits) same
                                            ∙ record_attempt-seller_credits m a (text "checking")
                                                (save id c' s')
                                            ∙ save-seller_credits id c' s')),
                                ),
                              )
                        ]
                  ]
            ]
    ]
