-- ===== src/Rpc/Sent.antt =====
-- The hash under which a sending is known: rust/facilitator/src/rpc.rs.
use ic_facilitator.Prelude.{
  ℕ, ◌≡◌, ◌⊎◌, ◌++◌, refl, ap, ◌∙◌, true, false, arith, err, Option, none, some, inl, inr, Result,
  ok, Option-cases, Result-cases, Bool-cases,
}
use ic_facilitator.Text.{Text, text, text_eq, text_eq_iff, eq_ignore_ascii_case, to_ascii_lowercase}
use ic_facilitator.Crates.{Crates}
use ic_facilitator.Rpc.Json.{and_then, as_u64, Json, SerdeJson, get, get_str}
use ic_facilitator.Rpc.Receipts.{holds_of}
use ic_facilitator.Rpc.Logs.{holds_of-true}
use ic_facilitator.Rpc.Outcomes.{
  contains, is_envelope, is_one, Sending, accepted, ambiguous, rejected, raw_transaction_hash,
  send_raw_transaction, sent_value, confirmed_hash,
}

-- The node's answer is an envelope of JSON-RPC 2.0, for the request, with this value.
abbrev pub IsAnswer : SerdeJson → Result Text → Json → Type 0
IsAnswer json answer value =
    ((body : Text) × (answer ≡ ok body) × (json.from_str body ≡ some value))
    × (get_str (text "jsonrpc") value ≡ some (text "2.0"))
    × (and_then (get (text "id") value) as_u64 ≡ some 1)

-- What the canister makes of the error of an answer.
abbrev pub error_message : SerdeJson → Json → Text
error_message json error = text "eth_sendRawTransaction" ++ (text ": " ++ json.to_string error)

-- The node answered with an error, which does not say that the transaction is known already.
abbrev pub IsRefusal : SerdeJson → Json → Text → Type 0
IsRefusal json value message =
    (error : Json) × (get (text "error") value ≡ some error)
    × (contains (to_ascii_lowercase (error_message json error)) (text "already known") ≡ false)
    × (message ≡ error_message json error)

-- The node answered with the hash, or with an error that says that the transaction is known already.
abbrev pub IsConsent : SerdeJson → Json → Text → Type 0
IsConsent json value hash =
    ((get (text "error") value ≡ none)
      × ((returned : Text) × (get_str (text "result") value ≡ some returned)
          × (eq_ignore_ascii_case returned hash ≡ true)))
    ⊎ ((error : Json) × (get (text "error") value ≡ some error)
        × (contains (to_ascii_lowercase (error_message json error)) (text "already known") ≡ true))

-- The sending is known as `hash`, unless the node answered with a refusal; it counts as accepted only
-- after a consent.
abbrev pub IsKnownAs : SerdeJson → Result Text → Text → Sending → Type 0
IsKnownAs json answer hash (accepted tx) =
    (tx ≡ hash) × ((value : Json) × IsAnswer json answer value × IsConsent json value hash)
IsKnownAs json answer hash (ambiguous tx message) = tx ≡ hash
IsKnownAs json answer hash (rejected message) =
    (value : Json) × IsAnswer json answer value × IsRefusal json value message

is_one-eq : (n : Option ℕ) → is_one n ≡ true → n ≡ some 1
is_one-eq none e = cc
is_one-eq (some n) e = let one : n ≡ 1 = ground arith in ap some one

is_envelope-IsAnswer :
    (json : SerdeJson) (answer : Result Text) (body : Text) (value : Json)
    → answer ≡ ok body
    → json.from_str body ≡ some value
    → is_envelope value ≡ true
    → IsAnswer json answer value
unfolding is_envelope
is_envelope-IsAnswer json answer body value got parsed e =
    let version : holds_of (get_str (text "jsonrpc") value) (λ v. text_eq v (text "2.0")) ≡ true =
      ground arith in
    let numbered : is_one (and_then (get (text "id") value) as_u64) ≡ true = ground arith in
    let (v, found, same) = holds_of-true (get_str (text "jsonrpc") value) _ version in
    (
      (body, got, parsed),
      found ∙ ap some ((text_eq_iff v (text "2.0")).0 same),
      is_one-eq (and_then (get (text "id") value) as_u64) numbered,
    )

confirmed_hash-IsKnownAs :
    (json : SerdeJson) (answer : Result Text) (hash : Text) (value : Json) (returned : Option Text)
    → IsAnswer json answer value
    → get (text "error") value ≡ none
    → get_str (text "result") value ≡ returned
    → IsKnownAs json answer hash (confirmed_hash hash returned)
unfolding confirmed_hash
confirmed_hash-IsKnownAs json answer hash value none answered free found = refl
confirmed_hash-IsKnownAs json answer hash value (some returned) answered free found =
    elim (Bool-cases (eq_ignore_ascii_case returned hash)) [
      | inl same ↦
          rw (confirmed_hash, same) (refl, (value, answered, inl (free, (returned, found, same))))
      | inr other ↦ rw (confirmed_hash, other) refl
    ]

sent_value-IsKnownAs :
    (json : SerdeJson) (answer : Result Text) (body hash : Text) (value : Json)
    → answer ≡ ok body
    → json.from_str body ≡ some value
    → IsKnownAs json answer hash (sent_value json hash value)
unfolding sent_value
sent_value-IsKnownAs json answer body hash value got parsed =
    elim (Bool-cases (is_envelope value)) [
      | inr bad ↦ rw (sent_value, bad) refl
      | inl good ↦
          let answered = is_envelope-IsAnswer json answer body value got parsed good in
          elim (Option-cases (get (text "error") value)) [
            | inl none_ ↦
                rw (sent_value, good, none_)
                  (confirmed_hash-IsKnownAs json answer hash value (get_str (text "result") value)
                    answered none_ refl)
            | inr (error, found) ↦
                elim (Bool-cases (
                  contains (to_ascii_lowercase (error_message json error))
                    (text "already known"))) [
                      | inl known ↦
                          rw (sent_value, good, found, known)
                            (refl, (value, answered, inr (error, found, known)))
                      | inr unknown ↦
                          rw (sent_value, good, found, unknown)
                            (value, answered, (error, found, unknown, refl))
                    ]
          ]
    ]

sent_value-sent :
    (json : SerdeJson) (c : Crates) (raw body hash : Text) (answer : Result Text) (value : Json)
    → raw_transaction_hash c raw ≡ ok hash
    → answer ≡ ok body
    → json.from_str body ≡ some value
    → sent_value json hash value ≡ send_raw_transaction json c raw answer
unfolding send_raw_transaction
sent_value-sent json c raw body hash answer value found got parsed =
    rw (send_raw_transaction, found, got, parsed) refl

-- Whatever the node answers, and if its answer is lost or cannot be read, a sending is known by the
-- hash that was computed from the bytes, never by one that the node names, unless the node answered
-- with an error that does not say that the transaction is known already: only then is it rejected. It
-- counts as accepted only if the node named that hash or said that the transaction is known already.
-- Where that hash cannot be computed, the sending is rejected.
pub send_raw_transaction-IsKnownAs :
    (json : SerdeJson) (c : Crates) (raw : Text) (answer : Result Text)
    → ((hash : Text) × (raw_transaction_hash c raw ≡ ok hash)
        × IsKnownAs json answer hash (send_raw_transaction json c raw answer))
      ⊎ ((message : Text) × (raw_transaction_hash c raw ≡ err message)
          × (send_raw_transaction json c raw answer ≡ rejected message))
unfolding send_raw_transaction
send_raw_transaction-IsKnownAs json c raw answer =
    elim (Result-cases (raw_transaction_hash c raw)) [
      | inr (message, bad) ↦ inr (message, bad, rw (send_raw_transaction, bad) refl)
      | inl (hash, found) ↦ inl (
        hash,
        found,
        elim (Result-cases answer) [
          | inr (message, lost) ↦ rw (send_raw_transaction, found, lost) refl
          | inl (body, got) ↦ elim (Option-cases (json.from_str body)) [
            | inl broken ↦ rw (send_raw_transaction, found, got, broken) refl
            | inr (value, parsed) ↦
                rw (← (sent_value-sent json c raw body hash answer value found got parsed))
                  (sent_value-IsKnownAs json answer body hash value got parsed)
          ]
        ],
      )
    ]
