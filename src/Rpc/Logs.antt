-- ===== src/Rpc/Logs.antt =====
-- What a log of a receipt must say to count: rust/facilitator/src/rpc.rs.
use ic_facilitator.Prelude.{
  ◌≡◌, ◌≢◌, refl, Bool, true, false, Option, none, some, List, [], ◌∷◌, arith, inl, inr, ok, err,
  Result, Option-cases, Bool-cases, Any, any,
}
use ic_facilitator.Text.{Text, text, text_eq_iff, eq_ignore_ascii_case}
use ic_facilitator.Map.{Map}
use ic_facilitator.Crates.{Crates, Message}
use ic_facilitator.Config.{configured_token_address}
use ic_facilitator.Hexutil.{same_address}
use ic_facilitator.Rpc.Json.{Json, get, get_str, get_array, as_str, as_bool, and_then}
use ic_facilitator.Rpc.Receipts.{
  ExpectedTransfer, transfer_log_matches, transfer_of, is_transfer, is_token, is_removed,
  transfer_topic, has_expected_transfer, holds_of, topic_address, uint256_hex_decimal,
}

-- The node does not call the log removed.
abbrev pub IsKept : Json → Type 0
IsKept log = and_then (get (text "removed") log) as_bool ≢ some true

-- A topic that is the signature of an event, and one that is an address.
abbrev pub IsEvent : Text → Json → Type 0
IsEvent signature topic =
    (t : Text) × (as_str topic ≡ some t) × (eq_ignore_ascii_case signature t ≡ true)

abbrev pub IsAddress : Text → Json → Type 0
IsAddress expected topic =
    (t address : Text) × (as_str topic ≡ some t)
    × (topic_address t ≡ some address)
    × (same_address address expected ≡ true)

-- The topics begin with the event's signature and these addresses.
abbrev pub HaveAddresses : List Text → List Json → Type 0
HaveAddresses [] topics = Unit
HaveAddresses (address ∷ addresses) [] = ⊥
HaveAddresses (address ∷ addresses) (topic ∷ topics) =
    IsAddress address topic × HaveAddresses addresses topics

abbrev pub HasTopics : Text → List Text → List Json → Type 0
HasTopics signature addresses [] = ⊥
HasTopics signature addresses (topic ∷ topics) =
    IsEvent signature topic × HaveAddresses addresses topics

-- The log's data is the number that prints as `amount`.
abbrev pub IsOfAmount : Crates → Text → Json → Type 0
IsOfAmount c amount log =
    (value : Text) × (get_str (text "data") log ≡ some value)
    × (uint256_hex_decimal c value ≡ some amount)

-- The log is an event `Transfer(address,address,uint256)` of the configured token, from the expected
-- sender to the expected receiver, of the expected amount.
abbrev pub IsTransferOf : Message → Map Text → ExpectedTransfer → Json → Type 0
IsTransferOf m vars expected log =
    IsKept log
    × ((address token : Text) × (get_str (text "address") log ≡ some address)
        × (configured_token_address m vars ≡ ok token)
        × (same_address address token ≡ true))
    × ((topics : List Json) × (get_array (text "topics") log ≡ some topics)
        × HasTopics (text "0xddf252ad1be2c89b69c2b068fc378daa952ba7f163c4a11628f55a4df523b3ef")
            (expected.from ∷ expected.to ∷ []) topics)
    × IsOfAmount m.crates expected.amount log

-- The log is an event `Settled` of the contract, for the receiver and the token, by the sender.
abbrev pub IsSettled : Crates → Text → Text → Text → Text → Json → Text → Type 0
IsSettled c contract receiver token sender log amount =
    IsKept log
    × ((address : Text) × (get_str (text "address") log ≡ some address)
        × (same_address address contract ≡ true))
    × ((topics : List Json) × (get_array (text "topics") log ≡ some topics)
        × HasTopics (text "0x7337b4386b690fdb8ba66905b92b9d45d33bc6626ee2620c905fb150ec0cc47d")
            (receiver ∷ token ∷ sender ∷ []) topics)
    × IsOfAmount c amount log

pub and_then-some :
    {A B : Type 0} (o : Option A) (f : A → Option B) (b : B)
    → and_then o f ≡ some b
    → (a : A) × (o ≡ some a) × (f a ≡ some b)
and_then-some none f b e = cc
and_then-some (some a) f b e = (a, refl, e)

pub holds_of-true :
    (o : Option Text) (test : Text → Bool)
    → holds_of o test ≡ true
    → (t : Text) × (o ≡ some t) × (test t ≡ true)
holds_of-true none test e = cc
holds_of-true (some t) test e = (t, refl, e)

pub is_removed-IsKept : (log : Json) → is_removed log ≡ false → IsKept log
is_removed-IsKept log e = λ removed. (let f = rw removed at e in cc)

pub IsKept-is_removed : (log : Json) → IsKept log → is_removed log ≡ false
IsKept-is_removed log kept = elim (Option-cases (and_then (get (text "removed") log) as_bool)) [
  | inl missing ↦ rw missing refl
  | inr (b, found) ↦ elim (Bool-cases b) [
    | inl yes_ ↦ absurd (kept (rw (found, yes_) refl))
    | inr no_ ↦ rw (found, no_) refl
  ]
]

is_transfer-some :
    (expected : ExpectedTransfer) (o : Option (Text × Text × Text))
    → is_transfer expected o ≡ true
    → (from to : Text) × (o ≡ some (from, to, expected.amount))
      × (same_address from expected.from ≡ true)
      × (same_address to expected.to ≡ true)
is_transfer-some expected none e = cc
is_transfer-some expected (some (from, to, amount)) e =
    let same : amount ≡ expected.amount = ground (arith, text_eq_iff amount expected.amount) in
    (from, to, rw same refl, ground arith, ground arith)

is_token-ok :
    (r : Result Text) (address : Text)
    → is_token r address ≡ true
    → (token : Text) × (r ≡ ok token) × (same_address address token ≡ true)
is_token-ok (err e) address h = cc
is_token-ok (ok token) address h = (token, refl, h)

-- An address that a topic is read as.
pub read-IsAddress :
    (topic : Json) (address expected : Text)
    → and_then (as_str topic) topic_address ≡ some address
    → same_address address expected ≡ true
    → IsAddress expected topic
read-IsAddress topic address expected e same =
    let (t, found, read) = and_then-some (as_str topic) topic_address address e in
    (t, address, found, read, same)

transfer_of-some :
    (c : Crates) (topics : List Json) (log : Json) (from to : Text) (expected : ExpectedTransfer)
    → transfer_of c topics (get_str (text "data") log) ≡ some (from, to, expected.amount)
    → same_address from expected.from ≡ true
    → same_address to expected.to ≡ true
    → HasTopics
        (text "0xddf252ad1be2c89b69c2b068fc378daa952ba7f163c4a11628f55a4df523b3ef")
        (expected.from ∷ expected.to ∷ [])
        topics
      × IsOfAmount c expected.amount log
unfolding transfer_of
transfer_of-some c [] log from to expected e sent received = cc
transfer_of-some c (t0 ∷ []) log from to expected e sent received = cc
transfer_of-some c (t0 ∷ t1 ∷ []) log from to expected e sent received = cc
transfer_of-some c (t0 ∷ t1 ∷ t2 ∷ topics) log from to expected e sent received =
    elim (Bool-cases (holds_of (as_str t0) (eq_ignore_ascii_case transfer_topic))) [
      | inr other ↦ absurd (let f = rw other at e in cc)
      | inl event ↦
          let f = rw event at e in
          let (from', sender, f1) = and_then-some (and_then (as_str t1) topic_address) _ _ f in
          let (to', receiver, f2) = and_then-some (and_then (as_str t2) topic_address) _ _ f1 in
          let (amount', worth, f3) =
            and_then-some (and_then (get_str (text "data") log) (uint256_hex_decimal c)) _ _ f2 in
          let (value, found, reads) =
            and_then-some (get_str (text "data") log) (uint256_hex_decimal c) amount' worth in
          let one : from' ≡ from = ground arith in
          let two : to' ≡ to = ground arith in
          let three : amount' ≡ expected.amount = ground arith in
          (
            (
              holds_of-true (as_str t0) (eq_ignore_ascii_case transfer_topic) event,
              (
                read-IsAddress t1 from expected.from (rw one at sender) sent,
                (read-IsAddress t2 to expected.to (rw two at receiver) received, tt),
              ),
            ),
            (value, found, rw three at reads),
          )
    ]

-- A log that the code takes for the expected transfer is one.
pub transfer_log_matches-IsTransferOf :
    (m : Message) (vars : Map Text) (log : Json) (expected : ExpectedTransfer)
    → transfer_log_matches m vars log expected ≡ true
    → IsTransferOf m vars expected log
unfolding transfer_log_matches
transfer_log_matches-IsTransferOf m vars log expected e =
    let kept : is_removed log ≡ false = ground arith in
    let of_token : holds_of (get_str (text "address") log)
          (is_token (configured_token_address m vars))
        ≡ true =
      ground arith in
    let moves : is_transfer expected (
          and_then (get_array (text "topics") log)
            (λ topics. transfer_of m.crates topics (get_str (text "data") log)))
        ≡ true =
      ground arith in
    let (address, found, tokens) =
      holds_of-true (get_str (text "address") log) (is_token (configured_token_address m vars))
        of_token in
    let (token, configured, same) = is_token-ok (configured_token_address m vars) address tokens in
    let (from, to, said, sent, received) =
      is_transfer-some expected
        (and_then (get_array (text "topics") log)
          (λ topics. transfer_of m.crates topics (get_str (text "data") log)))
        moves in
    let (topics, listed, read) =
      and_then-some (get_array (text "topics") log)
        (λ topics. transfer_of m.crates topics (get_str (text "data") log))
        (from, to, expected.amount) said in
    let (has, paid) = transfer_of-some m.crates topics log from to expected read sent received in
    (
      is_removed-IsKept log kept,
      (address, token, found, configured, same),
      (topics, listed, has),
      paid,
    )

any-Any :
    (test : Json → Bool) (P : Json → Type 0) (logs : List Json)
    → ((log : Json) → test log ≡ true → P log)
    → any test logs ≡ true
    → Any P logs
any-Any test P [] sound e = cc
any-Any test P (log ∷ logs) sound e = elim (Bool-cases (test log)) [
  | inl holds ↦ inl (sound log holds)
  | inr fails ↦ inr (any-Any test P logs sound (rw fails at e))
]

pub has_expected_transfer-Any :
    (m : Message) (vars : Map Text) (receipt : Json) (expected : ExpectedTransfer)
    → has_expected_transfer m vars receipt expected ≡ true
    → (logs : List Json) × (get_array (text "logs") receipt ≡ some logs)
      × Any (IsTransferOf m vars expected) logs
unfolding has_expected_transfer
has_expected_transfer-Any m vars receipt expected e =
    elim (Option-cases (get_array (text "logs") receipt)) [
      | inl missing ↦ absurd (let f = rw (has_expected_transfer, missing) at e in cc)
      | inr (logs, found) ↦ (
        logs,
        found,
        any-Any (λ log. transfer_log_matches m vars log expected) (IsTransferOf m vars expected)
            logs (λ log. transfer_log_matches-IsTransferOf m vars log expected)
            (rw (has_expected_transfer, found) at e),
      )
    ]
