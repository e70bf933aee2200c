-- ===== src/Rpc/Settled.antt =====
-- What the settled amount of a receipt is the sum of: rust/facilitator/src/rpc.rs.
use ic_facilitator.Prelude.{
  ℕ, ◌+◌, ◌≡◌, ◌⊎◌, refl, Bool, true, false, not, ◌||◌, Option, some, List, [], ◌∷◌, arith, inl,
  inr, ok, Option-cases, Result-cases, Bool-cases, all, Any,
}
use ic_facilitator.Text.{Text, text, dec_from, is_ascii_digit, eq_ignore_ascii_case}
use ic_facilitator.Crates.{Crates}
use ic_facilitator.Hexutil.{address_hex, same_address}
use ic_facilitator.Rpc.Json.{Json, get_str, get_array, as_str, and_then}
use ic_facilitator.Rpc.Decimal.{decimal_add}
use ic_facilitator.Rpc.Decimal.Sums.{decimal_add_value}
use ic_facilitator.Rpc.Receipts.{holds_of, is_removed, topic_address, uint256_hex_decimal}
use ic_facilitator.Rpc.Contracts.{
  names, settled_topic, settled_topics, settled_loop, settled_event_amount, settled_log_amount,
}
use ic_facilitator.Rpc.Logs.{
  IsSettled, IsAddress, HasTopics, and_then-some, holds_of-true, is_removed-IsKept,
  IsKept-is_removed,
}

names-IsAddress :
    (expected : Text) (topic : Json) → names expected topic ≡ true → IsAddress expected topic
names-IsAddress expected topic e =
    let (address, read, same) =
      holds_of-true (and_then (as_str topic) topic_address) (λ a. same_address a expected) e in
    let (t, found, is_) = and_then-some (as_str topic) topic_address address read in
    (t, address, found, is_, same)

IsAddress-names :
    (expected : Text) (topic : Json) → IsAddress expected topic → names expected topic ≡ true
IsAddress-names expected topic (t, address, found, read, same) =
    let named : and_then (as_str topic) topic_address ≡ some address = rw (found, read) refl in
    rw (names, named) same

abbrev signature : Text
signature = text "0x7337b4386b690fdb8ba66905b92b9d45d33bc6626ee2620c905fb150ec0cc47d"

settled_topics-HasTopics :
    (receiver token sender : Text) (topics : List Json)
    → settled_topics receiver token sender topics ≡ true
    → HasTopics signature (receiver ∷ token ∷ sender ∷ []) topics
settled_topics-HasTopics receiver token sender [] e = cc
settled_topics-HasTopics receiver token sender (t0 ∷ []) e = cc
settled_topics-HasTopics receiver token sender (t0 ∷ t1 ∷ []) e = cc
settled_topics-HasTopics receiver token sender (t0 ∷ t1 ∷ t2 ∷ []) e = cc
settled_topics-HasTopics receiver token sender (t0 ∷ t1 ∷ t2 ∷ t3 ∷ topics) e =
    let event : holds_of (as_str t0) (eq_ignore_ascii_case settled_topic) ≡ true = ground arith in
    let first : names receiver t1 ≡ true = ground arith in
    let second : names token t2 ≡ true = ground arith in
    let third : names sender t3 ≡ true = ground arith in
    (
      holds_of-true (as_str t0) (eq_ignore_ascii_case settled_topic) event,
      (
        names-IsAddress receiver t1 first,
        (names-IsAddress token t2 second, (names-IsAddress sender t3 third, tt)),
      ),
    )

HasTopics-settled_topics :
    (receiver token sender : Text) (topics : List Json)
    → HasTopics signature (receiver ∷ token ∷ sender ∷ []) topics
    → settled_topics receiver token sender topics ≡ true
HasTopics-settled_topics receiver token sender [] h = absurd h
HasTopics-settled_topics receiver token sender (t0 ∷ []) (event, h) = absurd h
HasTopics-settled_topics receiver token sender (t0 ∷ t1 ∷ []) (event, (one, h)) = absurd h
HasTopics-settled_topics receiver token sender (t0 ∷ t1 ∷ t2 ∷ []) (event, (one, (two, h))) =
    absurd h
HasTopics-settled_topics receiver token sender (t0 ∷ t1 ∷ t2 ∷ t3 ∷ topics)
      ((t, found, said), (one, (two, (three, _)))) =
    let event : holds_of (as_str t0) (eq_ignore_ascii_case settled_topic) ≡ true = rw found said in
    rw
      (
        event,
        IsAddress-names receiver t1 one,
        IsAddress-names token t2 two,
        IsAddress-names sender t3 three,
      )
      refl

-- The code reads an amount of a log exactly when the log settles it.
settled_log_amount-IsSettled :
    (c : Crates) (log : Json) (contract receiver token sender amount : Text)
    → settled_log_amount c log contract receiver token sender ≡ some amount
    → IsSettled c contract receiver token sender log amount
unfolding settled_log_amount
settled_log_amount-IsSettled c log contract receiver token sender amount e =
    elim (Bool-cases (
      is_removed log
      || not (holds_of (get_str (text "address") log) (λ a. same_address a contract)))) [
        | inl other ↦ absurd (let f = rw (settled_log_amount, other) at e in cc)
        | inr counts ↦
            let f = rw (settled_log_amount, counts) at e in
            let kept : is_removed log ≡ false = ground arith in
            let ours : holds_of (get_str (text "address") log) (λ a. same_address a contract)
                ≡ true =
              ground arith in
            let (topics, listed, g) = and_then-some (get_array (text "topics") log) _ amount f in
            elim (Bool-cases (settled_topics receiver token sender topics)) [
              | inr unlike ↦ absurd (let h = rw unlike at g in cc)
              | inl alike ↦
                  let h = rw alike at g in
                  (
                    is_removed-IsKept log kept,
                    holds_of-true (get_str (text "address") log) (λ a. same_address a contract)
                        ours,
                    (topics, listed, settled_topics-HasTopics receiver token sender topics alike),
                    and_then-some (get_str (text "data") log) (uint256_hex_decimal c) amount h,
                  )
            ]
      ]

IsSettled-settled_log_amount :
    (c : Crates) (log : Json) (contract receiver token sender amount : Text)
    → IsSettled c contract receiver token sender log amount
    → settled_log_amount c log contract receiver token sender ≡ some amount
unfolding settled_log_amount
IsSettled-settled_log_amount c log contract receiver token sender amount
      (kept, (address, found, same), (topics, listed, has), (value, given, reads)) =
    let alike = HasTopics-settled_topics receiver token sender topics has in
    rw (settled_log_amount, IsKept-is_removed log kept, found, same, listed, alike, given) reads

decimal_add-ok :
    (left right sum : Text)
    → decimal_add left right ≡ ok sum
    → dec_from 0 sum ≡ dec_from 0 left + dec_from 0 right
unfolding decimal_add
decimal_add-ok left right sum e = elim (Bool-cases (all is_ascii_digit left)) [
  | inr bad ↦ absurd (ground arith)
  | inl p ↦ elim (Bool-cases (all is_ascii_digit right)) [
    | inr bad ↦ absurd (ground arith)
    | inl q ↦
        let (sum', same, value, _) = decimal_add_value left right p q in
        let one : sum' ≡ sum = ground arith in rw (← one) value
  ]
]

-- A number added up from the logs: each that pays an amount adds it, and the others pay none.
pub data Adds (pays : Json → Text → Type 0) : List Json → ℕ → Type 0 where
  nothing : Adds pays [] 0
  paid :
      {log : Json} {logs : List Json} {rest : ℕ} (amount : Text)
      → pays log amount
      → Adds pays logs rest
      → Adds pays (log ∷ logs) (dec_from 0 amount + rest)
  unpaid :
      {log : Json} {logs : List Json} {rest : ℕ}
      → ((amount : Text) → ¬ pays log amount)
      → Adds pays logs rest
      → Adds pays (log ∷ logs) rest

module _ (pays : Json → Text → Type 0) (read : Json → Option Text)
    (sound : (log : Json) (amount : Text) → read log ≡ some amount → pays log amount)
    (complete : (log : Json) (amount : Text) → pays log amount → read log ≡ some amount) where
  -- The loop adds what the logs pay to what it starts with.
  settled_loop-Adds :
      (logs : List Json) (total sum : Text) (matched : Bool)
      → settled_loop read logs total matched ≡ some sum
      → (n : ℕ) × (dec_from 0 sum ≡ dec_from 0 total + n) × Adds pays logs n
  unfolding settled_loop
  settled_loop-Adds [] total sum matched e = (0, ground arith, nothing)
  settled_loop-Adds (log ∷ logs) total sum matched e = elim (Option-cases (read log)) [
    | inl other ↦
        let f = rw (settled_loop, other) at e in
        let (n, sums, adds) = settled_loop-Adds logs total sum matched f in
        let silent : (amount : Text) → ¬ pays log amount =
          λ amount h. (let g = complete log amount h in cc) in
        (n, sums, unpaid silent adds)
    | inr (amount, found) ↦ elim (Result-cases (decimal_add total amount)) [
      | inr (message, bad) ↦ absurd (let f = rw (settled_loop, found, bad) at e in cc)
      | inl (sum', added) ↦
          let f = rw (settled_loop, found, added) at e in
          let (n, sums, adds) = settled_loop-Adds logs sum' sum true f in
          let step = decimal_add-ok total amount sum' added in
          (
            dec_from 0 amount + n,
            omega (arith, sums, step),
            paid amount (sound log amount found) adds,
          )
    ]
  ]

  -- A sum is answered only where a log pays.
  settled_loop-Any :
      (logs : List Json) (total sum : Text) (matched : Bool)
      → settled_loop read logs total matched ≡ some sum
      → (matched ≡ true) ⊎ Any (λ log. (amount : Text) × pays log amount) logs
  unfolding settled_loop
  settled_loop-Any [] total sum true e = inl refl
  settled_loop-Any [] total sum false e = cc
  settled_loop-Any (log ∷ logs) total sum matched e = elim (Option-cases (read log)) [
    | inl other ↦
        let f = rw (settled_loop, other) at e in
        elim (settled_loop-Any logs total sum matched f) [
          | inl before ↦ inl before
          | inr later ↦ inr (inr later)
        ]
    | inr (amount, found) ↦ inr (inl (amount, sound log amount found))
  ]

-- The settled amount that is read from a receipt is the sum of what its logs settle, one at least. A
-- log settles its amount exactly if it is not removed and is an event `Settled` of the contract, for
-- the receiver and the token, by the receipt's sender.
pub settled_event_amount-Adds :
    (c : Crates) (receipt : Json) (contract : List ℕ) (receiver token total : Text)
    → settled_event_amount c receipt contract receiver token ≡ some total
    → (logs : List Json) × (get_array (text "logs") receipt ≡ some logs)
      × ((sender : Text) × (get_str (text "from") receipt ≡ some sender)
          × Adds
              (IsSettled c (address_hex c contract) receiver token sender)
              logs
              (dec_from 0 total)
          × Any
              (λ log.
                (amount : Text) × IsSettled c
                  (address_hex c contract)
                  receiver
                  token
                  sender
                  log
                  amount)
              logs)
unfolding settled_event_amount text
settled_event_amount-Adds c receipt contract receiver token total e =
    let (logs, found, f) = and_then-some (get_array (text "logs") receipt) _ total e in
    let (sender, from, g) = and_then-some (get_str (text "from") receipt) _ total f in
    let at_ = address_hex c contract in
    let read : Json → Option Text = λ log. settled_log_amount c log at_ receiver token sender in
    let sound = λ (log : Json) (amount : Text).
      settled_log_amount-IsSettled c log at_ receiver token sender amount in
    let complete = λ (log : Json) (amount : Text).
      IsSettled-settled_log_amount c log at_ receiver token sender amount in
    let (n, sums, adds) =
      settled_loop-Adds (IsSettled c at_ receiver token sender) read sound complete logs (text "0")
        total false g in
    let same : n ≡ dec_from 0 total = omega (arith, sums) in
    let some_one =
      settled_loop-Any (IsSettled c at_ receiver token sender) read sound complete logs (text "0")
        total false g in
    (
      logs,
      found,
      (
        sender,
        from,
        rw same at adds,
        elim some_one [ inl never ↦ absurd (let h = never in cc) | inr there ↦ there ],
      ),
    )
