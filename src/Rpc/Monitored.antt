-- ===== src/Rpc/Monitored.antt =====
-- The words of an answer, as numbers: rust/facilitator/src/rpc.rs.
use ic_facilitator.Prelude.{
  ℕ, zero, suc, ◌+◌, ◌*◌, ◌^◌, ◌<◌, ◌≡◌, ◌∙◌, ◌++◌, refl, sym, ap, true, not, ◌==◌, List, [], ◌∷◌,
  take, drop, all, All, length, some, none, is_some, ◌||◌, Option, arith, Result, ok, err, fail_if,
  ◌%◌, ok_or, >>=-eq-ok,
}
use ic_facilitator.Text.{Text, text, to_decimal, parse_u64}
use ic_facilitator.Text.Numerals.{parse_uint-to_decimal}
use ic_facilitator.Crates.{Crates, HexLaws}
use ic_facilitator.Hexutil.{parse_hex, strip_0x, labelled}
use ic_facilitator.Hexutil.Words.{IsByte, scale, be_value, be_value-lt, scale-eq-pow}
use ic_facilitator.Rpc.Decimal.{uint256_hex_decimal_word}
use ic_facilitator.Rpc.Decimal.Print.{uint256_hex_decimal_word-to_decimal}
use ic_facilitator.Rpc.Json.{SerdeJson, get, get_str}
use ic_facilitator.Rpc.Outcomes.{is_envelope}
use ic_facilitator.Rpc.Words.{
  uint128_hex_decimal_word, chunks, parse_words, word_0, word_1, monitor_words,
  auto_claim_channel_state,
}
use ic_facilitator.AutoClaim.{amount}
use ic_facilitator.AutoClaim.Worker.{ChannelState}

be_value-skip :
    (n : ℕ) (bytes : List ℕ)
    → all (λ byte. byte == 0) (take n bytes) ≡ true
    → be_value bytes ≡ be_value (drop n bytes)
be_value-skip zero bytes h = refl
be_value-skip (suc n) [] h = refl
be_value-skip (suc n) (b ∷ bytes) h =
    let none_left : (b ≡ 0) × (all (λ byte. byte == 0) (take n bytes) ≡ true) = ground arith in
    let rest = be_value-skip n bytes none_left.1 in rw none_left.0 (omega (arith, rest))

length-drop : (n k : ℕ) (bytes : List ℕ) → length bytes ≡ n + k → length (drop n bytes) ≡ k
length-drop zero k bytes h = omega (arith, h)
length-drop (suc n) k [] h = omega (arith, h)
length-drop (suc n) k (b ∷ bytes) h = length-drop n k bytes (omega (arith, h))

All-drop : (n : ℕ) (bytes : List ℕ) → All IsByte bytes → All IsByte (drop n bytes)
All-drop zero bytes h = h
All-drop (suc n) [] h = tt
All-drop (suc n) (b ∷ bytes) h = All-drop n bytes h.1

pub uint128_hex_decimal_word-parses :
    (bytes : List ℕ) (label t : Text)
    → All IsByte bytes
    → length bytes ≡ 32
    → uint128_hex_decimal_word bytes label ≡ ok t
    → amount t ≡ some (be_value bytes)
unfolding uint128_hex_decimal_word amount
uint128_hex_decimal_word-parses bytes label t h size e =
    let (_, small, r) =
      >>=-eq-ok
        (fail_if (not (all (λ byte. byte == 0) (take 16 bytes))) (label ++ text " exceeds uint128"))
        _ e in
    let zeros : all (λ byte. byte == 0) (take 16 bytes) ≡ true = ground arith in
    let low = drop 16 bytes in
    let width : scale low ≡ 256 ^ 16 =
      scale-eq-pow low ∙ ap (λ k. 256 ^ k) (length-drop 16 16 bytes size) in
    let fits : be_value bytes < 2 ^ 128 =
      omega (arith, be_value-skip 16 bytes zeros, be_value-lt low (All-drop 16 bytes h), width) in
    let printed : uint256_hex_decimal_word bytes ≡ t = ground arith in
    let same : t ≡ to_decimal (be_value bytes) =
      sym printed ∙ uint256_hex_decimal_word-to_decimal bytes h in
    rw same (parse_uint-to_decimal (2 ^ 128) (be_value bytes) fits)

All-take : (n : ℕ) (bytes : List ℕ) → All IsByte bytes → All IsByte (take n bytes)
All-take zero bytes h = tt
All-take (suc n) [] h = tt
All-take (suc n) (b ∷ bytes) h = (h.0, All-take n bytes h.1)

length-take_le : (n k : ℕ) (bytes : List ℕ) → length bytes ≡ n + k → length (take n bytes) ≡ n
length-take_le zero k bytes h = refl
length-take_le (suc n) k [] h = omega (arith, h)
length-take_le (suc n) k (b ∷ bytes) h =
    let rest = length-take_le n k bytes (omega (arith, h)) in omega (arith, rest)

-- The bytes of a word.
abbrev IsRead : List ℕ → Type 0
IsRead w = All IsByte w × (length w ≡ 32)

ok_or-ok : {A : Type 0} (o : Option A) (e : Text) (a : A) → ok_or o e ≡ ok a → o ≡ some a
ok_or-ok none e a h = cc
ok_or-ok (some b) e a h = cc

parse_hex-bytes :
    (c : Crates) (laws : HexLaws c) (value : Text) (len : ℕ) (bytes : List ℕ)
    → parse_hex c value (some len) ≡ ok bytes
    → All IsByte bytes × (length bytes ≡ len)
unfolding parse_hex
parse_hex-bytes c laws value len bytes e =
    let (_, _, r0) =
      >>=-eq-ok (fail_if (not (length (strip_0x value) % 2 == 0)) (text "hex length must be even"))
        _ e in
    let (b, decoded, r1) =
      >>=-eq-ok (ok_or (c.hex_decode (strip_0x value)) (text "invalid hex")) _ r0 in
    let some_b = ok_or-ok (c.hex_decode (strip_0x value)) (text "invalid hex") b decoded in
    let in_range = laws.decode_bytes (strip_0x value) b some_b in
    let both : (b ≡ bytes) × (length b ≡ len) = ground arith in
    (rw (← both.0) in_range, rw (← both.0) both.1)

labelled-ok :
    {A : Type 0} (label : Text) (r : Result A) (a : A) → labelled label r ≡ ok a → r ≡ ok a
labelled-ok label (ok b) a h = h
labelled-ok label (err e) a h = cc

parse_words-IsRead :
    (c : Crates) (laws : HexLaws c) (value label : Text) (words : List (List ℕ))
    → parse_words c value 2 label ≡ ok words
    → IsRead (word_0 words) × IsRead (word_1 words)
unfolding parse_words chunks
parse_words-IsRead c laws value label words e =
    let (bytes, read, r) = >>=-eq-ok (labelled label (parse_hex c value (some (32 * 2)))) _ e in
    let (range, size) =
      parse_hex-bytes c laws value 64 bytes
        (labelled-ok label (parse_hex c value (some 64)) bytes read) in
    let same : chunks 2 bytes ≡ words = cc in
    let second = drop 32 bytes in
    let size' : length second ≡ 32 = length-drop 32 32 bytes size in
    rw (← same) (
      (All-take 32 bytes range, length-take_le 32 32 bytes size),
      (All-take 32 second (All-drop 32 bytes range), length-take_le 32 0 second size'),
    )

monitor_words-IsRead :
    (json : SerdeJson) (c : Crates) (laws : HexLaws c) (method : Text) (answer : Result Text)
    (words : List (List ℕ))
    → monitor_words json c method answer ≡ ok words
    → IsRead (word_0 words) × IsRead (word_1 words)
unfolding monitor_words
monitor_words-IsRead json c laws method answer words e =
    let (body, _, r0) = >>=-eq-ok answer _ e in
    let (value, _, r1) =
      >>=-eq-ok (ok_or (json.from_str body) (text "monitor invalid JSON")) _ r0 in
    let (_, _, r2) =
      >>=-eq-ok
        (fail_if (not (is_envelope value) || is_some (get (text "error") value))
          (text "monitor RPC envelope/error"))
        _ r1 in
    let (result, _, r3) =
      >>=-eq-ok (ok_or (get_str (text "result") value) (text "monitor missing result")) _ r2 in
    parse_words-IsRead c laws result method words r3

-- What the worker reads of a channel from the node's answers is a balance and a claimed total that
-- its own parsing of amounts takes, so that they never trap it.
pub auto_claim_channel_state-amounts :
    (json : SerdeJson) (c : Crates) (id : Text) (channels withdrawals : Result Text)
    (state : ChannelState)
    → HexLaws c
    → auto_claim_channel_state json c id channels withdrawals ≡ ok state
    → ((balance : ℕ) × (amount state.balance ≡ some balance))
      × ((claimed : ℕ) × (amount state.claimed ≡ some claimed))
unfolding auto_claim_channel_state
auto_claim_channel_state-amounts json c id channels withdrawals state laws e =
    let (_, _, r0) = >>=-eq-ok (parse_hex c id (some 32)) _ e in
    let (channel, words, r1) =
      >>=-eq-ok (monitor_words json c (text "channels(bytes32)") channels) _ r0 in
    let (withdrawal, _, r2) =
      >>=-eq-ok (monitor_words json c (text "pendingWithdrawals(bytes32)") withdrawals) _ r1 in
    let (balance, one, r3) =
      >>=-eq-ok (uint128_hex_decimal_word (word_0 channel) (text "balance")) _ r2 in
    let (claimed, two, r4) =
      >>=-eq-ok (uint128_hex_decimal_word (word_1 channel) (text "totalClaimed")) _ r3 in
    let (initiated, _, r5) =
      >>=-eq-ok (uint128_hex_decimal_word (word_1 withdrawal) (text "initiatedAt")) _ r4 in
    let (at_, _, r6) =
      >>=-eq-ok (ok_or (parse_u64 initiated) (text "invalid withdrawal timestamp")) _ r5 in
    let (first, second) =
      monitor_words-IsRead json c laws (text "channels(bytes32)") channels channel words in
    let read : ChannelState = record { balance = balance; claimed = claimed; withdrawal = at_ } in
    let same : read ≡ state = cc in
    rw (← same) (
      (
        be_value (word_0 channel),
        uint128_hex_decimal_word-parses (word_0 channel) (text "balance") balance first.0 first.1
            one,
      ),
      (
        be_value (word_1 channel),
        uint128_hex_decimal_word-parses (word_1 channel) (text "totalClaimed") claimed second.0
            second.1 two,
      ),
    )
