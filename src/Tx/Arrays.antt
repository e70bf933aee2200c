-- ===== src/Tx/Arrays.antt =====
-- Reading an encoded array and the arguments of a claim: rust/facilitator/src/tx.rs.
use ic_facilitator.Prelude.{
  ℕ, ◌+◌, ◌-◌, ◌*◌, ◌^◌, ◌≤◌, ◌<◌, ◌≡◌, refl, ap, sym, ◌∙◌, List, [], ◌∷◌, ◌++◌, map, some, arith,
  length, drop, replicate, length-append,
}
use ic_facilitator.Hexutil.{u256_word}
use ic_facilitator.Tx.Abi.{
  encode_bytes, padded_len, offset_words, joined, encode_tails, encode_bytes_array,
}
use ic_facilitator.Tx.Calls.{claim_arguments}
use ic_facilitator.Tx.Reading.{
  word_at, bytes_at, nth, before, drop_first, drop_plus, u256_word-length, word_at-u256_word,
  drop-u256_word, bytes_at-encode_bytes, offset_words-length, before-le, offset_words-nth,
  joined-nth, nth-map,
}

encode_bytes-le : (bytes : List ℕ) → length bytes ≤ length (encode_bytes bytes)
unfolding encode_bytes
encode_bytes-le bytes =
    let zeros : List ℕ = replicate (padded_len (length bytes) - length bytes) 0 in
    omega
      (arith, length-append (u256_word (length bytes)) (bytes ++ zeros), length-append bytes zeros)

length-map : (items : List (List ℕ)) → length (map encode_bytes items) ≡ length items
length-map [] = refl
length-map (x ∷ items) = omega (arith, length-map items)

encode_tails-length :
    (tails : List (List ℕ))
    → length (encode_tails tails) ≡ 32 + (32 * length tails + length (joined tails))
unfolding encode_tails
encode_tails-length tails =
    let offsets = offset_words (32 * length tails) tails in
    omega (
      arith,
      length-append (u256_word (length tails)) (offsets ++ joined tails),
      length-append offsets (joined tails),
      offset_words-length (32 * length tails) tails,
      u256_word-length (length tails),
    )

-- The `i`-th element of an encoded array, found by its offset.
encode_tails-nth :
    (tails : List (List ℕ)) (i : ℕ) (tail : List ℕ)
    → nth i tails ≡ some tail
    → length (encode_tails tails) < 2 ^ 128
    → (word_at (encode_tails tails) ≡ length tails)
      × ((rest : List ℕ) × (drop
              (word_at (drop (32 * i) (drop 32 (encode_tails tails))))
              (drop 32 (encode_tails tails))
            ≡ tail ++ rest))
unfolding encode_tails
encode_tails-nth tails i tail e h =
    let offset = 32 * length tails in
    let offsets = offset_words offset tails in
    let size = encode_tails-length tails in
    let (rest, found) = joined-nth i tails tail e in
    let body : drop 32 (encode_tails tails) ≡ offsets ++ joined tails =
      drop-u256_word (length tails) (offsets ++ joined tails) in
    let place : word_at (drop (32 * i) (offsets ++ joined tails)) ≡ offset + before i tails =
      offset_words-nth i offset tails tail (joined tails) e (omega (arith, size)) in
    (
      word_at-u256_word (length tails) (offsets ++ joined tails) (omega (arith, size)),
      (
        rest,
        rw (body, place)
            (drop_plus offset (before i tails) (offsets ++ joined tails)
              ∙ ap (drop (before i tails))
                  (drop_first offset offsets (joined tails) (offset_words-length offset tails))
              ∙ found),
      ),
    )

-- An encoded array of byte strings whose size fits a `u128` begins with their number, and a reader
-- who follows the `i`-th offset finds the `i`-th byte string.
pub encode_bytes_array-reads :
    (items : List (List ℕ)) (i : ℕ) (bytes : List ℕ)
    → nth i items ≡ some bytes
    → length (encode_bytes_array items) < 2 ^ 128
    → let body = drop 32 (encode_bytes_array items) in
      (word_at (encode_bytes_array items) ≡ length items)
      × (bytes_at (drop (word_at (drop (32 * i) body)) body) ≡ bytes)
unfolding encode_bytes_array
encode_bytes_array-reads items i bytes e h =
    let tails = map encode_bytes items in
    let at_ = nth-map i items bytes e in
    let (count, (rest, found)) = encode_tails-nth tails i (encode_bytes bytes) at_ h in
    let fits : length bytes < 2 ^ 128 = omega (
      arith,
      encode_bytes-le bytes,
      before-le i tails (encode_bytes bytes) at_,
      encode_tails-length tails,
    ) in
    (count ∙ length-map items, ap bytes_at found ∙ bytes_at-encode_bytes bytes rest fits)

append_none : (bytes : List ℕ) → bytes ++ [] ≡ bytes
append_none [] = refl
append_none (b ∷ bytes) = ap (λ t. b ∷ t) (append_none bytes)

-- In the arguments of `claimWithSignature`, where they fit a `u128`, the first offset leads to the
-- claims and the second to the authorizer's signature.
pub claim_arguments-reads :
    (claims_data signature : List ℕ)
    → length (claim_arguments claims_data signature) < 2 ^ 128
    → let arguments = claim_arguments claims_data signature in
      (drop (word_at arguments) arguments ≡ claims_data ++ encode_bytes signature)
      × (bytes_at (drop (word_at (drop 32 arguments)) arguments) ≡ signature)
unfolding claim_arguments
claim_arguments-reads claims_data signature h =
    let tail = claims_data ++ encode_bytes signature in
    let second = u256_word (64 + length claims_data) ++ tail in
    let size : 64 + (length claims_data + length (encode_bytes signature)) < 2 ^ 128 = omega (
      arith,
      length-append (u256_word 64) second,
      u256_word-length 64,
      length-append (u256_word (64 + length claims_data)) tail,
      u256_word-length (64 + length claims_data),
      length-append claims_data (encode_bytes signature),
    ) in
    let arguments = u256_word 64 ++ second in
    let after : drop 32 arguments ≡ second = drop-u256_word 64 second in
    let two : drop 64 arguments ≡ tail =
      drop_plus 32 32 arguments
      ∙ ap (drop 32) after
      ∙ drop-u256_word (64 + length claims_data) tail in
    let first : word_at arguments ≡ 64 = word_at-u256_word 64 second (omega arith) in
    let place : word_at (drop 32 arguments) ≡ 64 + length claims_data =
      ap word_at after ∙ word_at-u256_word (64 + length claims_data) tail (omega (arith, size)) in
    let found : drop (64 + length claims_data) arguments ≡ encode_bytes signature =
      drop_plus 64 (length claims_data) arguments
      ∙ ap (drop (length claims_data)) two
      ∙ drop_first (length claims_data) claims_data (encode_bytes signature) refl in
    (
      ap (λ n. drop n arguments) first ∙ two,
      ap bytes_at
            (ap (λ n. drop n arguments) place ∙ found ∙ sym (append_none (encode_bytes signature)))
          ∙ bytes_at-encode_bytes signature [] (omega (arith, size, encode_bytes-le signature)),
    )
