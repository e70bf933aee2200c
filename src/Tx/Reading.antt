-- ===== src/Tx/Reading.antt =====
-- What a reader of calldata finds at its offsets: rust/facilitator/src/tx.rs.
use native.Mathlib.Nat.{pow-suc}
use ic_facilitator.Prelude.{
  ℕ, zero, suc, ◌+◌, ◌-◌, ◌*◌, ◌/◌, ◌%◌, ◌^◌, ◌≤◌, ◌<◌, ◌≡◌, refl, ap, sym, ◌∙◌, List, [], ◌∷◌,
  ◌++◌, map, Option, none, some, arith, length, take, drop, replicate, length-append,
}
use ic_facilitator.Hexutil.{u256_word, left_pad_32, be_bytes_onto}
use ic_facilitator.Hexutil.Words.{be_value, scale}
use ic_facilitator.Tx.Abi.{encode_bytes, padded_len, offset_words, joined}

module _ {ℓ} {A : Type ℓ} where
  pub take_first : (n : ℕ) (xs ys : List A) → length xs ≡ n → take n (xs ++ ys) ≡ xs
  take_first zero [] ys e = refl
  take_first zero (x ∷ xs) ys e = absurd (omega arith)
  take_first (suc n) [] ys e = absurd (omega arith)
  take_first (suc n) (x ∷ xs) ys e = ap (λ t. x ∷ t) (take_first n xs ys (omega arith))

  pub drop_first : (n : ℕ) (xs ys : List A) → length xs ≡ n → drop n (xs ++ ys) ≡ ys
  drop_first zero [] ys e = refl
  drop_first zero (x ∷ xs) ys e = absurd (omega arith)
  drop_first (suc n) [] ys e = absurd (omega arith)
  drop_first (suc n) (x ∷ xs) ys e = drop_first n xs ys (omega arith)

  drop_none : (n : ℕ) → ◌≡◌ {A = List A} (drop n []) []
  drop_none zero = refl
  drop_none (suc n) = refl

  pub drop_plus : (n m : ℕ) (xs : List A) → drop (n + m) xs ≡ drop m (drop n xs)
  drop_plus zero m xs = ap (λ k. drop k xs) (omega arith)
  drop_plus (suc n) m [] =
      ap (λ k. drop k []) (omega arith) ∙ drop_none (suc n + m) ∙ sym (drop_none m)
  drop_plus (suc n) m (x ∷ xs) =
      ap (λ k. drop k (x ∷ xs)) (let e : suc n + m ≡ suc (n + m) = omega arith in e)
      ∙ drop_plus n m xs

  pub append_assoc : (xs ys zs : List A) → (xs ++ ys) ++ zs ≡ xs ++ (ys ++ zs)
  append_assoc [] ys zs = refl
  append_assoc (x ∷ xs) ys zs = ap (λ t. x ∷ t) (append_assoc xs ys zs)

  abbrev pub nth : ℕ → List A → Option A
  nth i [] = none
  nth zero (x ∷ xs) = some x
  nth (suc i) (x ∷ xs) = nth i xs

-- The number in the word at the front.
abbrev pub word_at : List ℕ → ℕ
word_at bytes = be_value (take 32 bytes)

split_byte : (q r s : ℕ) → q * (256 * s) + r * s ≡ (q * 256 + r) * s
split_byte q r s = omega arith

be_bytes_onto-value :
    (n value : ℕ) (acc : List ℕ)
    → value < 256 ^ n
    → be_value (be_bytes_onto n value acc) ≡ value * scale acc + be_value acc
unfolding be_bytes_onto
be_bytes_onto-value zero value acc h = let z : value ≡ 0 = omega arith in rw z (omega arith)
be_bytes_onto-value (suc n) value acc h =
    let below : value < 256 ^ n * 256 = rw pow-suc at h in
    let rest = be_bytes_onto-value n (value / 256) ((value % 256) ∷ acc) (omega arith) in
    let whole : value / 256 * 256 + value % 256 ≡ value = omega arith in
    let scaled : (value / 256 * 256 + value % 256) * scale acc ≡ value * scale acc =
      ap (λ x. x * scale acc) whole in
    omega (arith, rest, split_byte (value / 256) (value % 256) (scale acc), scaled)

pub u256_word-length : (value : ℕ) → length (u256_word value) ≡ 32
unfolding u256_word left_pad_32
u256_word-length value = refl

pub u256_word-value : (value : ℕ) → value < 2 ^ 128 → be_value (u256_word value) ≡ value
unfolding u256_word left_pad_32 be_bytes_onto
u256_word-value value h = omega (arith, be_bytes_onto-value 16 value [] h)

pub word_at-u256_word :
    (value : ℕ) (rest : List ℕ) → value < 2 ^ 128 → word_at (u256_word value ++ rest) ≡ value
word_at-u256_word value rest h =
    ap be_value (take_first 32 (u256_word value) rest (u256_word-length value))
    ∙ u256_word-value value h

pub drop-u256_word : (value : ℕ) (rest : List ℕ) → drop 32 (u256_word value ++ rest) ≡ rest
drop-u256_word value rest = drop_first 32 (u256_word value) rest (u256_word-length value)

-- A byte string at the front: its length, then itself.
abbrev pub bytes_at : List ℕ → List ℕ
bytes_at bytes = take (word_at bytes) (drop 32 bytes)

-- A byte string that is encoded is read back, whatever follows it.
pub bytes_at-encode_bytes :
    (bytes rest : List ℕ) → length bytes < 2 ^ 128 → bytes_at (encode_bytes bytes ++ rest) ≡ bytes
unfolding encode_bytes
bytes_at-encode_bytes bytes rest h =
    let zeros = replicate (padded_len (length bytes) - length bytes) 0 in
    let split : encode_bytes bytes ++ rest
        ≡ u256_word (length bytes) ++ (bytes ++ (zeros ++ rest)) =
      append_assoc (u256_word (length bytes)) (bytes ++ zeros) rest
      ∙ ap (λ t. u256_word (length bytes) ++ t) (append_assoc bytes zeros rest) in
    rw
      (
        split,
        word_at-u256_word (length bytes) (bytes ++ (zeros ++ rest)) h,
        drop-u256_word (length bytes) (bytes ++ (zeros ++ rest)),
      )
      (take_first (length bytes) bytes (zeros ++ rest) refl)

-- The lengths of the elements before the `i`-th.
abbrev pub before : ℕ → List (List ℕ) → ℕ
before i [] = 0
before zero (tail ∷ tails) = 0
before (suc i) (tail ∷ tails) = length tail + before i tails

pub offset_words-length :
    (offset : ℕ) (tails : List (List ℕ)) → length (offset_words offset tails) ≡ 32 * length tails
unfolding offset_words
offset_words-length offset [] = omega arith
offset_words-length offset (tail ∷ tails) =
    length-append (u256_word offset) (offset_words (offset + length tail) tails)
    ∙ omega (arith, u256_word-length offset, offset_words-length (offset + length tail) tails)

pub before-le :
    (i : ℕ) (tails : List (List ℕ)) (tail : List ℕ)
    → nth i tails ≡ some tail
    → before i tails + length tail ≤ length (joined tails)
unfolding joined
before-le i [] tail e = cc
before-le zero (t ∷ tails) tail e =
    let same : t ≡ tail = ground arith in
    rw (← same) (omega (arith, length-append t (joined tails)))
before-le (suc i) (t ∷ tails) tail e =
    omega (arith, length-append t (joined tails), before-le i tails tail e)

-- The `i`-th offset word is the place of the `i`-th element.
pub offset_words-nth :
    (i offset : ℕ) (tails : List (List ℕ)) (tail rest : List ℕ)
    → nth i tails ≡ some tail
    → offset + length (joined tails) < 2 ^ 128
    → word_at (drop (32 * i) (offset_words offset tails ++ rest)) ≡ offset + before i tails
unfolding offset_words joined
offset_words-nth i offset [] tail rest e h = cc
offset_words-nth zero offset (t ∷ tails) tail rest e h =
    let more = offset_words (offset + length t) tails in
    rw (append_assoc (u256_word offset) more rest)
      (word_at-u256_word offset (more ++ rest) (omega arith) ∙ omega arith)
offset_words-nth (suc i) offset (t ∷ tails) tail rest e h =
    let more = offset_words (offset + length t) tails in
    let place : 32 * suc i ≡ 32 + 32 * i = omega arith in
    rw
      (
        place,
        drop_plus 32 (32 * i) ((u256_word offset ++ more) ++ rest),
        append_assoc (u256_word offset) more rest,
        drop-u256_word offset (more ++ rest),
      )
      (offset_words-nth i (offset + length t) tails tail rest e
          (omega (arith, length-append t (joined tails)))
        ∙ omega arith)

pub joined-nth :
    (i : ℕ) (tails : List (List ℕ)) (tail : List ℕ)
    → nth i tails ≡ some tail
    → (rest : List ℕ) × (drop (before i tails) (joined tails) ≡ tail ++ rest)
unfolding joined
joined-nth i [] tail e = cc
joined-nth zero (t ∷ tails) tail e =
    let same : t ≡ tail = ground arith in (joined tails, ap (λ x. x ++ joined tails) same)
joined-nth (suc i) (t ∷ tails) tail e =
    let (rest, found) = joined-nth i tails tail e in
    (
      rest,
      drop_plus (length t) (before i tails) (t ++ joined tails)
          ∙ ap (drop (before i tails)) (drop_first (length t) t (joined tails) refl)
          ∙ found,
    )

pub nth-map :
    (i : ℕ) (items : List (List ℕ)) (bytes : List ℕ)
    → nth i items ≡ some bytes
    → nth i (map encode_bytes items) ≡ some (encode_bytes bytes)
nth-map i [] bytes e = cc
nth-map zero (x ∷ items) bytes e =
    ap some (ap encode_bytes (let same : x ≡ bytes = ground arith in same))
nth-map (suc i) (x ∷ items) bytes e = nth-map i items bytes e
