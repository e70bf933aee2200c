-- ===== src/Text.antt =====
-- Rust's `String` and `&str`: a text is the list of its UTF-8 bytes. The functions are those of
-- the standard library that the program calls.
pub mod Numerals
use Prim.Native.Char.{code}
use Prim.Native.String.{String}
use ic_facilitator.Prelude.{
  ◌^◌, ◌++◌, replicate, ℕ, zero, suc, ◌+◌, ◌-◌, ◌*◌, ◌/◌, ◌%◌, ◌≡◌, ◌≢◌, refl, ap, ◌↔◌, Bool, true,
  false, ◌&&◌, ◌||◌, Option, none, some, List, [], ◌∷◌, map, arith, ltb, leb, ◌==◌, if◌then◌else◌,
  all, length,
}

abbrev pub Text : Type 0
Text = List ℕ

-- A literal of the source, all of which are ASCII.
unfoldable pub text : String → Text
text String.[] = []
text (String.◌∷◌ c s) = code c ∷ text s

-- `==` on texts
unfoldable pub text_eq : Text → Text → Bool
text_eq [] [] = true
text_eq [] (b ∷ bs) = false
text_eq (a ∷ r) [] = false
text_eq (a ∷ r) (b ∷ bs) = a == b && text_eq r bs

pub text_eq_iff : (a b : Text) → (text_eq a b ≡ true) ↔ (a ≡ b)
unfolding text_eq
text_eq_iff [] [] = ((λ _. refl), (λ _. refl))
text_eq_iff [] (b ∷ bs) = ground arith
text_eq_iff (a ∷ r) [] = ground arith
text_eq_iff (a ∷ r) (b ∷ bs) = ground (arith, text_eq_iff r bs)

pub text_eq_refl : (a : Text) → text_eq a a ≡ true
text_eq_refl a = (text_eq_iff a a).1 refl

pub text_ne : (a b : Text) → text_eq a b ≡ false → a ≢ b
text_ne a b differ same = ground (arith, text_eq_iff a b)

-- `b.is_ascii_digit()`
abbrev pub is_ascii_digit : ℕ → Bool
is_ascii_digit c = leb 48 c && leb c 57

-- `s.to_ascii_lowercase()`, byte by byte
abbrev pub lower : ℕ → ℕ
lower c = if leb 65 c && leb c 90 then c + 32 else c

unfoldable pub to_ascii_lowercase : Text → Text
to_ascii_lowercase = map lower

unfoldable pub eq_ignore_ascii_case : Text → Text → Bool
eq_ignore_ascii_case a b = text_eq (to_ascii_lowercase a) (to_ascii_lowercase b)

unfoldable pub starts_with : Text → Text → Bool
starts_with s [] = true
starts_with [] (p ∷ ps) = false
starts_with (c ∷ s) (p ∷ ps) = c == p && starts_with s ps

-- The bytes of Unicode's white space: one, two or three to a character.
abbrev white_1 : ℕ → Bool
white_1 a = (leb 9 a && leb a 13) || a == 32

abbrev white_2 : ℕ → ℕ → Bool
white_2 a b = a == 0xc2 && (b == 0x85 || b == 0xa0)

abbrev white_3 : ℕ → ℕ → ℕ → Bool
white_3 a b c =
    (a == 0xe1 && b == 0x9a && c == 0x80)
    || (a == 0xe2
        && b == 0x80
        && ((leb 0x80 c && leb c 0x8a) || c == 0xa8 || c == 0xa9 || c == 0xaf))
    || (a == 0xe2 && b == 0x81 && c == 0x9f)
    || (a == 0xe3 && b == 0x80 && c == 0x80)

-- `s.trim().is_empty()`
unfoldable pub is_blank : Text → Bool
is_blank [] = true
is_blank (a ∷ []) = white_1 a
is_blank (a ∷ b ∷ []) = (white_1 a && white_1 b) || white_2 a b
is_blank (a ∷ b ∷ c ∷ r) = elim (white_1 a) [
  | true ↦ is_blank (b ∷ c ∷ r)
  | false ↦ elim (white_2 a b) [
    | true ↦ is_blank (c ∷ r)
    | false ↦ elim (white_3 a b c) [ true ↦ is_blank r | false ↦ false ]
  ]
]

-- The number that a row of digits stands for, read on from `acc`.
abbrev pub dec_from : ℕ → Text → ℕ
dec_from acc [] = acc
dec_from acc (c ∷ s) = dec_from (acc * 10 + (c - 48)) s

abbrev pub strip_plus : Text → Text
strip_plus [] = []
strip_plus (c ∷ s) = if c == 43 then s else c ∷ s

-- `s.parse::<uN>()` for an unsigned integer below `bound`: one leading `+` is allowed.
abbrev pub parse_digits : ℕ → Text → Option ℕ
parse_digits bound [] = none
parse_digits bound (c ∷ s) =
    if all is_ascii_digit (c ∷ s) && ltb (dec_from 0 (c ∷ s)) bound
    then some (dec_from 0 (c ∷ s))
    else none

unfoldable pub parse_uint : ℕ → Text → Option ℕ
parse_uint bound s = parse_digits bound (strip_plus s)

abbrev pub u128_mod : ℕ
u128_mod = 2 ^ 128

abbrev pub u64_mod : ℕ
u64_mod = 2 ^ 64

abbrev pub u128_max : ℕ
u128_max = 2 ^ 128 - 1

abbrev pub u64_max : ℕ
u64_max = 2 ^ 64 - 1

abbrev pub parse_u128 : Text → Option ℕ
parse_u128 = parse_uint u128_mod

abbrev pub parse_u64 : Text → Option ℕ
parse_u64 = parse_uint u64_mod

-- `n.to_string()`: the digits of `n` in front of `acc`; `n + 1` rounds are enough.
unfoldable pub digits_onto : ℕ → ℕ → Text → Text
digits_onto zero n acc = acc
digits_onto (suc f) n acc =
    let more = digits_onto f (n / 10) ((48 + n % 10) ∷ acc) in
    if ltb n 10 then (48 + n) ∷ acc else more

unfoldable pub to_decimal : ℕ → Text
unfolding digits_onto
to_decimal n = digits_onto (suc n) n []

-- `format!("{n:020}")`
unfoldable pub to_decimal_020 : ℕ → Text
unfolding to_decimal
to_decimal_020 n = replicate (20 - length (to_decimal n)) 48 ++ to_decimal n

-- `a < b` on texts: byte by byte.
unfoldable pub text_ltb : Text → Text → Bool
text_ltb [] [] = false
text_ltb [] (b ∷ bs) = true
text_ltb (a ∷ r) [] = false
text_ltb (a ∷ r) (b ∷ bs) = ltb a b || (a == b && text_ltb r bs)
