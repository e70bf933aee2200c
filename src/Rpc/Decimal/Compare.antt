-- ===== src/Rpc/Decimal/Compare.antt =====
-- `decimal_at_least` and `decimal_greater` compare the numbers that two texts of digits stand for,
-- at any length and with any leading zeros.
use ic_facilitator.Prelude.{
  ℕ, ◌+◌, ◌-◌, ◌*◌, ◌≤◌, ◌<◌, ◌≡◌, refl, sym, ◌∙◌, ◌↔◌, Bool, true, not, ◌&&◌, ◌||◌, [], ◌∷◌, arith,
  ltb, ◌==◌, if◌then◌else◌, all, length, is_empty, All,
}
use ic_facilitator.Text.{Text, text_ltb, is_ascii_digit, dec_from}
use ic_facilitator.Rpc.Decimal.{trim_zeros, decimal_at_least}
use ic_facilitator.Rpc.Decimal.Sums.{IsDigit, digits→All}

-- 10 to the number of digits
abbrev ten_to : Text → ℕ
ten_to [] = 1
ten_to (c ∷ s) = 10 * ten_to s

-- The value digit by digit from the front.
abbrev front_value : Text → ℕ
front_value [] = 0
front_value (c ∷ s) = (c - 48) * ten_to s + front_value s

dec_from-front_value : (acc : ℕ) (s : Text) → dec_from acc s ≡ acc * ten_to s + front_value s
dec_from-front_value acc [] = omega arith
dec_from-front_value acc (c ∷ s) = omega (arith, dec_from-front_value (acc * 10 + (c - 48)) s)

front_value-lt : (s : Text) → All IsDigit s → front_value s < ten_to s
front_value-lt [] p = omega arith
front_value-lt (c ∷ s) p = grind (arith, front_value-lt s p.1)

-- Empty, or with a first digit that is not 0.
abbrev Trimmed : Text → Type 0
Trimmed [] = Unit
Trimmed (c ∷ s) = 48 < c

trim_zeros_lem :
    (s : Text)
    → All IsDigit s
    → Trimmed (trim_zeros s)
      × All IsDigit (trim_zeros s)
      × (front_value (trim_zeros s) ≡ front_value s)
unfolding trim_zeros
trim_zeros_lem [] p = (tt, tt, refl)
trim_zeros_lem (c ∷ s) p = ground (arith, trim_zeros_lem s p.1)

ten_to_mono : (s t : Text) → length s ≤ length t → ten_to s ≤ ten_to t
ten_to_mono [] [] h = omega arith
ten_to_mono [] (d ∷ t) h = omega (arith, ten_to_mono [] t (omega arith))
ten_to_mono (c ∷ s) [] h = absurd (omega arith)
ten_to_mono (c ∷ s) (d ∷ t) h = omega (arith, ten_to_mono s t (omega arith))

leading : (d w v : ℕ) → 1 ≤ d → w ≤ d * w + v
leading d w v h = grind arith

-- A longer number without leading zeros is larger.
longer-lt :
    (s t : Text) → length s < length t → Trimmed t → All IsDigit s → front_value s < front_value t
longer-lt s [] h t p = absurd (omega arith)
longer-lt s (d ∷ t) h k p = omega (
  arith,
  ten_to_mono s t (omega arith),
  front_value-lt s p,
  leading (d - 48) (ten_to t) (front_value t) (omega arith),
)

higher : (c d w a b : ℕ) → c < d → a < w → c * w + a < d * w + b
higher c d w a b h k = grind arith

same_scale : (s t : Text) → length s ≡ length t → ten_to s ≡ ten_to t
same_scale [] [] h = refl
same_scale [] (d ∷ t) h = absurd (omega arith)
same_scale (c ∷ s) [] h = absurd (omega arith)
same_scale (c ∷ s) (d ∷ t) h = omega (arith, same_scale s t (omega arith))

-- Among numbers of one length the order of the texts is that of the numbers.
text_ltb-front_value :
    (s t : Text)
    → length s ≡ length t
    → All IsDigit s
    → All IsDigit t
    → (text_ltb s t ≡ true) ↔ (front_value s < front_value t)
unfolding text_ltb
text_ltb-front_value [] [] h p q = ((λ e. cc), (λ l. absurd (omega arith)))
text_ltb-front_value [] (d ∷ t) h p q = absurd (omega arith)
text_ltb-front_value (c ∷ s) [] h p q = absurd (omega arith)
text_ltb-front_value (c ∷ s) (d ∷ t) h p q = ground (
  arith,
  text_ltb-front_value s t (omega arith) p.1 q.1,
  same_scale s t (omega arith),
  front_value-lt s p.1,
  front_value-lt t q.1,
  higher (c - 48) (d - 48) (ten_to s) (front_value s) (front_value t),
  higher (d - 48) (c - 48) (ten_to t) (front_value t) (front_value s),
)

-- A trimmed text, or "0".
abbrev shown : Text → Text
shown s = if is_empty s then 48 ∷ [] else s

abbrev at_least : Text → Text → Bool
at_least l r = ltb (length r) (length l) || (length l == length r && not (text_ltb l r))

at_least-front_value :
    (l r : Text)
    → (length l < length r → front_value l < front_value r)
    → (length r < length l → front_value r < front_value l)
    → All IsDigit l
    → All IsDigit r
    → (at_least l r ≡ true) ↔ (front_value r ≤ front_value l)
at_least-front_value l r h k p q =
    ground (arith, (λ (e : length l ≡ length r). text_ltb-front_value l r e p q))

shown-front_value : (s : Text) → front_value (shown s) ≡ front_value s
shown-front_value [] = refl
shown-front_value (c ∷ s) = refl

shown_digits : (s : Text) → All IsDigit s → All IsDigit (shown s)
shown_digits [] p = omega arith
shown_digits (c ∷ s) p = p

shown_longer :
    (s t : Text)
    → Trimmed t
    → All IsDigit s
    → length (shown s) < length (shown t)
    → front_value (shown s) < front_value (shown t)
shown_longer [] [] k p h = absurd (omega arith)
shown_longer (c ∷ s) [] k p h = absurd (omega arith)
shown_longer [] (d ∷ t) k p h = longer-lt (48 ∷ []) (d ∷ t) h k (omega arith)
shown_longer (c ∷ s) (d ∷ t) k p h = longer-lt (c ∷ s) (d ∷ t) h k p

dec_from-trim : (s : Text) → All IsDigit s → front_value (shown (trim_zeros s)) ≡ dec_from 0 s
dec_from-trim s p =
    shown-front_value (trim_zeros s)
    ∙ (trim_zeros_lem s p).2
    ∙ sym (dec_from-front_value 0 s ∙ omega arith)

-- On two texts of digits, `decimal_at_least` answers whether the left number is at least the right.
pub decimal_at_least_iff :
    (left right : Text)
    → all is_ascii_digit left ≡ true
    → all is_ascii_digit right ≡ true
    → (decimal_at_least left right ≡ true) ↔ (dec_from 0 right ≤ dec_from 0 left)
unfolding decimal_at_least
decimal_at_least_iff left right p q =
    let pl = digits→All left p in
    let pr = digits→All right q in
    let l = trim_zeros_lem left pl in
    let r = trim_zeros_lem right pr in
    rw (← dec_from-trim left pl, ← dec_from-trim right pr)
      (at_least-front_value (shown (trim_zeros left)) (shown (trim_zeros right))
        (shown_longer (trim_zeros left) (trim_zeros right) r.0 l.1)
        (shown_longer (trim_zeros right) (trim_zeros left) l.0 r.1)
        (shown_digits (trim_zeros left) l.1) (shown_digits (trim_zeros right) r.1))
