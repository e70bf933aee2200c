-- ===== src/Hexutil/Order.antt =====
-- Comparing two words byte by byte compares the numbers that they stand for.
use ic_facilitator.Prelude.{
  ℕ, ◌+◌, ◌*◌, ◌<◌, ◌≡◌, refl, true, ◌↔◌, List, [], ◌∷◌, arith, length, All,
}
use ic_facilitator.Text.{text_ltb}
use ic_facilitator.Hexutil.Words.{IsByte, scale, be_value, be_value-lt}

scale_same : (v w : List ℕ) → length v ≡ length w → scale v ≡ scale w
scale_same [] [] h = refl
scale_same [] (x ∷ w) h = absurd (omega arith)
scale_same (x ∷ v) [] h = absurd (omega arith)
scale_same (x ∷ v) (y ∷ w) h = omega (arith, scale_same v w (omega arith))

higher : (x y s a b : ℕ) → x < y → a < s → x * s + a < y * s + b
higher x y s a b h k = grind arith

pub text_ltb-be_value :
    (v w : List ℕ)
    → length v ≡ length w
    → All IsByte v
    → All IsByte w
    → (text_ltb v w ≡ true) ↔ (be_value v < be_value w)
unfolding text_ltb
text_ltb-be_value [] [] h p q = ((λ e. cc), (λ l. absurd (omega arith)))
text_ltb-be_value [] (y ∷ w) h p q = absurd (omega arith)
text_ltb-be_value (x ∷ v) [] h p q = absurd (omega arith)
text_ltb-be_value (x ∷ v) (y ∷ w) h p q = ground (
  arith,
  text_ltb-be_value v w (omega arith) p.1 q.1,
  scale_same v w (omega arith),
  be_value-lt v p.1,
  be_value-lt w q.1,
  higher x y (scale v) (be_value v) (be_value w),
  higher y x (scale w) (be_value w) (be_value v),
)
