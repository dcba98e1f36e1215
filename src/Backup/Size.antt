-- ===== src/Backup/Size.antt =====
-- internal/backup/size.go
use dockvault.Common.{
  ◌<◌, ◌≤◌, ◌^◌, ◌≡◌, refl, ◌∙◌, arith, lt→ltb, false, ℕ, zero, suc, ◌+◌, ◌*◌, ◌/◌, ◌++◌, Text,
  codes, decimal, ltb, leb, if◌then◌else◌,
}
use dockvault.Effects.{Result, ok, err, panic}

-- The loop `for v := n / unit; v >= unit; v /= unit`, with its variables `div` and `exp`; each round
-- divides `v` by 1000, so `v` rounds are enough.
unfoldable pub scale : ℕ → ℕ → ℕ → ℕ → ℕ × ℕ
scale zero v div exp = (div, exp)
scale (suc fuel) v div exp =
    let next = scale fuel (v / 1000) (div * 1000) (exp + 1) in
    if leb 1000 v then next else (div, exp)

-- `units[exp]` panics behind the last unit.
unfoldable pub unit_name : ℕ → Result Text
unit_name zero = ok (codes "KB")
unit_name (suc zero) = ok (codes "MB")
unit_name (suc (suc zero)) = ok (codes "GB")
unit_name (suc (suc (suc zero))) = ok (codes "TB")
unit_name (suc (suc (suc (suc exp)))) = panic (codes "index out of range")

-- `one_decimal n div` is the text of the quotient with one digit behind the point.
unfoldable pub in_unit : (ℕ → ℕ → Text) → ℕ → ℕ × ℕ → Result Text
unfolding unit_name
in_unit one_decimal n (div, exp) = elim (unit_name exp) [
  | ok name ↦ ok (one_decimal n div ++ (codes " " ++ name))
  | err e ↦ err e
  | panic t ↦ panic t
]

unfoldable pub format_bytes : (ℕ → ℕ → Text) → ℕ → Result Text
unfolding in_unit
format_bytes one_decimal n =
    if ltb n 1000
    then ok (decimal n ++ codes " B")
    else in_unit one_decimal n (scale n (n / 1000) 1000 0)

scale_last : (fuel v div exp : ℕ) → v < 1000 → scale fuel v div exp ≡ (div, exp)
unfolding scale
scale_last zero v div exp h = refl
scale_last (suc fuel) v div exp h = ground arith

scale_next :
    (fuel v div exp : ℕ)
    → 1000 ≤ v
    → scale (suc fuel) v div exp ≡ scale fuel (v / 1000) (div * 1000) (exp + 1)
unfolding scale
scale_next fuel v div exp h = ground arith

scale-le : (fuel v div exp : ℕ) → exp ≤ (scale fuel v div exp).1
unfolding scale
scale-le zero v div exp = omega arith
scale-le (suc fuel) v div exp = ground (arith, scale-le fuel (v / 1000) (div * 1000) (exp + 1))

unit_name_panic : (exp : ℕ) → 4 ≤ exp → unit_name exp ≡ panic (codes "index out of range")
unfolding unit_name
unit_name_panic zero h = absurd (omega arith)
unit_name_panic (suc zero) h = absurd (omega arith)
unit_name_panic (suc (suc zero)) h = absurd (omega arith)
unit_name_panic (suc (suc (suc zero))) h = absurd (omega arith)
unit_name_panic (suc (suc (suc (suc exp)))) h = refl

-- The loop behind `n >= unit`, as `FormatBytes` starts it.
abbrev scaled : ℕ → ℕ × ℕ
scaled n = scale n (n / 1000) 1000 0

scaled_kilo : (n : ℕ) → n < 10 ^ 6 → scaled n ≡ (1000, 0)
scaled_kilo n h = scale_last n (n / 1000) 1000 0 (omega arith)

scaled_mega : (n : ℕ) → 10 ^ 6 ≤ n → n < 10 ^ 9 → scaled n ≡ (10 ^ 6, 1)
scaled_mega zero h k = absurd (omega arith)
scaled_mega (suc m) h k =
    scale_next m (suc m / 1000) 1000 0 (omega arith) ∙ scale_last m _ _ _ (omega arith)

scaled_giga : (n : ℕ) → 10 ^ 9 ≤ n → n < 10 ^ 12 → scaled n ≡ (10 ^ 9, 2)
scaled_giga zero h k = absurd (omega arith)
scaled_giga (suc zero) h k = absurd (omega arith)
scaled_giga (suc (suc m)) h k =
    scale_next (suc m) (suc (suc m) / 1000) 1000 0 (omega arith)
    ∙ (scale_next m _ _ _ (omega arith) ∙ scale_last m _ _ _ (omega arith))

scaled_tera : (n : ℕ) → 10 ^ 12 ≤ n → n < 10 ^ 15 → scaled n ≡ (10 ^ 12, 3)
scaled_tera zero h k = absurd (omega arith)
scaled_tera (suc zero) h k = absurd (omega arith)
scaled_tera (suc (suc zero)) h k = absurd (omega arith)
scaled_tera (suc (suc (suc m))) h k =
    scale_next (suc (suc m)) (suc (suc (suc m)) / 1000) 1000 0 (omega arith)
    ∙ (scale_next (suc m) _ _ _ (omega arith)
        ∙ (scale_next m _ _ _ (omega arith) ∙ scale_last m _ _ _ (omega arith)))

scaled_beyond : (n : ℕ) → 10 ^ 15 ≤ n → 4 ≤ (scaled n).1
scaled_beyond zero h = absurd (omega arith)
scaled_beyond (suc zero) h = absurd (omega arith)
scaled_beyond (suc (suc zero)) h = absurd (omega arith)
scaled_beyond (suc (suc (suc zero))) h = absurd (omega arith)
scaled_beyond (suc (suc (suc (suc m)))) h =
    let a : ℕ = suc (suc (suc (suc m))) / 1000 in
    rw
      (
        scale_next (suc (suc (suc m))) a 1000 0 (omega arith),
        scale_next (suc (suc m)) (a / 1000) (1000 * 1000) (0 + 1) (omega arith),
        scale_next (suc m) (a / 1000 / 1000) (1000 * 1000 * 1000) (0 + 1 + 1) (omega arith),
        scale_next m (a / 1000 / 1000 / 1000) (1000 * 1000 * 1000 * 1000) (0 + 1 + 1 + 1)
            (omega arith),
      )
      (scale-le m _ _ 4)

in_unit_panic :
    (one_decimal : ℕ → ℕ → Text) (n : ℕ) (p : ℕ × ℕ)
    → 4 ≤ p.1
    → in_unit one_decimal n p ≡ panic (codes "index out of range")
unfolding in_unit
in_unit_panic one_decimal n (div, exp) h = rw (unit_name_panic exp h, in_unit) refl

-- The unit is the greatest power of 1000 that is at most the size, up to the terabyte, and a size of a
-- thousand terabytes or more makes the function panic.
pub format_bytes_units :
    (one_decimal : ℕ → ℕ → Text) (n : ℕ)
    → (n < 1000 → format_bytes one_decimal n ≡ ok (decimal n ++ codes " B"))
      × (1000 ≤ n
          → n < 10 ^ 6
          → format_bytes one_decimal n ≡ ok (one_decimal n 1000 ++ codes " KB"))
      × (10 ^ 6 ≤ n
          → n < 10 ^ 9
          → format_bytes one_decimal n ≡ ok (one_decimal n (10 ^ 6) ++ codes " MB"))
      × (10 ^ 9 ≤ n
          → n < 10 ^ 12
          → format_bytes one_decimal n ≡ ok (one_decimal n (10 ^ 9) ++ codes " GB"))
      × (10 ^ 12 ≤ n
          → n < 10 ^ 15
          → format_bytes one_decimal n ≡ ok (one_decimal n (10 ^ 12) ++ codes " TB"))
      × (10 ^ 15 ≤ n → format_bytes one_decimal n ≡ panic (codes "index out of range"))
unfolding format_bytes
format_bytes_units one_decimal n = (
  λ h. rw (lt→ltb n 1000 h) refl,
  λ h k. rw (large n h, scaled_kilo n k) refl,
  λ h k. rw (large n (omega arith), scaled_mega n h k) refl,
  λ h k. rw (large n (omega arith), scaled_giga n h k) refl,
  λ h k. rw (large n (omega arith), scaled_tera n h k) refl,
  λ h. rw (large n (omega arith)) (in_unit_panic one_decimal n (scaled n) (scaled_beyond n h)),
)
  where
    large : (n : ℕ) → 1000 ≤ n → ltb n 1000 ≡ false
    large n h = ground arith
