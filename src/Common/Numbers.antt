-- ===== src/Common/Numbers.antt =====
-- `strconv.Atoi`, on 64 bits.
use Prim.Native.Nat.{ℕ, zero, suc, ◌+◌, ◌-◌, ◌*◌, ◌^◌}
use mathlib.Core.Bool.{◌&&◌, Bool}
use mathlib.Core.Option.{Option, none, some}
use mathlib.Core.List.{[], ◌∷◌}
use dockvault.Common.Tests.{leb, ◌==◌, if◌then◌else◌}
use dockvault.Common.Lists.{null, all}
use dockvault.Common.Strings.{Text}
use dockvault.Common.Integer.{ℤ, pos, negsuc}

abbrev pub is_digit : ℕ → Bool
is_digit c = leb b'0' c && leb c b'9'

unfoldable pub digits_value : ℕ → Text → ℕ
digits_value n [] = n
digits_value n (c ∷ s) = digits_value (10 * n + (c - b'0')) s

unfoldable pub natural : Text → Option ℕ
unfolding digits_value
natural s = if null s then none else if all is_digit s then some (digits_value 0 s) else none

unfoldable pub negated : ℕ → ℤ
negated zero = pos zero
negated (suc n) = negsuc n

unfoldable pub in_range : ℕ → (ℕ → ℤ) → Option ℕ → Option ℤ
in_range bound sign none = none
in_range bound sign (some n) = if leb n bound then some (sign n) else none

unfoldable pub atoi : Text → Option ℤ
unfolding natural in_range negated
atoi [] = none
atoi (c ∷ s) =
    if c == b'-'
    then in_range (2 ^ 63) negated (natural s)
    else if c == b'+'
    then in_range (2 ^ 63 - 1) pos (natural s)
    else in_range (2 ^ 63 - 1) pos (natural (c ∷ s))
