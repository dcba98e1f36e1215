-- ===== src/Common/Strings.antt =====
-- Texts as lists of bytes, and the functions of Go's `strings`, `path` and `fmt` on them.
use Prim.Native.Nat.{◌-◌, ℕ, zero, suc, ◌+◌, ◌/◌, ◌%◌}
use Prim.Native.Char.{code}
use Prim.Native.String.{String}
use mathlib.Core.Path.{◌≡◌, refl}
use mathlib.Core.Logic.{◌↔◌}
use mathlib.Core.Bool.{Bool, true, false, ◌&&◌, ◌||◌}
use mathlib.Core.Option.{Option, none, some}
use mathlib.Core.List.{List, [], ◌∷◌, ◌++◌, map, reverse}
use native.Mathlib.Omega.{arith}
use dockvault.Common.Tests.{ltb, leb, ◌==◌, if◌then◌else◌}
use dockvault.Common.Lists.{null}
use dockvault.Common.Integer.{ℤ, pos, negsuc}

abbrev pub Text : Type 0
Text = List ℕ

-- The bytes of a literal.
abbrev pub codes : String → Text
codes String.[] = []
codes (String.◌∷◌ c s) = code c ∷ codes s

infix 50 ◌=t◌
unfoldable pub ◌=t◌ : Text → Text → Bool
[] =t [] = true
[] =t (d ∷ t) = false
(c ∷ s) =t [] = false
(c ∷ s) =t (d ∷ t) = (c == d) && (s =t t)

pub =t_iff : (s t : Text) → ((s =t t) ≡ true) ↔ (s ≡ t)
unfolding ◌=t◌
=t_iff [] [] = ground arith
=t_iff [] (d ∷ t) = ground arith
=t_iff (c ∷ s) [] = ground arith
=t_iff (c ∷ s) (d ∷ t) = ground (arith, =t_iff s t)

pub =t_refl : (s : Text) → (s =t s) ≡ true
=t_refl s = (=t_iff s s).1 refl

-- `strings.HasPrefix`, `strings.TrimPrefix`
unfoldable pub has_prefix : Text → Text → Bool
has_prefix s [] = true
has_prefix [] (p ∷ ps) = false
has_prefix (c ∷ s) (p ∷ ps) = (c == p) && has_prefix s ps

unfoldable pub after_prefix : Text → Text → Text
after_prefix s [] = s
after_prefix [] (p ∷ ps) = []
after_prefix (c ∷ s) (p ∷ ps) = after_prefix s ps

unfoldable pub trim_prefix : Text → Text → Text
unfolding has_prefix after_prefix
trim_prefix s p = if has_prefix s p then after_prefix s p else s

-- `strings.HasSuffix`, `strings.TrimSuffix`
unfoldable pub has_suffix : Text → Text → Bool
unfolding has_prefix
has_suffix s p = has_prefix (reverse s) (reverse p)

unfoldable pub trim_suffix : Text → Text → Text
unfolding trim_prefix
trim_suffix s p = reverse (trim_prefix (reverse s) (reverse p))

-- `strings.Contains`
unfoldable pub contains : Text → Text → Bool
unfolding has_prefix
contains [] p = null p
contains (c ∷ s) p = has_prefix (c ∷ s) p || contains s p

unfoldable pub is_space : ℕ → Bool
is_space c = (c == 32) || (leb 9 c && leb c 13)

-- A loop that drops the leading bytes of a class.
unfoldable pub trim_left : (ℕ → Bool) → Text → Text
trim_left p [] = []
trim_left p (c ∷ s) = if p c then trim_left p s else (c ∷ s)

unfoldable pub trim_right : (ℕ → Bool) → Text → Text
unfolding trim_left
trim_right p s = reverse (trim_left p (reverse s))

unfoldable pub trim : (ℕ → Bool) → Text → Text
unfolding trim_right
trim p s = trim_right p (trim_left p s)

-- `strings.TrimSpace`
unfoldable pub trim_space : Text → Text
unfolding trim is_space
trim_space s = trim is_space s

unfoldable pub lower : ℕ → ℕ
lower c = if leb b'A' c && leb c b'Z' then c + 32 else c

-- `strings.ToLower`
unfoldable pub to_lower : Text → Text
unfolding lower
to_lower s = map lower s

unfoldable pub upper : ℕ → ℕ
upper c = if leb b'a' c && leb c b'z' then c - 32 else c

-- `strings.ToUpper`
unfoldable pub to_upper : Text → Text
unfolding upper
to_upper s = map upper s

-- `strings.Split` at one byte, and `strings.Join`
unfoldable pub split_head : ℕ → Text → Text × List Text
split_head sep [] = ([], [])
split_head sep (c ∷ s) =
    let (first, rest) = split_head sep s in
    if c == sep then ([], first ∷ rest) else (c ∷ first, rest)

unfoldable pub split : Text → ℕ → List Text
unfolding split_head
split s sep = let (first, rest) = split_head sep s in first ∷ rest

unfoldable pub join : List Text → Text → Text
join [] sep = []
join (p ∷ []) sep = p
join (p ∷ q ∷ ps) sep = p ++ (sep ++ join (q ∷ ps) sep)

-- `strings.Cut` at one byte
unfoldable pub cut : Text → ℕ → Option (Text × Text)
cut [] sep = none
cut (c ∷ s) sep =
    let rest = cut s sep in
    if c == sep then some ([], s) else elim rest [ none ↦ none | some (k, v) ↦ some (c ∷ k, v) ]

-- `%d`: the digits of a number, one round for each unit of fuel
unfoldable pub digits : ℕ → ℕ → Text → Text
digits zero n out = out
digits (suc f) n out =
    let out' = (b'0' + n % 10) ∷ out in
    let rest = digits f (n / 10) out' in if ltb n 10 then out' else rest

unfoldable pub decimal : ℕ → Text
unfolding digits
decimal n = digits (suc n) n []

unfoldable pub decimal_ℤ : ℤ → Text
unfolding decimal
decimal_ℤ (pos n) = decimal n
decimal_ℤ (negsuc n) = b'-' ∷ decimal (suc n)

-- `%q`, on printable bytes
unfoldable pub quote_byte : ℕ → Text
quote_byte c =
    if (c == b'"') || (c == b'\\') then b'\\' ∷ c ∷ [] else if c == 10 then codes "\\n" else c ∷ []

unfoldable pub quote_bytes : Text → Text
quote_bytes [] = b'"' ∷ []
quote_bytes (c ∷ s) = quote_byte c ++ quote_bytes s

unfoldable pub quoted : Text → Text
unfolding quote_bytes quote_byte
quoted s = b'"' ∷ quote_bytes s
