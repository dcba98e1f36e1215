-- ===== src/Common/Instants.antt =====
-- Instants as nanoseconds since 1 March of the year -400, and the two layouts in which the program
-- writes and reads them: RFC 3339 and the archive stamp.
use Prim.Native.Nat.{ℕ, zero, suc, ◌+◌, ◌-◌, ◌*◌, ◌/◌, ◌%◌, ◌^◌}
use mathlib.Core.Bool.{Bool, true, false, ◌&&◌}
use mathlib.Core.Option.{Option, none, some}
use mathlib.Core.List.{[], ◌∷◌, ◌++◌}
use dockvault.Common.Tests.{ltb, leb, ◌==◌, if◌then◌else◌}
use dockvault.Common.Lists.{take, null}
use dockvault.Common.Strings.{Text, codes, trim_right}
use dockvault.Common.Integer.{ℤ, pos, negsuc}

abbrev pub Instant : Type 0
Instant = ℕ

abbrev pub second : ℕ
second = 10 ^ 9

abbrev pub day : ℕ
day = 86400 * second

days_from_civil : ℕ → ℕ → ℕ → ℕ
days_from_civil y m d =
    let y' = y + 400 - (if leb m 2 then 1 else 0) in
    let yoe = y' % 400 in
    let doy = (153 * ((m + 9) % 12) + 2) / 5 + d - 1 in
    (y' / 400) * 146097 + (yoe * 365 + yoe / 4 - yoe / 100 + doy)

-- Year, month and day.
civil_from_days : ℕ → ℕ × ℕ × ℕ
civil_from_days z =
    let doe = z % 146097 in
    let yoe = (doe - doe / 1460 + doe / 36524 - doe / 146096) / 365 in
    let doy = doe - (365 * yoe + yoe / 4 - yoe / 100) in
    let mp = (5 * doy + 2) / 153 in
    let m = if ltb mp 10 then mp + 3 else mp - 9 in
    (yoe + (z / 146097) * 400 + (if leb m 2 then 1 else 0) - 400, m, doy - (153 * mp + 2) / 5 + 1)

-- The last year of a century is a leap year if four divides the century.
is_leap : ℕ → Bool
is_leap y = if y % 100 == 0 then (y / 100) % 4 == 0 else y % 4 == 0

-- Behind February, months of 31 and of 30 days alternate, but for July and August.
days_in_month : ℕ → ℕ → ℕ
days_in_month y m = if m == 2 then (if is_leap y then 29 else 28) else 30 + (m + m / 8) % 2

-- `n` digits, padded by zeros on the left.
padded : ℕ → ℕ → Text → Text
padded zero n out = out
padded (suc k) n out = padded k (n / 10) ((b'0' + n % 10) ∷ out)

-- The date and the time of day of an instant, with the separators of a layout.
layout : Text → Text → Text → Instant → Text
layout between_date middle between_time t =
    let secs = t / second in
    let (y, m, d) = civil_from_days (secs / 86400) in
    let s = secs % 86400 in
    padded 4 y (
      between_date
      ++ padded 2 m (
          between_date
          ++ padded 2 d (
              middle
              ++ padded 2 (s / 3600)
                  (between_time ++ padded 2 (s / 60 % 60) (between_time ++ padded 2 (s % 60) [])))))

-- `t.UTC().Format(time.RFC3339)`
unfoldable pub format_rfc3339 : Instant → Text
unfolding layout padded civil_from_days
format_rfc3339 t = layout (codes "-") (codes "T") (codes ":") t ++ codes "Z"

-- A time in a JSON document: RFC 3339 with the fraction of the second, less its trailing zeros.
unfoldable pub format_rfc3339_nano : Instant → Text
unfolding layout padded civil_from_days trim_right
format_rfc3339_nano t =
    let digits = trim_right (λ c. c == b'0') (padded 9 (t % second) []) in
    layout (codes "-") (codes "T") (codes ":") t
    ++ ((if null digits then [] else codes "." ++ digits) ++ codes "Z")

-- `t.UTC().Format("20060102-150405") + "Z"`
unfoldable pub format_stamp : Instant → Text
unfolding layout padded civil_from_days
format_stamp t = layout [] (codes "-") [] t ++ codes "Z"

-- `t.UTC().Format("2006-01-02")`
unfoldable pub format_date : Instant → Text
unfolding layout padded civil_from_days
format_date t = take 10 (layout (codes "-") (codes " ") (codes ":") t)

-- `t.Format("2006-01-02 15:04:05 MST")` of a time in UTC.
unfoldable pub format_label : Instant → Text
unfolding layout padded civil_from_days
format_label t = layout (codes "-") (codes " ") (codes ":") t ++ codes " UTC"

-- A field of `n` digits at the head of a text.
number : ℕ → ℕ → Text → Option (ℕ × Text)
number zero acc s = some (acc, s)
number (suc k) acc [] = none
number (suc k) acc (c ∷ s) =
    if leb b'0' c && leb c b'9' then number k (acc * 10 + (c - b'0')) s else none

expect : ℕ → Text → Option Text
expect c [] = none
expect c (d ∷ s) = if d == c then some s else none

infixl 5 ◌>>=◌
abbrev ◌>>=◌ {ℓ κ} : {A : Type ℓ} {B : Type κ} → Option A → (A → Option B) → Option B
none >>= f = none
some a >>= f = f a

guarded {ℓ} : {A : Type ℓ} → Bool → A → Option A
guarded true a = some a
guarded false a = none

-- The digits behind the point, worth `unit` nanoseconds and then a tenth of it each.
fraction : ℕ → ℕ → Text → ℕ × Text
fraction unit acc [] = (acc, [])
fraction unit acc (c ∷ s) =
    let rest = fraction (unit / 10) (acc + (c - b'0') * unit) s in
    if leb b'0' c && leb c b'9' then rest else (acc, c ∷ s)

-- An optional fraction: a point with a digit behind it.
nanoseconds : Text → Option (ℕ × Text)
nanoseconds [] = some (0, [])
nanoseconds (c ∷ []) = some (0, c ∷ [])
nanoseconds (c ∷ d ∷ s) =
    if c == b'.'
    then guarded (leb b'0' d && leb d b'9') (fraction (10 ^ 8) 0 (d ∷ s))
    else some (0, c ∷ d ∷ s)

-- The offset of the zone, in seconds, and its sign; nothing may follow it.
zone_clock : Bool → Text → Option (Bool × ℕ)
zone_clock west s = do
  (h, s) ← number 2 0 s
  s ← expect b':' s
  (m, s) ← number 2 0 s
  guarded (leb h 24 && leb m 60 && (elim s [ [] ↦ true | _ ∷ _ ↦ false ])) (west, h * 3600 + m * 60)

zone : Text → Option (Bool × ℕ)
zone [] = none
zone (c ∷ s) =
    if c == b'Z'
    then (elim s [ [] ↦ some (false, 0) | _ ∷ _ ↦ none ])
    else if c == b'+'
    then zone_clock false s
    else if c == b'-'
    then zone_clock true s
    else none

-- `time.Parse(time.RFC3339, s)`
unfoldable pub parse_rfc3339 : Text → Option Instant
unfolding number expect guarded fraction nanoseconds zone zone_clock days_in_month is_leap
    days_from_civil
parse_rfc3339 s = do
  (y, s) ← number 4 0 s
  s ← expect b'-' s
  (m, s) ← number 2 0 s
  s ← expect b'-' s
  (d, s) ← number 2 0 s
  s ← expect b'T' s
  (hour, s) ← number 2 0 s
  s ← expect b':' s
  (minute, s) ← number 2 0 s
  s ← expect b':' s
  (sec, s) ← number 2 0 s
  (nanos, s) ← nanoseconds s
  (west, offset) ← zone s
  let local = days_from_civil y m d * 86400 + hour * 3600 + minute * 60 + sec
  guarded
      (leb 1 m
        && leb m 12
        && leb 1 d
        && leb d (days_in_month y m)
        && ltb hour 24
        && ltb minute 60
        && ltb sec 60)
      ((if west then local + offset else local - offset) * second + nanos)

-- `t.AddDate(0, 0, -days)`, with days of 24 hours.
unfoldable pub days_before : Instant → ℤ → Instant
days_before t (pos n) = t - n * day
days_before t (negsuc n) = t + suc n * day
