-- ===== src/Web/Helpers.antt =====
-- internal/web/helpers.go: what `fmt.Sprintf` and `Format` are given.
pub mod Units
use revolution.Prelude.{
  ℕ, zero, suc, ◌+◌, ◌*◌, ◌/◌, ℤ, pos, negsuc, Text, codes, ◌==◌, Option, none, some, List, [], ◌∷◌,
  ltb, if◌then◌else◌, ◌-◌, lt_int,
}

pub data Label : Type 0 where
  -- "—"
  dash : Label
  -- "%d o" of the number
  in_bytes : ℕ → Label
  -- "%.1f %s" of the quotient of the two numbers and the unit
  in_units : ℕ → ℕ → Text → Label

abbrev pub unit : ℕ
unit = 1024

-- The loop, whose body runs at most `rounds` times; an `int64` needs five.
unfoldable pub scale : ℕ → ℕ → ℕ → ℕ → ℕ × ℕ
scale zero n2 div exp = (div, exp)
scale (suc rounds) n2 div exp =
    let more = scale rounds (n2 / unit) (div * unit) (exp + 1) in
    if ltb n2 unit then (div, exp) else more

abbrev pub units : List Text
units = codes "Ko" ∷ codes "Mo" ∷ codes "Go" ∷ codes "To" ∷ codes "Po" ∷ []

-- units[exp]: nothing for an index out of range, which panics.
abbrev pub unit_at : List Text → ℕ → Option Text
unit_at [] i = none
unit_at (u ∷ us) zero = some u
unit_at (u ∷ us) (suc i) = unit_at us i

abbrev pub scaled : ℕ → ℕ → Option Text → Option Label
scaled n div none = none
scaled n div (some u) = some (in_units n div u)

abbrev pub label : ℕ → ℕ × ℕ → Option Label
label n (div, exp) = scaled n div (unit_at units exp)

-- No result is a panic.
unfoldable pub human_size : ℤ → Option Label
unfolding scale
human_size (negsuc n) = some dash
human_size (pos n) =
    if n == 0
    then some dash
    else if ltb n unit
    then some (in_bytes n)
    else label n (scale 6 (n / unit) unit 0)

pub data Age : Type 0 where
  -- "—"
  no_age : Age
  -- "à l'instant"
  just_now : Age
  -- "il y a %d min" and "il y a %dh"
  in_minutes in_hours : ℕ → Age

abbrev pub second : ℕ
second = 1000000000

-- `fmtAge` at `now` nanoseconds, where the span fits in a `time.Duration`.
unfoldable pub fmt_age : ℕ → ℤ → Age
fmt_age now (negsuc n) = no_age
fmt_age now (pos ts) =
    if ts == 0
    then no_age
    else if ltb now (ts * second + 60 * second)
    then just_now
    else if ltb now (ts * second + 3600 * second)
    then in_minutes ((now - ts * second) / (60 * second))
    else in_hours ((now - ts * second) / (3600 * second))

-- `fmtTime`: the time that is formatted, or "—".
unfoldable pub fmt_time : ℤ → Option ℤ
fmt_time ts = if lt_int (pos 0) ts then some ts else none
