-- ===== src/Nostr/ParseInt.antt =====
-- `strconv.ParseInt(s, 10, 64)`: a sign, decimal digits, and the range of `int64`.
pub mod Itoa
use revolution.Prelude.{
  ℕ, ◌+◌, ◌-◌, ◌*◌, ◌^◌, ℤ, pos, negsuc, Text, ◌≡◌, ◌&&◌, Option, none, some, [], ◌∷◌, leb, ltb,
  ◌==◌, if◌then◌else◌, Bool-cases, inl, inr, ◌<◌, arith,
}

pub digits : ℕ → Text → Option ℕ
digits n [] = some n
digits n (c ∷ cs) =
    let rest = digits (n * 10 + (c - b'0')) cs in if leb b'0' c && leb c b'9' then rest else none

pub unsigned : Text → Option ℕ
unsigned [] = none
unsigned (c ∷ cs) = digits 0 (c ∷ cs)

pub positive : Option ℕ → Option ℤ
positive none = none
positive (some n) = if ltb n (2 ^ 63) then some (pos n) else none

pub negative : Option ℕ → Option ℤ
negative none = none
negative (some n) =
    if n == 0 then some (pos 0) else if leb n (2 ^ 63) then some (negsuc (n - 1)) else none

unfoldable pub parse_int : Text → Option ℤ
unfolding digits unsigned positive negative
parse_int [] = none
parse_int (c ∷ cs) =
    if c == b'-'
    then negative (unsigned cs)
    else if c == b'+'
    then positive (unsigned cs)
    else positive (unsigned (c ∷ cs))

positive-range : (o : Option ℕ) (n : ℕ) → positive o ≡ some (pos n) → n < 2 ^ 63
unfolding positive
positive-range none n h = cc
positive-range (some m) n h = ground arith

negative-range : (o : Option ℕ) (n : ℕ) → negative o ≡ some (pos n) → n < 2 ^ 63
unfolding negative
negative-range none n h = cc
negative-range (some m) n h = ground arith

-- What `ParseInt` returns without an error fits in an `int64`.
pub parse_int-range : (s : Text) (n : ℕ) → parse_int s ≡ some (pos n) → n < 2 ^ 63
unfolding parse_int
parse_int-range [] n h = cc
parse_int-range (c ∷ cs) n h = elim (Bool-cases (c == b'-')) [
  | inl minus ↦ negative-range (unsigned cs) n (rw minus at h)
  | inr other ↦ elim (Bool-cases (c == b'+')) [
    | inl plus ↦ positive-range (unsigned cs) n (rw plus at (rw other at h))
    | inr digit ↦ positive-range (unsigned (c ∷ cs)) n (rw digit at (rw other at h))
  ]
]
