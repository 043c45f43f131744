-- ===== src/Nostr/ParseInt/Itoa.antt =====
-- `strconv.Itoa`, and that its text is read back.
use revolution.Prelude.{
  ℕ, zero, suc, ◌+◌, ◌-◌, ◌*◌, ◌/◌, ◌%◌, ◌^◌, ◌≤◌, ◌<◌, ◌≡◌, refl, ap, ◌∙◌, ℤ, pos, negsuc, Text,
  NoSpace, is_space, trim_space, trim_space_id, Bool, true, false, ◌&&◌, Option, none, some, [],
  ◌∷◌, ◌++◌, leb, ltb, ◌==◌, if◌then◌else◌, arith, All, All-append, Bool-cases, inl, inr,
}
use revolution.Nostr.ParseInt.{digits, unsigned, positive, parse_int}

-- The decimal digits, on fuel: a number has fewer digits than it counts, but for 0.
unfoldable pub decimal : ℕ → ℕ → Text
decimal zero n = (b'0' + n) ∷ []
decimal (suc fuel) n =
    let front = decimal fuel (n / 10) in
    if ltb n 10 then (b'0' + n) ∷ [] else front ++ (b'0' + n % 10) ∷ []

unfoldable pub itoa : ℤ → Text
unfolding decimal
itoa (pos n) = decimal n n
itoa (negsuc n) = b'-' ∷ decimal (n + 1) (n + 1)

abbrev digits_then : Option ℕ → Text → Option ℕ
digits_then none ys = none
digits_then (some n) ys = digits n ys

digits-append : (a : ℕ) (xs ys : Text) → digits a (xs ++ ys) ≡ digits_then (digits a xs) ys
unfolding digits
digits-append a [] ys = refl
digits-append a (x ∷ xs) ys = ground (arith, digits-append (a * 10 + (x - b'0')) xs ys)

one_digit : (a d : ℕ) → d < 10 → digits a ((b'0' + d) ∷ []) ≡ some (a * 10 + d)
unfolding digits
one_digit a d h = ground (arith, h)

first_digit : (n : ℕ) → n < 10 → digits 0 ((b'0' + n) ∷ []) ≡ some n
first_digit n h = one_digit 0 n h ∙ ap some (omega arith)

digits-decimal : (fuel n : ℕ) → n ≤ fuel → digits 0 (decimal fuel n) ≡ some n
unfolding decimal
digits-decimal zero n h = first_digit n (omega arith)
digits-decimal (suc fuel) n h = elim (Bool-cases (ltb n 10)) [
  | inl single ↦ rw single (first_digit n (ground (arith, single)))
  | inr more ↦
      let large : 10 ≤ n = ground (arith, more) in
      rw more (
        digits-append 0 (decimal fuel (n / 10)) ((b'0' + n % 10) ∷ [])
        ∙ ap (λ o. digits_then o ((b'0' + n % 10) ∷ []))
            (digits-decimal fuel (n / 10) (omega arith))
        ∙ one_digit (n / 10) (n % 10) (omega arith)
        ∙ ap some (omega arith))
]

abbrev is_digit : ℕ → Bool
is_digit c = leb b'0' c && leb c b'9'

abbrev Digits : Text → Type 0
Digits = All (λ c. is_digit c ≡ true)

digit : (d : ℕ) → d < 10 → is_digit (b'0' + d) ≡ true
digit d h = ground (arith, h)

decimal-Digits : (fuel n : ℕ) → n ≤ fuel → Digits (decimal fuel n)
unfolding decimal
decimal-Digits zero n h = (digit n (omega arith), tt)
decimal-Digits (suc fuel) n h = elim (Bool-cases (ltb n 10)) [
  | inl single ↦ rw single (digit n (ground (arith, single)), tt)
  | inr more ↦
      let large : 10 ≤ n = ground (arith, more) in
      rw more (
        All-append _ (decimal fuel (n / 10)) ((b'0' + n % 10) ∷ [])
          (decimal-Digits fuel (n / 10) (omega arith)) (digit (n % 10) (omega arith), tt))
]

digit_NoSpace : (c : ℕ) → is_digit c ≡ true → is_space c ≡ false
unfolding is_space
digit_NoSpace c h = ground (arith, h)

Digits-NoSpace : (s : Text) → Digits s → NoSpace s
Digits-NoSpace [] h = tt
Digits-NoSpace (c ∷ cs) h = (digit_NoSpace c h.0, Digits-NoSpace cs h.1)

-- Digits have no sign.
parse_int-Digits :
    (s : Text) (n : ℕ)
    → Digits s
    → digits 0 s ≡ some n
    → n < 2 ^ 63
    → 0 < n
    → parse_int s ≡ some (pos n)
unfolding parse_int unsigned positive digits
parse_int-Digits [] n h d lt po = ground (arith, d)
parse_int-Digits (c ∷ cs) n h d lt po =
    let no_minus : (c == b'-') ≡ false = ground (arith, h.0) in
    let no_plus : (c == b'+') ≡ false = ground (arith, h.0) in
    rw (no_minus, no_plus) (ap positive d ∙ ground (arith, lt))

-- A positive number that fits in an `int64` is read back from its text, also after blanks are trimmed.
pub parse_int-itoa :
    (n : ℕ) → 0 < n → n < 2 ^ 63 → parse_int (trim_space (itoa (pos n))) ≡ some (pos n)
unfolding itoa
parse_int-itoa n po lt =
    let all : Digits (decimal n n) = decimal-Digits n n (omega arith) in
    ap parse_int (trim_space_id (decimal n n) (Digits-NoSpace (decimal n n) all))
    ∙ parse_int-Digits (decimal n n) n all (digits-decimal n n (omega arith)) lt po
