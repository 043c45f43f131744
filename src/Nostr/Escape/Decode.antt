-- ===== src/Nostr/Escape/Decode.antt =====
-- Percent-decoding of the values that internal/nostr encodes.
use revolution.Prelude.{
  ℕ, ◌+◌, ◌-◌, ◌*◌, ◌/◌, ◌%◌, ◌<◌, ◌≡◌, refl, ap, ◌∙◌, Text, Bool, true, false, ◌||◌, [], ◌∷◌, ◌++◌,
  ltb, ◌==◌, if◌then◌else◌, arith, All, All-append, Bool-cases, inl, inr,
}
use revolution.Nostr.Escape.{
  Bytes, utf8, utf8_rune, is_unreserved, upper_hex, escape_byte, query_escape_bytes, query_escape,
  replace_plus,
}

abbrev from_hex : ℕ → ℕ
from_hex c = if ltb c 58 then c - b'0' else c - 55

-- RFC 3986: `%XY` is the byte XY, any other byte is itself.
unfoldable pub percent_decode : Text → Bytes
percent_decode [] = []
percent_decode (a ∷ []) = a ∷ []
percent_decode (a ∷ b ∷ []) = a ∷ b ∷ []
percent_decode (a ∷ b ∷ c ∷ r) = elim (a == b'%') [
  | true ↦ (from_hex b * 16 + from_hex c) ∷ percent_decode r
  | false ↦ a ∷ percent_decode (b ∷ c ∷ r)
]

-- The value that `BuildMagnet` writes for a text.
abbrev pub magnet_value : Text → Text
magnet_value s = replace_plus (query_escape s)

pub replace_plus-append : (s t : Text) → replace_plus (s ++ t) ≡ replace_plus s ++ replace_plus t
unfolding replace_plus
replace_plus-append [] t = refl
replace_plus-append (c ∷ s) t = ground (arith, replace_plus-append s t)

-- A byte in its final form.
abbrev final_byte : ℕ → Text
final_byte b =
    if is_unreserved b then b ∷ [] else b'%' ∷ upper_hex (b / 16) ∷ upper_hex (b % 16) ∷ []

replace_plus-escape_byte : (b : ℕ) → b < 256 → replace_plus (escape_byte b) ≡ final_byte b
unfolding replace_plus escape_byte
replace_plus-escape_byte b h = ground arith

decode_literal :
    (a : ℕ) (r : Text) → (a == b'%') ≡ false → percent_decode (a ∷ r) ≡ a ∷ percent_decode r
unfolding percent_decode
decode_literal a [] h = refl
decode_literal a (b ∷ []) h = refl
decode_literal a (b ∷ c ∷ r) h = rw (h, percent_decode)

from_hex-upper_hex : (n : ℕ) → n < 16 → from_hex (upper_hex n) ≡ n
from_hex-upper_hex n h = ground arith

decode_escaped :
    (b : ℕ) (r : Text)
    → b < 256
    → percent_decode (b'%' ∷ upper_hex (b / 16) ∷ upper_hex (b % 16) ∷ r) ≡ b ∷ percent_decode r
unfolding percent_decode
decode_escaped b r h =
    ap (λ (n : ℕ). n ∷ percent_decode r)
      (omega (
        arith,
        from_hex-upper_hex (b / 16) (omega arith),
        from_hex-upper_hex (b % 16) (omega arith),
      ))

not_percent : (b : ℕ) → is_unreserved b ≡ true → (b == b'%') ≡ false
unfolding is_unreserved
not_percent b h = ground arith

decode_final_byte :
    (b : ℕ) (r : Text) → b < 256 → percent_decode (final_byte b ++ r) ≡ b ∷ percent_decode r
decode_final_byte b r h = elim (Bool-cases (is_unreserved b)) [
  | inl plain ↦ rw plain (decode_literal b r (not_percent b plain))
  | inr other ↦ rw other (decode_escaped b r h)
]

abbrev pub IsByte : ℕ → Type 0
IsByte b = b < 256

-- A byte that may stand in a value.
abbrev pub is_safe : ℕ → Bool
is_safe c = is_unreserved c || c == b'%'

safe_hex : (n : ℕ) → n < 16 → is_unreserved (upper_hex n) ≡ true
unfolding is_unreserved
safe_hex n h = ground arith

safe_final_byte : (b : ℕ) → b < 256 → All (λ c. is_safe c ≡ true) (final_byte b)
safe_final_byte b h =
    ground (arith, safe_hex (b / 16) (omega arith), safe_hex (b % 16) (omega arith))

utf8_rune-IsByte : (c : ℕ) → c < 0x110000 → All IsByte (utf8_rune c)
unfolding utf8_rune
utf8_rune-IsByte c h = ground arith

abbrev pub IsRune : ℕ → Type 0
IsRune c = c < 0x110000

utf8-IsByte : (s : Text) → All IsRune s → All IsByte (utf8 s)
utf8-IsByte [] h = tt
utf8-IsByte (c ∷ s) h =
    All-append IsByte (utf8_rune c) (utf8 s) (utf8_rune-IsByte c h.0) (utf8-IsByte s h.1)

value-cons :
    (b : ℕ) (bs : Bytes)
    → b < 256
    → replace_plus (query_escape_bytes (b ∷ bs))
      ≡ final_byte b ++ replace_plus (query_escape_bytes bs)
unfolding query_escape_bytes
value-cons b bs h =
    replace_plus-append (escape_byte b) (query_escape_bytes bs)
    ∙ ap (λ (t : Text). t ++ replace_plus (query_escape_bytes bs)) (replace_plus-escape_byte b h)

decode-bytes :
    (bs : Bytes) → All IsByte bs → percent_decode (replace_plus (query_escape_bytes bs)) ≡ bs
decode-bytes [] h = unfold query_escape_bytes replace_plus percent_decode in refl
decode-bytes (b ∷ bs) h =
    ap percent_decode (value-cons b bs h.0)
    ∙ decode_final_byte b (replace_plus (query_escape_bytes bs)) h.0
    ∙ ap (◌∷◌ b) (decode-bytes bs h.1)

safe-bytes :
    (bs : Bytes)
    → All IsByte bs
    → All (λ c. is_safe c ≡ true) (replace_plus (query_escape_bytes bs))
safe-bytes [] h = unfold query_escape_bytes replace_plus in tt
safe-bytes (b ∷ bs) h =
    rw (value-cons b bs h.0)
      (All-append _ (final_byte b) _ (safe_final_byte b h.0) (safe-bytes bs h.1))

-- A value of a magnet link is read back by percent-decoding as the UTF-8 of its text.
pub percent_decode-magnet_value :
    (s : Text) → All IsRune s → percent_decode (magnet_value s) ≡ utf8 s
percent_decode-magnet_value s h = decode-bytes (utf8 s) (utf8-IsByte s h)

pub magnet_value-safe : (s : Text) → All IsRune s → All (λ c. is_safe c ≡ true) (magnet_value s)
magnet_value-safe s h = safe-bytes (utf8 s) (utf8-IsByte s h)
