-- ===== src/Nostr/Escape.antt =====
-- The encoding of text in a URL: what `url.Values.Encode` (net/url) and `strings.ReplaceAll` do for
-- `BuildMagnet` of internal/nostr/nip35.go.
pub mod Decode
use revolution.Prelude.{
  ℕ, ◌+◌, ◌/◌, ◌%◌, Text, codes, Bool, ◌&&◌, ◌||◌, List, [], ◌∷◌, ◌++◌, leb, ltb, ◌==◌,
  if◌then◌else◌,
}

abbrev pub Bytes : Type 0
Bytes = List ℕ

-- The bytes of one code point.
unfoldable pub utf8_rune : ℕ → Bytes
utf8_rune c =
    if ltb c 0x80
    then c ∷ []
    else if ltb c 0x800
    then (0xc0 + c / 64) ∷ (0x80 + c % 64) ∷ []
    else if ltb c 0x10000
    then (0xe0 + c / 4096) ∷ (0x80 + c / 64 % 64) ∷ (0x80 + c % 64) ∷ []
    else (0xf0 + c / 262144) ∷ (0x80 + c / 4096 % 64) ∷ (0x80 + c / 64 % 64) ∷ (0x80 + c % 64) ∷ []

abbrev pub utf8 : Text → Bytes
utf8 [] = []
utf8 (c ∷ cs) = utf8_rune c ++ utf8 cs

-- The bytes that `url.QueryEscape` leaves alone.
unfoldable pub is_unreserved : ℕ → Bool
is_unreserved c =
    leb b'a' c && leb c b'z'
    || leb b'A' c && leb c b'Z'
    || leb b'0' c && leb c b'9'
    || c == b'-'
    || c == b'_'
    || c == b'.'
    || c == b'~'

abbrev pub upper_hex : ℕ → ℕ
upper_hex n = if ltb n 10 then b'0' + n else 55 + n

unfoldable pub escape_byte : ℕ → Text
unfolding is_unreserved
escape_byte b =
    if b == b' '
    then b'+' ∷ []
    else if is_unreserved b
    then b ∷ []
    else b'%' ∷ upper_hex (b / 16) ∷ upper_hex (b % 16) ∷ []

unfoldable pub query_escape_bytes : Bytes → Text
unfolding escape_byte
query_escape_bytes [] = []
query_escape_bytes (b ∷ bs) = escape_byte b ++ query_escape_bytes bs

abbrev pub query_escape : Text → Text
query_escape s = query_escape_bytes (utf8 s)

-- `Values.Encode`, on pairs in the order of their keys.
unfoldable pub encode : List (Text × Text) → Text
unfolding query_escape_bytes
encode [] = []
encode ((k, v) ∷ []) = query_escape k ++ (b'=' ∷ query_escape v)
encode ((k, v) ∷ p ∷ ps) = query_escape k ++ (b'=' ∷ (query_escape v ++ (b'&' ∷ encode (p ∷ ps))))

-- `strings.ReplaceAll(s, "+", "%20")`
unfoldable pub replace_plus : Text → Text
replace_plus [] = []
replace_plus (c ∷ cs) =
    if c == b'+' then b'%' ∷ b'2' ∷ b'0' ∷ replace_plus cs else c ∷ replace_plus cs
