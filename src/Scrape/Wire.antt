-- ===== src/Scrape/Wire.antt =====
-- encoding/binary (big endian) and encoding/hex, as internal/scrape uses them.
use revolution.Prelude.{
  ℕ, ◌+◌, ◌-◌, ◌*◌, ◌/◌, ◌%◌, ◌^◌, ◌<◌, ◌≡◌, Text, ◌&&◌, Option, none, some, List, [], ◌∷◌, ◌++◌,
  leb, if◌then◌else◌, drop, arith,
}

abbrev pub Bytes : Type 0
Bytes = List ℕ

-- `binary.BigEndian.PutUint32`
unfoldable pub put32 : ℕ → Bytes
put32 n = (n / 2 ^ 24 % 256) ∷ (n / 2 ^ 16 % 256) ∷ (n / 2 ^ 8 % 256) ∷ (n % 256) ∷ []

-- `binary.BigEndian.PutUint64`
unfoldable pub put64 : ℕ → Bytes
unfolding put32
put64 n = put32 (n / 2 ^ 32) ++ put32 (n % 2 ^ 32)

-- `binary.BigEndian.Uint32` of the first four bytes; a shorter slice is never passed.
unfoldable pub get32 : Bytes → ℕ
get32 (a ∷ b ∷ c ∷ d ∷ _) = a * 2 ^ 24 + b * 2 ^ 16 + c * 2 ^ 8 + d
get32 _ = 0

-- `binary.BigEndian.Uint64` of the first eight bytes.
unfoldable pub get64 : Bytes → ℕ
unfolding get32
get64 bs = get32 bs * 2 ^ 32 + get32 (drop 4 bs)

pub get32-put32 : (n : ℕ) (rest : Bytes) → n < 2 ^ 32 → get32 (put32 n ++ rest) ≡ n
unfolding get32 put32
get32-put32 n rest h = omega arith

pub get64-put64 : (n : ℕ) (rest : Bytes) → n < 2 ^ 64 → get64 (put64 n ++ rest) ≡ n
unfolding get64 put64
get64-put64 n rest h = omega arith

abbrev hex_digit : ℕ → Option ℕ
hex_digit c =
    if leb b'0' c && leb c b'9'
    then some (c - b'0')
    else if leb b'a' c && leb c b'f'
    then some (c - 87)
    else if leb b'A' c && leb c b'F'
    then some (c - 55)
    else none

abbrev join_digits : Option ℕ → Option ℕ → Option Bytes → Option Bytes
join_digits (some a) (some b) (some rest) = some ((a * 16 + b) ∷ rest)
join_digits _ _ _ = none

-- `hex.DecodeString`
unfoldable pub decode_hex : Text → Option Bytes
decode_hex [] = some []
decode_hex (_ ∷ []) = none
decode_hex (a ∷ b ∷ cs) = join_digits (hex_digit a) (hex_digit b) (decode_hex cs)
