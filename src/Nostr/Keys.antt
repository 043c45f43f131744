-- ===== src/Nostr/Keys.antt =====
-- internal/nostr/keys.go: public keys as users type them and as the site shows them. The bech32
-- forms are nip19 of go-nostr, a parameter.
pub mod Resolved
use revolution.Prelude.{
  ℕ, Text, codes, eq_text, is_empty, trim_space, Bool, true, false, ◌&&◌, ◌||◌, Option, none, some,
  [], ◌∷◌, leb, ◌==◌, if◌then◌else◌, length,
}
use revolution.Store.Exec.{Result, ok, err, invalid_key}
use revolution.Nostr.External.{External, to_lower}

pub record Nip19 : Type 0 where
  -- the prefix, and the value where it is a string; nothing for an error
  pub decode : Text → Option (Text × Option Text)
  -- nothing for an error
  pub encode_public_key : Text → Option Text

abbrev pub is_lower_hex : ℕ → Bool
is_lower_hex c = leb b'0' c && leb c b'9' || leb b'a' c && leb c b'f'

abbrev pub all_lower_hex : Text → Bool
all_lower_hex [] = true
all_lower_hex (c ∷ cs) = is_lower_hex c && all_lower_hex cs

-- hexPubkeyRe
unfoldable pub is_hex_pubkey : Text → Bool
is_hex_pubkey s = length s == 64 && all_lower_hex s

-- `strings.HasPrefix`
abbrev pub has_prefix : Text → Text → Bool
has_prefix s [] = true
has_prefix [] (p ∷ ps) = false
has_prefix (c ∷ cs) (p ∷ ps) = c == p && has_prefix cs ps

abbrev pub npub : Text
npub = codes "npub"

-- What is made of a decoded value.
abbrev pub read_npub : Option (Text × Option Text) → Result Text
read_npub none = err invalid_key
read_npub (some (prefix, none)) = err invalid_key
read_npub (some (prefix, some hex)) = if eq_text prefix npub then ok hex else err invalid_key

abbrev pub or_hex : Text → Option Text → Text
or_hex hex none = hex
or_hex hex (some n) = n

module _ (nip19 : Nip19) where
  unfoldable pub resolve_trimmed : External → Text → Result Text
  unfolding is_hex_pubkey
  resolve_trimmed x s =
      let lower = to_lower x s in
      if is_hex_pubkey lower
      then ok lower
      else if has_prefix lower (codes "npub1")
      then read_npub (nip19.decode s)
      else err invalid_key

  unfoldable pub resolve_pubkey : External → Text → Result Text
  resolve_pubkey x s = resolve_trimmed x (trim_space s)

  unfoldable pub encode_npub : Text → Text
  encode_npub hex = or_hex hex (nip19.encode_public_key hex)
