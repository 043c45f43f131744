-- ===== src/Tests/Keys.antt =====
-- internal/nostr/keys.go with an encoding that puts the prefix before the digits, and
-- internal/config/config.go with a file that holds the name of the site.
use revolution.Prelude.{
  eq_text, ◌≡◌, refl, ap, sym, ◌∙◌, Text, codes, trim_space, true, Option, none, some, ◌++◌, drop,
  if◌then◌else◌, arith, Bool-cases, inl, inr,
}
use revolution.Store.Exec.{ok}
use revolution.Nostr.External.{lower}
use revolution.Nostr.Keys.{
  Nip19, is_hex_pubkey, has_prefix, npub, resolve_trimmed, resolve_pubkey, encode_npub,
}
use revolution.Nostr.Keys.Resolved.{IsNip19, is_hex_pubkey-is_bech32, resolve_pubkey-encode_npub}
use revolution.Config.{contents, not_exist, Files, Yaml}
use revolution.Tests.Events.{sample}

abbrev form : Text → Text
form hex = codes "npub1" ++ hex

abbrev decoded : Text → Option (Text × Option Text)
decoded hex = if is_hex_pubkey hex then some (npub, some hex) else none

abbrev pub keys : Nip19
keys = record {
  decode = λ s. if has_prefix s (codes "npub1") then decoded (drop 5 s) else none;
  encode_public_key = λ hex. if is_hex_pubkey hex then some (form hex) else none;
}

some_text : (a b : Text) → some a ≡ some b → a ≡ b
some_text a b h = cc

decoded-hex : (s hex : Text) → decoded s ≡ some (npub, some hex) → is_hex_pubkey hex ≡ true
decoded-hex s hex h = elim (Bool-cases (is_hex_pubkey s)) [
  | inl good ↦ ground (arith, h, good)
  | inr bad ↦ ground (arith, h, bad)
]

decode-hex : (s hex : Text) → keys.decode s ≡ some (npub, some hex) → is_hex_pubkey hex ≡ true
decode-hex s hex h = elim (Bool-cases (has_prefix s (codes "npub1"))) [
  | inl starts ↦ decoded-hex (drop 5 s) hex (rw starts at h)
  | inr other ↦ ground (arith, h, other)
]

decode-encode :
    (hex s : Text)
    → is_hex_pubkey hex ≡ true
    → keys.encode_public_key hex ≡ some s
    → keys.decode s ≡ some (npub, some hex)
decode-encode hex s good h = elim (Bool-cases (is_hex_pubkey hex)) [
  | inl good ↦ ap keys.decode (sym (some_text _ _ (rw good at h))) ∙ rw good refl
  | inr bad ↦ ground (arith, h, bad)
]

pub keys-IsNip19 : IsNip19 keys
keys-IsNip19 = record {
  decode_hex = decode-hex;
  encodes = λ hex h. (hex, rw h refl, is_hex_pubkey-is_bech32 hex h);
  decode_encode = decode-encode;
}

abbrev pub alice_key : Text
alice_key = codes "3bf0c63fcb93463407af97a5e5ee64fa883d107ef9e558472c4eb9aaaefa459d"

alice_key-hex : is_hex_pubkey alice_key ≡ true
unfolding is_hex_pubkey
alice_key-hex = refl

resolve_pubkey-encode_npub_example :
    (resolve_pubkey keys sample alice_key ≡ ok alice_key)
    × (resolve_pubkey keys sample (encode_npub keys alice_key) ≡ ok alice_key)
resolve_pubkey-encode_npub_example =
    resolve_pubkey-encode_npub keys keys-IsNip19 sample alice_key alice_key-hex

-- An upper-case key, with blanks.
abbrev pub capitals : Text
capitals = codes " 3BF0C63FCB93463407AF97A5E5EE64FA883D107EF9E558472C4EB9AAAEFA459D"

pub resolve_capitals : resolve_pubkey keys sample capitals ≡ ok alice_key
unfolding resolve_pubkey resolve_trimmed is_hex_pubkey trim_space lower
resolve_capitals = refl

-- A file holds the name of the site; the other keys have their defaults.
abbrev pub yaml : Yaml
yaml = record {
  unmarshal = λ text old. some (record old { site_name = text });
  marshal = λ cfg. some cfg.site_name;
}

abbrev pub files : Files
files = record {
  read = λ path. not_exist;
  write = λ path text. (true, λ p. if eq_text path p then contents text else not_exist);
}
