-- ===== src/Nostr/Keys/Resolved.antt =====
-- What `ResolvePubkey` accepts, and its round trip with `EncodeNpub` (internal/nostr/keys.go).
use revolution.Prelude.{
  ℕ, ◌≡◌, refl, ap, ap₂, ◌∙◌, Text, codes, eq_text, is_space, NoSpace, trim_space_id, Bool, true,
  false, Option, some, [], ◌∷◌, ◌++◌, arith, if◌then◌else◌, All, ◌||◌, ◌&&◌, leb,
}
use revolution.Store.Exec.{Result, ok, err, invalid_key}
use revolution.Nostr.External.{External, lower, to_lower}
use revolution.Nostr.Keys.{
  Nip19, is_hex_pubkey, has_prefix, npub, read_npub, or_hex, resolve_trimmed, resolve_pubkey,
  encode_npub, all_lower_hex,
}

-- The characters of bech32, and the separator after the prefix.
abbrev pub is_bech32 : ℕ → Bool
is_bech32 c = leb b'0' c && leb c b'9' || leb b'a' c && leb c b'z'

-- What the documentation of nip19 says: a public key is decoded to 64 lower-case hexadecimal
-- digits, every such text has a form, the form is "npub1" and bech32 characters, and the form of
-- such a text is decoded to it.
pub record IsNip19 (n : Nip19) : Type 0 where
  pub decode_hex : (s hex : Text) → n.decode s ≡ some (npub, some hex) → is_hex_pubkey hex ≡ true
  pub encodes :
      (hex : Text)
      → is_hex_pubkey hex ≡ true
      → (form : Text) × (n.encode_public_key hex ≡ some (codes "npub1" ++ form))
        × All (λ c. is_bech32 c ≡ true) form
  pub decode_encode :
      (hex s : Text)
      → is_hex_pubkey hex ≡ true
      → n.encode_public_key hex ≡ some s
      → n.decode s ≡ some (npub, some hex)

-- A key that is accepted is 64 lower-case hexadecimal digits.
abbrev pub IsHexOr : Result Text → Type 0
IsHexOr (ok hex) = is_hex_pubkey hex ≡ true
IsHexOr (err e) = Unit

is_bech32-is_space : (c : ℕ) → is_bech32 c ≡ true → is_space c ≡ false
unfolding is_space
is_bech32-is_space c h = ground arith

is_bech32-lower : (x : External) (c : ℕ) → is_bech32 c ≡ true → lower x c ≡ c
unfolding lower
is_bech32-lower x c h = ground arith

All-NoSpace : (s : Text) → All (λ c. is_bech32 c ≡ true) s → NoSpace s
All-NoSpace [] h = tt
All-NoSpace (c ∷ cs) h = (is_bech32-is_space c h.0, All-NoSpace cs h.1)

to_lower_id : (x : External) (s : Text) → All (λ c. is_bech32 c ≡ true) s → to_lower x s ≡ s
to_lower_id x [] h = refl
to_lower_id x (c ∷ cs) h = ap₂ ◌∷◌ (is_bech32-lower x c h.0) (to_lower_id x cs h.1)

all_lower_hex-is_bech32 : (s : Text) → all_lower_hex s ≡ true → All (λ c. is_bech32 c ≡ true) s
all_lower_hex-is_bech32 [] h = tt
all_lower_hex-is_bech32 (c ∷ cs) h = ground (arith, h, all_lower_hex-is_bech32 cs)

pub is_hex_pubkey-is_bech32 : (s : Text) → is_hex_pubkey s ≡ true → All (λ c. is_bech32 c ≡ true) s
unfolding is_hex_pubkey
is_hex_pubkey-is_bech32 s h = all_lower_hex-is_bech32 s (ground (arith, h))

npub_form-is_bech32 :
    (s : Text)
    → All (λ c. is_bech32 c ≡ true) s
    → All (λ c. is_bech32 c ≡ true) (codes "npub1" ++ s)
npub_form-is_bech32 s h = (refl, (refl, (refl, (refl, (refl, h)))))

-- A form is not mistaken for digits.
npub_form-is_hex_pubkey : (s : Text) → is_hex_pubkey (codes "npub1" ++ s) ≡ false
unfolding is_hex_pubkey
npub_form-is_hex_pubkey s = ground arith

module _ (n : Nip19) (doc : IsNip19 n) (x : External) where
  resolve_pubkey-plain :
      (s : Text)
      → All (λ c. is_bech32 c ≡ true) s
      → resolve_pubkey n x s ≡ (
          if is_hex_pubkey s
          then ok s
          else if has_prefix s (codes "npub1")
          then read_npub (n.decode s)
          else err invalid_key)
  unfolding resolve_pubkey resolve_trimmed
  resolve_pubkey-plain s h =
      ap (resolve_trimmed n x) (trim_space_id s (All-NoSpace s h))
      ∙ ap
          (λ (l : Text).
            if is_hex_pubkey l
            then ok l
            else if has_prefix l (codes "npub1")
            then read_npub (n.decode s)
            else err invalid_key)
          (to_lower_id x s h)

  resolve_pubkey-form :
      (hex s : Text)
      → is_hex_pubkey hex ≡ true
      → All (λ c. is_bech32 c ≡ true) s
      → n.encode_public_key hex ≡ some (codes "npub1" ++ s)
      → resolve_pubkey n x (codes "npub1" ++ s) ≡ ok hex
  unfolding eq_text
  resolve_pubkey-form hex s h plain made =
      resolve_pubkey-plain (codes "npub1" ++ s) (npub_form-is_bech32 s plain)
      ∙ rw (npub_form-is_hex_pubkey s)
          (ap read_npub (doc.decode_encode hex (codes "npub1" ++ s) h made))

  -- A key of 64 lower-case hexadecimal digits and its `EncodeNpub` are both resolved to the key, if nip19 does what its documentation says.
  pub resolve_pubkey-encode_npub :
      (hex : Text)
      → is_hex_pubkey hex ≡ true
      → (resolve_pubkey n x hex ≡ ok hex) × (resolve_pubkey n x (encode_npub n hex) ≡ ok hex)
  unfolding encode_npub
  resolve_pubkey-encode_npub hex h =
      let (s, made, plain) = doc.encodes hex h in
      (
        resolve_pubkey-plain hex (is_hex_pubkey-is_bech32 hex h) ∙ rw h refl,
        ap (λ (o : Option Text). resolve_pubkey n x (or_hex hex o)) made
            ∙ resolve_pubkey-form hex s h plain made,
      )
