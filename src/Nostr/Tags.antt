-- ===== src/Nostr/Tags.antt =====
-- internal/nostr/nip35.go: what is read of single tags, the URL checks and extractImage.
use revolution.Prelude.{
  ℕ, Text, codes, eq_text, is_empty, Bool, true, false, not, ◌&&◌, ◌||◌, Option, none, some, List,
  [], ◌∷◌, leb, ◌==◌, if◌then◌else◌, length,
}
use revolution.Nostr.External.{External, Tag}

pub data Reason : Type 0 where
  title_missing info_hash_invalid : Reason

-- `panic`: an index out of range ends the program.
pub data Parse {ℓ} (A : Type ℓ) : Type ℓ where
  parsed : A → Parse A
  refused : Reason → Parse A
  panic : Parse A

infixl 5 ◌>>=◌
abbrev pub ◌>>=◌ {ℓ κ} : {A : Type ℓ} {B : Type κ} → Parse A → (A → Parse B) → Parse B
parsed a >>= f = f a
refused e >>= f = refused e
panic >>= f = panic

-- tag[1], tag[2], tag[1:]
abbrev pub value : Tag → Parse Text
value (_ ∷ v ∷ _) = parsed v
value _ = panic

abbrev pub second_value : Tag → Option Text
second_value (_ ∷ _ ∷ v ∷ _) = some v
second_value _ = none

abbrev pub fields : Tag → Parse (List Text)
fields [] = panic
fields (_ ∷ rest) = parsed rest

abbrev pub is_hex : ℕ → Bool
is_hex c = leb b'0' c && leb c b'9' || leb b'a' c && leb c b'f' || leb b'A' c && leb c b'F'

abbrev pub all_hex : Text → Bool
all_hex [] = true
all_hex (c ∷ cs) = is_hex c && all_hex cs

-- infoHashRe
unfoldable pub is_info_hash : Text → Bool
is_info_hash s = length s == 40 && all_hex s

abbrev http_scheme : Text → Bool
http_scheme s = eq_text s (codes "http") || eq_text s (codes "https")

abbrev tracker_scheme : Text → Bool
tracker_scheme s =
    eq_text s (codes "http")
    || eq_text s (codes "https")
    || eq_text s (codes "udp")
    || eq_text s (codes "wss")
    || eq_text s (codes "ws")

-- `strings.SplitN(field, " ", 2)`, where that has two parts.
abbrev pub cut_space : Text → Option (Text × Text)
cut_space [] = none
cut_space (c ∷ cs) =
    if c == b' '
    then some ([], cs)
    else elim (cut_space cs) [ none ↦ none | some (a, b) ↦ some (c ∷ a, b) ]

module _ (x : External) where
  unfoldable pub is_http_url : Text → Bool
  is_http_url s = elim (x.parse_url s) [
    | none ↦ false
    | some u ↦ http_scheme u.scheme && not (is_empty u.host)
  ]

  unfoldable pub is_tracker_url : Text → Bool
  is_tracker_url s = elim (x.parse_url s) [
    | none ↦ false
    | some u ↦ if is_empty u.host then false else tracker_scheme u.scheme
  ]

  -- `parts[0] == "url" && isHTTPURL(parts[1])`
  abbrev pub image_part : Option (Text × Text) → Option Text
  image_part none = none
  image_part (some (a, b)) = if eq_text a (codes "url") && is_http_url b then some b else none

  abbrev pub or_else : Option Text → Text → Text
  or_else none s = s
  or_else (some url) s = url

  -- The first field of an `imeta` tag that names an image.
  abbrev pub candidate : List Text → Text
  candidate [] = []
  candidate (f ∷ fs) = or_else (image_part (cut_space f)) (candidate fs)

  unfoldable pub imeta_image : List Tag → Parse Text
  imeta_image [] = parsed []
  imeta_image (tag ∷ tags) = do
    fs ← fields tag
    if is_empty (candidate fs) then imeta_image tags else parsed (candidate fs)

  abbrev pub image_or : Parse Text → Option Tag → Parse Text
  image_or rest none = rest
  image_or rest (some tag) = do url ← value tag; if is_http_url url then parsed url else rest

  unfoldable pub extract_image : List Tag → Parse Text
  unfolding imeta_image
  extract_image tags =
      image_or (imeta_image (x.find_all tags (codes "imeta"))) (x.find tags (codes "image"))
