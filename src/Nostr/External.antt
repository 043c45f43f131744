-- ===== src/Nostr/External.antt =====
-- What internal/nostr takes from code that is not in the repository, as parameters: the tag
-- searches of go-nostr, `url.Parse`, and the case tables of `unicode` beyond ASCII.
use revolution.Prelude.{
  ℕ, ◌+◌, ◌-◌, ◌≤◌, ◌≡◌, Text, Bool, false, ◌&&◌, Option, some, List, map, leb, ltb, if◌then◌else◌,
  length, All,
}

-- `nostr.Tag` is a list of strings.
abbrev pub Tag : Type 0
Tag = List Text

-- The fields of `url.URL` that the program reads.
pub record Url : Type 0 where
  pub scheme : Text
  pub host : Text

pub record External : Type 0 where
  pub lower_rune : ℕ → ℕ
  pub upper_rune : ℕ → ℕ
  pub parse_url : Text → Option Url
  pub find : List Tag → Text → Option Tag
  pub find_all : List Tag → Text → List Tag

abbrev pub is_capital : ℕ → Bool
is_capital c = leb b'A' c && leb c b'Z'

-- What the documentation of that code says and the program relies on: the tag searches return only
-- tags with a value (two items at least), and no code point beyond ASCII has a capital ASCII letter
-- for its lower case.
pub record IsDocumented (x : External) : Type 0 where
  pub find_items :
      (tags : List Tag) (key : Text) (t : Tag) → x.find tags key ≡ some t → 2 ≤ length t
  pub find_all_items :
      (tags : List Tag) (key : Text) → All (λ (t : Tag). 2 ≤ length t) (x.find_all tags key)
  pub lower_capital : (c : ℕ) → is_capital (x.lower_rune c) ≡ false

module _ (x : External) where
  -- `strings.ToLower`
  unfoldable pub lower : ℕ → ℕ
  lower c = if ltb c 0x80 then (if is_capital c then c + 32 else c) else x.lower_rune c

  abbrev pub to_lower : Text → Text
  to_lower = map lower

  -- `strings.ToUpper`
  unfoldable pub upper : ℕ → ℕ
  upper c = if ltb c 0x80 then (if leb b'a' c && leb c b'z' then c - 32 else c) else x.upper_rune c

  abbrev pub to_upper : Text → Text
  to_upper = map upper
