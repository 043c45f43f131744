-- ===== src/Tests/Events.antt =====
-- internal/nostr/nip35.go on an event with a title, an info hash, two files and a tracker.
use revolution.Prelude.{
  ◌≤◌, ◌≡◌, refl, pos, negsuc, Text, codes, eq_text, Bool, true, false, Option, none, some, List,
  [], ◌∷◌, ◌++◌, if◌then◌else◌, length, All, arith, Bool-cases, inl, inr, ◌^◌, ◌-◌, ◌+◌, trim_space,
}
use revolution.Store.Db.{Torrent}
use revolution.Web.Helpers.{human_size}
use revolution.Web.Helpers.Units.{by_threshold, human_size-units, human_size-parse_torrent}
use revolution.Nostr.External.{Tag, Url, External, IsDocumented, lower, to_upper}
use revolution.Nostr.Nip35.{
  Event, parse_torrent, build_magnet, check_title, check_info_hash, read_rest, assemble, read_files,
  read_categories, read_refs,
}
use revolution.Nostr.Tags.{Parse, parsed, is_info_hash, extract_image, is_tracker_url, is_http_url}
use revolution.Nostr.ParseInt.{parse_int}
use revolution.Nostr.Nip35.Accepted.{IsAccepted, parse_torrent-IsAccepted}
use revolution.Nostr.Nip35.Total.{is_panic, parse_torrent_total}
use revolution.Nostr.Nip35.Sizes.{total, parse_torrent-negative}
use revolution.Nostr.Nip35.Magnet.{IsMagnet, build_magnet-IsMagnet}

-- Tags that have the key and a value.
abbrev has_value : Text → Tag → Bool
has_value key (k ∷ v ∷ rest) = eq_text k key
has_value key _ = false

abbrev find_tag : List Tag → Text → Option Tag
find_tag [] key = none
find_tag (t ∷ ts) key = if has_value key t then some t else find_tag ts key

abbrev find_tags : List Tag → Text → List Tag
find_tags [] key = []
find_tags (t ∷ ts) key = if has_value key t then t ∷ find_tags ts key else find_tags ts key

-- scheme://host
abbrev url_of : Text → Text → Option Url
url_of s [] = none
url_of s (c ∷ cs) =
    if eq_text (c ∷ cs) (codes "://example.org")
    then some (record { scheme = s; host = codes "example.org" })
    else url_of (s ++ c ∷ []) cs

abbrev pub sample : External
sample = record {
  lower_rune = λ c. 0x100;
  upper_rune = λ c. c;
  parse_url = url_of [];
  find = find_tag;
  find_all = find_tags;
}

has_value-items : (key : Text) (t : Tag) → has_value key t ≡ true → 2 ≤ length t
has_value-items key t h = ground arith

find_tag-items :
    (tags : List Tag) (key : Text) (t : Tag) → find_tag tags key ≡ some t → 2 ≤ length t
find_tag-items [] key t h = cc
find_tag-items (u ∷ us) key t h = elim (Bool-cases (has_value key u)) [
  | inl hit ↦ ground (arith, h, hit, has_value-items key u)
  | inr miss ↦ find_tag-items us key t (rw miss at h)
]

find_tags-items :
    (tags : List Tag) (key : Text) → All (λ (t : Tag). 2 ≤ length t) (find_tags tags key)
find_tags-items [] key = tt
find_tags-items (u ∷ us) key = elim (Bool-cases (has_value key u)) [
  | inl hit ↦ rw hit (has_value-items key u hit, find_tags-items us key)
  | inr miss ↦ rw miss (find_tags-items us key)
]

pub sample-IsDocumented : IsDocumented sample
sample-IsDocumented = record {
  find_items = find_tag-items;
  find_all_items = find_tags-items;
  lower_capital = λ c. refl;
}

abbrev hash : Text
hash = codes "aAaaaaaaaaaaaaaaaaaaaaaaaaaaaaaaaaaaaaaa"

abbrev event : Text → Event
event size = record {
  id = codes "e1";
  pubkey = codes "pk";
  kind = 2003;
  content = codes "text";
  created_at = pos 1700000000;
  tags =
      (codes "title" ∷ codes " A film " ∷ [])
      ∷ (codes "x" ∷ hash ∷ [])
      ∷ (codes "file" ∷ codes "a" ∷ size ∷ [])
      ∷ (codes "file" ∷ codes "b" ∷ codes "7" ∷ [])
      ∷ (codes "tracker" ∷ codes "udp://example.org" ∷ [])
      ∷ [];
}

abbrev result : Parse Torrent → Torrent
result (parsed t) = t
result _ = record {
  id = [];
  pubkey = [];
  title = [];
  description = [];
  info_hash = [];
  magnet = [];
  tracker = [];
  image_url = [];
  category = [];
  refs = [];
  size_bytes = pos 0;
  files = [];
  published_at = pos 0;
}

abbrev pub small : Event
small = event (codes "5")

abbrev pub large : Event
large = event (codes "9223372036854775807")

abbrev small_torrent : Torrent
small_torrent = result (parse_torrent sample small)

abbrev large_torrent : Torrent
large_torrent = result (parse_torrent sample large)

small_parsed : parse_torrent sample small ≡ parsed small_torrent
unfolding parse_torrent check_title check_info_hash read_rest assemble is_info_hash read_files
    parse_int read_categories read_refs extract_image is_tracker_url is_http_url eq_text trim_space
    lower
small_parsed = refl

large_parsed : parse_torrent sample large ≡ parsed large_torrent
unfolding parse_torrent check_title check_info_hash read_rest assemble is_info_hash read_files
    parse_int read_categories read_refs extract_image is_tracker_url is_http_url eq_text trim_space
    lower
large_parsed = refl

parse_torrent-IsAccepted_example : IsAccepted sample small small_torrent
parse_torrent-IsAccepted_example =
    parse_torrent-IsAccepted sample small small_torrent sample-IsDocumented small_parsed

parse_torrent_total_example : is_panic (parse_torrent sample small) ≡ false
parse_torrent_total_example = parse_torrent_total sample small sample-IsDocumented

large_total : total large_torrent.files ≡ 2 ^ 63 + 6
unfolding parse_torrent check_title check_info_hash read_rest assemble is_info_hash read_files
    parse_int read_categories read_refs extract_image is_tracker_url is_http_url eq_text trim_space
    lower
large_total = refl

parse_torrent-negative_example :
    large_torrent.size_bytes ≡ negsuc (2 ^ 64 - 1 - total large_torrent.files)
parse_torrent-negative_example =
    parse_torrent-negative sample large large_torrent large_parsed (omega (arith, large_total))
      (omega (arith, large_total))

build_magnet-IsMagnet_example :
    IsMagnet
      (to_upper sample hash)
      (codes "A film & more")
      (codes "udp://example.org")
      (build_magnet sample hash (codes "A film & more") (codes "udp://example.org"))
build_magnet-IsMagnet_example =
    build_magnet-IsMagnet sample hash (codes "A film & more") (codes "udp://example.org")
      (omega arith) (omega arith)

parse_int_largest : parse_int (codes "9223372036854775807") ≡ some (pos (2 ^ 63 - 1))
unfolding parse_int
parse_int_largest = refl

parse_int_overflow : parse_int (codes "9223372036854775808") ≡ none
unfolding parse_int
parse_int_overflow = refl

parse_int_negative : parse_int (codes "-12") ≡ some (negsuc 11)
unfolding parse_int
parse_int_negative = refl

-- An event whose files take 2^60 + 7 bytes.
abbrev huge : Event
huge = event (codes "1152921504606846976")

abbrev huge_torrent : Torrent
huge_torrent = result (parse_torrent sample huge)

huge_parsed : parse_torrent sample huge ≡ parsed huge_torrent
unfolding parse_torrent check_title check_info_hash read_rest assemble is_info_hash read_files
    parse_int read_categories read_refs extract_image is_tracker_url is_http_url eq_text trim_space
    lower
huge_parsed = refl

huge_total : total huge_torrent.files ≡ 2 ^ 60 + 7
unfolding parse_torrent check_title check_info_hash read_rest assemble is_info_hash read_files
    parse_int read_categories read_refs extract_image is_tracker_url is_http_url eq_text trim_space
    lower
huge_total = refl

human_size-parse_torrent_example : human_size huge_torrent.size_bytes ≡ none
human_size-parse_torrent_example =
    human_size-parse_torrent sample huge huge_torrent huge_parsed (omega (arith, huge_total))
      (omega (arith, huge_total))

human_size-units_example : human_size (pos 5000000) ≡ by_threshold 5000000
human_size-units_example = human_size-units 5000000 (omega arith) (omega arith)
