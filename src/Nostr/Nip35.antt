-- ===== src/Nostr/Nip35.antt =====
-- internal/nostr/nip35.go: an event of kind 2003 becomes a torrent, or is refused with a reason.
pub mod Accepted
pub mod Total
pub mod Sizes
pub mod Magnet
use revolution.Prelude.{
  ℕ, ℤ, pos, negsuc, add64, Text, codes, eq_text, trim_space, is_empty, Bool, true, false, not,
  ◌&&◌, ◌||◌, Option, none, some, List, [], ◌∷◌, ◌++◌, leb, ◌==◌, if◌then◌else◌, length, le_int,
}
use revolution.Store.Db.{Torrent, TorrentFile}
use revolution.Nostr.External.{External, Tag, Url, to_lower, to_upper}
use revolution.Nostr.Tags.{
  Reason, title_missing, info_hash_invalid, Parse, parsed, refused, panic, ◌>>=◌, value,
  second_value, fields, is_hex, all_hex, is_info_hash, is_http_url, is_tracker_url, cut_space,
  image_part, or_else, candidate, imeta_image, extract_image,
}
use revolution.Nostr.Escape.{encode, replace_plus}
use revolution.Nostr.ParseInt.{parse_int}

-- The fields of `nostr.Event` that the program reads.
pub record Event : Type 0 where
  pub id : Text
  pub pubkey : Text
  pub kind : ℕ
  pub content : Text
  pub created_at : ℤ
  pub tags : List Tag

-- n of `strconv.ParseInt` where it parses and is not negative; 0 is the size that stays otherwise.
abbrev pub size_or_zero : Option ℤ → ℤ
size_or_zero none = pos 0
size_or_zero (some n) = if le_int (pos 0) n then n else pos 0

abbrev pub size_of : Option Text → ℤ
size_of none = pos 0
size_of (some s) = size_or_zero (parse_int s)

-- The loop over the `file` tags: `t.Files` and `t.SizeBytes` so far.
unfoldable pub read_files : List Tag → List TorrentFile → ℤ → Parse (List TorrentFile × ℤ)
read_files [] files size = parsed (files, size)
read_files (tag ∷ tags) files size = do
  path ← value tag
  let n = size_of (second_value tag)
  read_files tags (files ++ record { path = path; size_bytes = n } ∷ []) (add64 size n)

-- The loop over the `t` tags: the non-empty values.
unfoldable pub read_categories : List Tag → Parse (List Text)
read_categories [] = parsed []
read_categories (tag ∷ tags) = do
  v ← value tag
  rest ← read_categories tags
  parsed (if is_empty (trim_space v) then rest else trim_space v ∷ rest)

unfoldable pub read_refs : List Tag → Parse (List Text)
read_refs [] = parsed []
read_refs (tag ∷ tags) = do v ← value tag; rest ← read_refs tags; parsed (v ∷ rest)

-- `strings.Join(categories, ", ")`
abbrev pub join_comma : List Text → Text
join_comma [] = []
join_comma (x ∷ []) = x
join_comma (x ∷ y ∷ ys) = x ++ (codes ", " ++ join_comma (y ∷ ys))

module _ (x : External) where
  unfoldable pub build_magnet : Text → Text → Text → Text
  build_magnet info_hash title tracker =
      codes "magnet:?xt=urn:btih:"
      ++ (to_upper x info_hash
          ++ (b'&'
              ∷ replace_plus (
                  encode (
                    (codes "dn", title)
                    ∷ (if is_empty tracker then [] else (codes "tr", tracker) ∷ [])))))

  abbrev pub read_title : Option Tag → Parse Text
  read_title none = parsed []
  read_title (some tag) = do v ← value tag; parsed (trim_space v)

  abbrev pub read_info_hash : Option Tag → Parse Text
  read_info_hash none = parsed []
  read_info_hash (some tag) = do v ← value tag; parsed (to_lower x (trim_space v))

  abbrev pub read_tracker : Option Tag → Parse Text
  read_tracker none = parsed []
  read_tracker (some tag) = do
    v ← value tag
    parsed (if is_tracker_url x v then trim_space v else [])

  abbrev pub entry :
      Event → Text → Text → Text → List TorrentFile × ℤ → List Text → List Text → Text → Torrent
  entry evt title info_hash tracker (files, size) categories refs image = record {
    id = evt.id;
    pubkey = evt.pubkey;
    title = title;
    description = evt.content;
    info_hash = info_hash;
    magnet = build_magnet info_hash title tracker;
    tracker = tracker;
    image_url = image;
    category = join_comma categories;
    refs = refs;
    size_bytes = size;
    files = files;
    published_at = evt.created_at;
  }

  -- The five parts in the order in which they are read.
  unfoldable pub assemble :
      Event
      → Text
      → Text
      → Parse Text
      → Parse (List TorrentFile × ℤ)
      → Parse (List Text)
      → Parse (List Text)
      → Parse Text
      → Parse Torrent
  assemble evt title info_hash reads_tracker reads_files reads_categories reads_refs reads_image =
      do
        tracker ← reads_tracker
        files ← reads_files
        categories ← reads_categories
        refs ← reads_refs
        image ← reads_image
        parsed (entry evt title info_hash tracker files categories refs image)

  -- The part of `ParseTorrent` after the two checks.
  unfoldable pub read_rest : Event → Text → Text → Parse Torrent
  read_rest evt title info_hash =
      assemble evt title info_hash (read_tracker (x.find evt.tags (codes "tracker")))
        (read_files (x.find_all evt.tags (codes "file")) [] (pos 0))
        (read_categories (x.find_all evt.tags (codes "t")))
        (read_refs (x.find_all evt.tags (codes "i"))) (extract_image x evt.tags)

  unfoldable pub check_info_hash : Event → Text → Text → Parse Torrent
  check_info_hash evt title info_hash =
      if not (is_info_hash info_hash)
      then refused info_hash_invalid
      else read_rest evt title info_hash

  unfoldable pub check_title : Event → Text → Parse Torrent
  check_title evt title =
      if is_empty title
      then refused title_missing
      else read_info_hash (x.find evt.tags (codes "x")) >>= check_info_hash evt title

  unfoldable pub parse_torrent : Event → Parse Torrent
  parse_torrent evt = read_title (x.find evt.tags (codes "title")) >>= check_title evt
