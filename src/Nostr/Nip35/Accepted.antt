-- ===== src/Nostr/Nip35/Accepted.antt =====
-- The torrents that `ParseTorrent` returns.
use revolution.Prelude.{
  ℕ, ◌≡◌, refl, sym, ap, subst, ◌∙◌, ◌⊎◌, ℤ, Text, codes, trim_space, is_empty, Bool, true, false,
  ◌&&◌, ◌||◌, Option, none, some, List, [], ◌∷◌, leb, length, arith, Bool-cases, Option-cases, inl,
  inr,
}
use revolution.Store.Db.{Torrent, TorrentFile}
use revolution.Nostr.External.{External, IsDocumented, Tag, lower, to_lower, is_capital}
use revolution.Nostr.Nip35.{
  Event, build_magnet, read_title, read_info_hash, read_tracker, entry, assemble, read_rest,
  check_info_hash, check_title, parse_torrent,
}
use revolution.Nostr.Tags.{
  image_or, Parse, parsed, refused, panic, ◌>>=◌, is_hex, all_hex, is_info_hash, is_http_url,
  is_tracker_url, imeta_image, extract_image, candidate, cut_space, image_part,
}

pub >>=-eq-parsed {ℓ κ} :
    {A : Type ℓ} {B : Type κ} (m : Parse A) (f : A → Parse B) {b : B}
    → (m >>= f) ≡ parsed b
    → (a : A) × (m ≡ parsed a) × (f a ≡ parsed b)
>>=-eq-parsed (parsed a) f h = (a, refl, h)
>>=-eq-parsed (refused e) f h = cc
>>=-eq-parsed panic f h = cc

abbrev pub is_lower_hex : ℕ → Bool
is_lower_hex c = leb b'0' c && leb c b'9' || leb b'a' c && leb c b'f'

abbrev pub all_lower_hex : Text → Bool
all_lower_hex [] = true
all_lower_hex (c ∷ cs) = is_lower_hex c && all_lower_hex cs

module _ (x : External) (doc : IsDocumented x) where
  lower_not_capital : (c : ℕ) → is_capital (lower x c) ≡ false
  unfolding lower
  lower_not_capital c = ground (arith, doc.lower_capital c)

  lower_hex : (c : ℕ) → is_hex (lower x c) ≡ true → is_lower_hex (lower x c) ≡ true
  lower_hex c h = ground (arith, lower_not_capital c)

  all_lower : (s : Text) → all_hex (to_lower x s) ≡ true → all_lower_hex (to_lower x s) ≡ true
  all_lower [] h = refl
  all_lower (c ∷ cs) h = ground (arith, lower_hex c, all_lower cs)

  read_info_hash_lower :
      (o : Option Tag) (h : Text)
      → read_info_hash x o ≡ parsed h
      → all_hex h ≡ true
      → all_lower_hex h ≡ true
  read_info_hash_lower none h e a = ground arith
  read_info_hash_lower (some (k ∷ v ∷ r)) h e a =
      let p : to_lower x (trim_space v) ≡ h = cc in
      sym (ap all_lower_hex p) ∙ all_lower (trim_space v) (ap all_hex p ∙ a)
  read_info_hash_lower (some _) h e a = cc

-- A tracker that is kept comes, trimmed, from a URL of a scheme for trackers.
abbrev pub TrackerFrom : External → Text → Type 0
TrackerFrom x t = (t ≡ []) ⊎ ((raw : Text) × (is_tracker_url x raw ≡ true) × (t ≡ trim_space raw))

abbrev pub ImageFrom : External → Text → Type 0
ImageFrom x i = (i ≡ []) ⊎ (is_http_url x i ≡ true)

module _ (x : External) where
  read_tracker-TrackerFrom :
      (o : Option Tag) (t : Text) → read_tracker x o ≡ parsed t → TrackerFrom x t
  read_tracker-TrackerFrom none t e = inl cc
  read_tracker-TrackerFrom (some (k ∷ v ∷ r)) t e = elim (Bool-cases (is_tracker_url x v)) [
    | inl good ↦ inr (v, good, ground arith)
    | inr bad ↦ inl (ground arith)
  ]
  read_tracker-TrackerFrom (some _) t e = cc

  image_part-good :
      (o : Option (Text × Text)) (u : Text) → image_part x o ≡ some u → is_http_url x u ≡ true
  image_part-good none u e = cc
  image_part-good (some (a, b)) u e = ground arith

  candidate-ImageFrom : (fs : List Text) → ImageFrom x (candidate x fs)
  candidate-ImageFrom [] = inl refl
  candidate-ImageFrom (f ∷ fs) = elim (Option-cases (image_part x (cut_space f))) [
    | inl miss ↦ rw miss (candidate-ImageFrom fs)
    | inr (u, hit) ↦ rw hit (inr (image_part-good (cut_space f) u hit))
  ]

  imeta_image-ImageFrom :
      (tags : List Tag) (i : Text) → imeta_image x tags ≡ parsed i → ImageFrom x i
  unfolding imeta_image
  imeta_image-ImageFrom [] i e = inl cc
  imeta_image-ImageFrom ([] ∷ tags) i e = cc
  imeta_image-ImageFrom ((k ∷ fs) ∷ tags) i e =
      ground (arith, candidate-ImageFrom fs, imeta_image-ImageFrom tags i)

  image_or-ImageFrom :
      (rest : Parse Text) (o : Option Tag) (i : Text)
      → (rest ≡ parsed i → ImageFrom x i)
      → image_or x rest o ≡ parsed i
      → ImageFrom x i
  image_or-ImageFrom rest none i h e = h e
  image_or-ImageFrom rest (some (k ∷ v ∷ r)) i h e = elim (Bool-cases (is_http_url x v)) [
    | inl good ↦ inr (ground arith)
    | inr bad ↦ h (ground arith)
  ]
  image_or-ImageFrom rest (some _) i h e = cc

  extract_image-ImageFrom :
      (tags : List Tag) (i : Text) → extract_image x tags ≡ parsed i → ImageFrom x i
  unfolding extract_image
  extract_image-ImageFrom tags i =
      image_or-ImageFrom _ (x.find tags (codes "image")) i
        (imeta_image-ImageFrom (x.find_all tags (codes "imeta")) i)

-- A catalogue entry as `ParseTorrent` makes it from an event.
pub record IsAccepted (x : External) (evt : Event) (t : Torrent) : Type 0 where
  pub id : t.id ≡ evt.id
  pub pubkey : t.pubkey ≡ evt.pubkey
  pub description : t.description ≡ evt.content
  pub published_at : t.published_at ≡ evt.created_at
  pub titled : is_empty t.title ≡ false
  pub hash_length : length t.info_hash ≡ 40
  pub hash_hex : all_lower_hex t.info_hash ≡ true
  pub magnet : t.magnet ≡ build_magnet x t.info_hash t.title t.tracker
  pub tracker_from : TrackerFrom x t.tracker
  pub image_from : ImageFrom x t.image_url

module _ (x : External) (evt : Event) (title hash : Text) (titled : is_empty title ≡ false)
    (long : length hash ≡ 40) (hex : all_lower_hex hash ≡ true) where
  entry-IsAccepted :
      (tracker : Text) (files : List TorrentFile × ℤ) (categories refs : List Text) (image : Text)
      → TrackerFrom x tracker
      → ImageFrom x image
      → IsAccepted x evt (entry x evt title hash tracker files categories refs image)
  entry-IsAccepted tracker files categories refs image from_tracker from_image = record {
    id = refl;
    pubkey = refl;
    description = refl;
    published_at = refl;
    titled = titled;
    hash_length = long;
    hash_hex = hex;
    magnet = refl;
    tracker_from = from_tracker;
    image_from = from_image;
  }

  assemble-IsAccepted :
      (a : Parse Text) (b : Parse (List TorrentFile × ℤ)) (c d : Parse (List Text)) (e : Parse Text)
      (t : Torrent)
      → ((s : Text) → a ≡ parsed s → TrackerFrom x s)
      → ((s : Text) → e ≡ parsed s → ImageFrom x s)
      → assemble x evt title hash a b c d e ≡ parsed t
      → IsAccepted x evt t
  unfolding assemble
  assemble-IsAccepted (parsed a) (parsed b) (parsed c) (parsed d) (parsed e) t ha he h =
      subst (IsAccepted x evt) (cc) (entry-IsAccepted a b c d e (ha a refl) (he e refl))
  assemble-IsAccepted _ _ _ _ _ t ha he h = cc

  read_rest-IsAccepted : (t : Torrent) → read_rest x evt title hash ≡ parsed t → IsAccepted x evt t
  unfolding read_rest
  read_rest-IsAccepted t =
      assemble-IsAccepted _ _ _ _ _ t
        (read_tracker-TrackerFrom x (x.find evt.tags (codes "tracker")))
        (extract_image-ImageFrom x evt.tags)

module _ (x : External) (doc : IsDocumented x) (evt : Event) where
  check_info_hash-IsAccepted :
      (title hash : Text) (t : Torrent)
      → is_empty title ≡ false
      → read_info_hash x (x.find evt.tags (codes "x")) ≡ parsed hash
      → check_info_hash x evt title hash ≡ parsed t
      → IsAccepted x evt t
  unfolding check_info_hash is_info_hash
  check_info_hash-IsAccepted title hash t titled e h =
      let good : (length hash ≡ 40) × (all_hex hash ≡ true) = (ground arith, ground arith) in
      let hex = read_info_hash_lower x doc (x.find evt.tags (codes "x")) hash e good.1 in
      read_rest-IsAccepted x evt title hash titled good.0 hex t (ground (arith, good))

  check_title-IsAccepted :
      (title : Text) (t : Torrent) → check_title x evt title ≡ parsed t → IsAccepted x evt t
  unfolding check_title
  check_title-IsAccepted [] t h = cc
  check_title-IsAccepted (c ∷ cs) t h =
      let (hash, e, f) = >>=-eq-parsed (read_info_hash x (x.find evt.tags (codes "x"))) _ h in
      check_info_hash-IsAccepted (c ∷ cs) hash t refl e f

-- Every entry that `ParseTorrent` returns has the identity, text and time of its event, a title
-- that is not empty, an info hash of 40 lower-case hexadecimal digits, the magnet link built from
-- these, and no tracker or image but one whose URL passed the check.
pub parse_torrent-IsAccepted :
    (x : External) (evt : Event) (t : Torrent)
    → IsDocumented x
    → parse_torrent x evt ≡ parsed t
    → IsAccepted x evt t
unfolding parse_torrent
parse_torrent-IsAccepted x evt t doc h =
    let (title, e, f) = >>=-eq-parsed (read_title x (x.find evt.tags (codes "title"))) _ h in
    check_title-IsAccepted x doc evt title t f
