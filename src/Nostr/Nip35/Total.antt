-- ===== src/Nostr/Nip35/Total.antt =====
-- The tag accesses of `ParseTorrent`.
use revolution.Prelude.{
  ◌≤◌, ◌≡◌, refl, ℤ, pos, Text, codes, Bool, true, false, Option, none, some, List, [], ◌∷◌, length,
  arith, All,
}
use revolution.Store.Db.{TorrentFile}
use revolution.Nostr.External.{External, IsDocumented, Tag}
use revolution.Nostr.Nip35.{
  Event, read_files, read_categories, read_refs, read_title, read_info_hash, read_tracker, assemble,
  read_rest, check_info_hash, check_title, parse_torrent,
}
use revolution.Nostr.Tags.{
  image_or, Parse, parsed, refused, panic, ◌>>=◌, value, imeta_image, extract_image,
}

abbrev pub is_panic {ℓ} : {A : Type ℓ} → Parse A → Bool
is_panic panic = true
is_panic _ = false

is_panic-bind {ℓ κ} :
    {A : Type ℓ} {B : Type κ} (m : Parse A) (f : A → Parse B)
    → is_panic m ≡ false
    → ((a : A) → is_panic (f a) ≡ false)
    → is_panic (m >>= f) ≡ false
is_panic-bind (parsed a) f h k = k a
is_panic-bind (refused e) f h k = refl
is_panic-bind panic f h k = cc

abbrev Full : Tag → Type 0
Full t = 2 ≤ length t

value_total : (t : Tag) → Full t → is_panic (value t) ≡ false
value_total [] h = ground arith
value_total (a ∷ []) h = ground arith
value_total (a ∷ b ∷ r) h = refl

read_files_total :
    (tags : List Tag) (files : List TorrentFile) (size : ℤ)
    → All Full tags
    → is_panic (read_files tags files size) ≡ false
unfolding read_files
read_files_total [] files size h = refl
read_files_total (t ∷ ts) files size h =
    is_panic-bind (value t) _ (value_total t h.0) (λ p. read_files_total ts _ _ h.1)

read_categories_total : (tags : List Tag) → All Full tags → is_panic (read_categories tags) ≡ false
unfolding read_categories
read_categories_total [] h = refl
read_categories_total (t ∷ ts) h =
    is_panic-bind (value t) _ (value_total t h.0)
      (λ v. is_panic-bind (read_categories ts) _ (read_categories_total ts h.1) (λ r. refl))

read_refs_total : (tags : List Tag) → All Full tags → is_panic (read_refs tags) ≡ false
unfolding read_refs
read_refs_total [] h = refl
read_refs_total (t ∷ ts) h =
    is_panic-bind (value t) _ (value_total t h.0)
      (λ v. is_panic-bind (read_refs ts) _ (read_refs_total ts h.1) (λ r. refl))

module _ (x : External) where
  imeta_image_total : (tags : List Tag) → All Full tags → is_panic (imeta_image x tags) ≡ false
  unfolding imeta_image
  imeta_image_total [] h = refl
  imeta_image_total ([] ∷ ts) h = ground arith
  imeta_image_total ((a ∷ fs) ∷ ts) h = ground (arith, imeta_image_total ts h.1)

  image_or_total :
      (rest : Parse Text) (o : Option Tag)
      → is_panic rest ≡ false
      → ((t : Tag) → o ≡ some t → Full t)
      → is_panic (image_or x rest o) ≡ false
  image_or_total rest none h k = h
  image_or_total rest (some t) h k =
      is_panic-bind (value t) _ (value_total t (k t refl)) (λ u. ground (arith, h))

  read_title_total :
      (o : Option Tag) → ((t : Tag) → o ≡ some t → Full t) → is_panic (read_title x o) ≡ false
  read_title_total none k = refl
  read_title_total (some t) k = is_panic-bind (value t) _ (value_total t (k t refl)) (λ u. refl)

  read_info_hash_total :
      (o : Option Tag) → ((t : Tag) → o ≡ some t → Full t) → is_panic (read_info_hash x o) ≡ false
  read_info_hash_total none k = refl
  read_info_hash_total (some t) k = is_panic-bind (value t) _ (value_total t (k t refl)) (λ u. refl)

  read_tracker_total :
      (o : Option Tag) → ((t : Tag) → o ≡ some t → Full t) → is_panic (read_tracker x o) ≡ false
  read_tracker_total none k = refl
  read_tracker_total (some t) k = is_panic-bind (value t) _ (value_total t (k t refl)) (λ u. refl)

module _ (x : External) (doc : IsDocumented x) (evt : Event) where
  read_rest_total : (title hash : Text) → is_panic (read_rest x evt title hash) ≡ false
  unfolding read_rest assemble extract_image
  read_rest_total title hash =
      is_panic-bind _ _ (read_tracker_total x _ (doc.find_items evt.tags (codes "tracker")))
        (λ tracker.
          is_panic-bind _ _
            (read_files_total _ [] (pos 0) (doc.find_all_items evt.tags (codes "file")))
            (λ files.
              is_panic-bind _ _ (read_categories_total _ (doc.find_all_items evt.tags (codes "t")))
                (λ categories.
                  is_panic-bind _ _ (read_refs_total _ (doc.find_all_items evt.tags (codes "i")))
                    (λ refs.
                      is_panic-bind _ _
                        (image_or_total x _ _
                          (imeta_image_total x _ (doc.find_all_items evt.tags (codes "imeta")))
                          (doc.find_items evt.tags (codes "image")))
                        (λ image. refl)))))

  check_info_hash_total : (title hash : Text) → is_panic (check_info_hash x evt title hash) ≡ false
  unfolding check_info_hash
  check_info_hash_total title hash = ground (arith, read_rest_total title hash)

  check_title_total : (title : Text) → is_panic (check_title x evt title) ≡ false
  unfolding check_title
  check_title_total [] = refl
  check_title_total (c ∷ cs) =
      is_panic-bind _ _ (read_info_hash_total x _ (doc.find_items evt.tags (codes "x")))
        (check_info_hash_total (c ∷ cs))

-- Whatever the event's tags, `ParseTorrent` returns a torrent or an error: it never panics.
pub parse_torrent_total :
    (x : External) (evt : Event) → IsDocumented x → is_panic (parse_torrent x evt) ≡ false
unfolding parse_torrent
parse_torrent_total x evt doc =
    is_panic-bind _ _ (read_title_total x _ (doc.find_items evt.tags (codes "title")))
      (check_title_total x doc evt)
