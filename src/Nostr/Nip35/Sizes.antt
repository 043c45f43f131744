-- ===== src/Nostr/Nip35/Sizes.antt =====
-- The sizes of a torrent's files, and their sum as `ParseTorrent` forms it on `int64`.
use revolution.Prelude.{
  ℕ, ◌+◌, ◌-◌, ◌%◌, ◌^◌, ◌≤◌, ◌<◌, ◌≡◌, refl, ap, subst, ◌∙◌, ℤ, pos, negsuc, add64, word_mod,
  to_word, of_word, Text, codes, Option, none, some, List, [], ◌∷◌, ◌++◌, arith, Bool-cases, inl,
  inr,
}
use revolution.Store.Db.{Torrent, TorrentFile}
use revolution.Nostr.External.{External, Tag}
use revolution.Nostr.ParseInt.{parse_int, parse_int-range}
use revolution.Nostr.Nip35.Accepted.{>>=-eq-parsed}
use revolution.Nostr.Nip35.{
  Event, size_of, size_or_zero, read_files, read_title, read_info_hash, assemble, read_rest,
  check_info_hash, check_title, parse_torrent,
}
use revolution.Nostr.Tags.{Parse, parsed, second_value, is_info_hash}

abbrev pub magnitude : ℤ → ℕ
magnitude (pos n) = n
magnitude (negsuc n) = 0

-- The exact sum of the files' sizes.
abbrev pub total : List TorrentFile → ℕ
total [] = 0
total (f ∷ fs) = magnitude f.size_bytes + total fs

total-append : (fs gs : List TorrentFile) → total (fs ++ gs) ≡ total fs + total gs
total-append [] gs = omega arith
total-append (f ∷ fs) gs = omega (arith, total-append fs gs)

-- A file's size is a number of 63 bits.
abbrev pub SizeInRange : ℤ → Type 0
SizeInRange (pos n) = n < 2 ^ 63
SizeInRange (negsuc n) = ⊥

size_or_zero-range :
    (o : Option ℤ) → ((n : ℕ) → o ≡ some (pos n) → n < 2 ^ 63) → SizeInRange (size_or_zero o)
size_or_zero-range none h = omega arith
size_or_zero-range (some (pos n)) h = ground (arith, h n refl)
size_or_zero-range (some (negsuc n)) h = omega arith

size_of-range : (o : Option Text) → SizeInRange (size_of o)
size_of-range none = omega arith
size_of-range (some s) = size_or_zero-range (parse_int s) (parse_int-range s)

to_word-of_word : (w : ℕ) → w < word_mod → to_word (of_word w) ≡ w
to_word-of_word w h = ground arith

-- An `int64` counter that holds a sum up to wrapping goes on to do so.
add64-wrapped :
    (s : ℕ) (n : ℤ)
    → SizeInRange n
    → add64 (of_word (s % word_mod)) n ≡ of_word ((s + magnitude n) % word_mod)
unfolding add64
add64-wrapped s (pos n) h = ap of_word (omega (arith, to_word-of_word (s % word_mod) (omega arith)))
add64-wrapped s (negsuc n) h = absurd h

abbrev sized : Text → ℤ → TorrentFile
sized path n = record { path = path; size_bytes = n }

next_total :
    (files : List TorrentFile) (path : Text) (n : ℤ)
    → SizeInRange n
    → add64 (of_word (total files % word_mod)) n
      ≡ of_word (total (files ++ sized path n ∷ []) % word_mod)
next_total files path n h =
    add64-wrapped (total files) n h
    ∙ ap (λ (t : ℕ). of_word (t % word_mod)) (omega (arith, total-append files (sized path n ∷ [])))

read_files-size :
    (tags : List Tag) (files : List TorrentFile) (r : List TorrentFile × ℤ)
    → read_files tags files (of_word (total files % word_mod)) ≡ parsed r
    → r.1 ≡ of_word (total r.0 % word_mod)
unfolding read_files
read_files-size [] files (fs, n) h =
    let same : files ≡ fs = cc in
    let sum : n ≡ of_word (total files % word_mod) = cc in
    sum ∙ ap (λ (gs : List TorrentFile). of_word (total gs % word_mod)) same
read_files-size ((k ∷ p ∷ t) ∷ ts) files r h =
    let n = size_of (second_value (k ∷ p ∷ t)) in
    read_files-size ts (files ++ sized p n ∷ []) r (
      subst (λ acc. read_files ts (files ++ sized p n ∷ []) acc ≡ parsed r)
        (next_total files p n (size_of-range (second_value (k ∷ p ∷ t)))) h)
read_files-size (_ ∷ ts) files r h = cc

module _ (x : External) (evt : Event) where
  assemble-files :
      (title hash : Text) (a : Parse Text) (b : Parse (List TorrentFile × ℤ))
      (c d : Parse (List Text)) (e : Parse Text) (t : Torrent)
      → assemble x evt title hash a b c d e ≡ parsed t
      → b ≡ parsed (t.files, t.size_bytes)
  unfolding assemble
  assemble-files title hash (parsed a) (parsed (fs, n)) (parsed c) (parsed d) (parsed e) t h =
      let fs_eq : fs ≡ t.files = cc in
      let n_eq : n ≡ t.size_bytes = cc in λ i. parsed (fs_eq i, n_eq i)
  assemble-files _ _ _ _ _ _ _ t h = cc

  checked_files :
      (title hash : Text) (t : Torrent)
      → check_info_hash x evt title hash ≡ parsed t
      → read_files (x.find_all evt.tags (codes "file")) [] (pos 0) ≡ parsed (t.files, t.size_bytes)
  unfolding check_info_hash read_rest
  checked_files title hash t h = elim (Bool-cases (is_info_hash hash)) [
    | inl good ↦ assemble-files title hash _ _ _ _ _ t (rw good at h)
    | inr bad ↦ cc (rw bad at h)
  ]

  titled_files :
      (title : Text) (t : Torrent)
      → check_title x evt title ≡ parsed t
      → read_files (x.find_all evt.tags (codes "file")) [] (pos 0) ≡ parsed (t.files, t.size_bytes)
  unfolding check_title
  titled_files [] t h = cc
  titled_files (c ∷ cs) t h =
      let (hash, e, f) = >>=-eq-parsed (read_info_hash x (x.find evt.tags (codes "x"))) _ h in
      checked_files (c ∷ cs) hash t f

-- `SizeBytes` of an accepted torrent is the sum of its files' sizes as `int64` forms it: reduced to
-- 64 bits and read as a signed number.
pub parse_torrent-size :
    (x : External) (evt : Event) (t : Torrent)
    → parse_torrent x evt ≡ parsed t
    → t.size_bytes ≡ of_word (total t.files % word_mod)
unfolding parse_torrent
parse_torrent-size x evt t h =
    let (title, e, f) = >>=-eq-parsed (read_title x (x.find evt.tags (codes "title"))) _ h in
    read_files-size (x.find_all evt.tags (codes "file")) [] (t.files, t.size_bytes)
      (titled_files x evt title t f)

-- A torrent whose files take 2^63 bytes or more in all, and less than 2^64, is accepted with a
-- negative size.
pub parse_torrent-negative :
    (x : External) (evt : Event) (t : Torrent)
    → parse_torrent x evt ≡ parsed t
    → 2 ^ 63 ≤ total t.files
    → total t.files < 2 ^ 64
    → t.size_bytes ≡ negsuc (2 ^ 64 - 1 - total t.files)
parse_torrent-negative x evt t h lo hi = parse_torrent-size x evt t h ∙ ground arith
