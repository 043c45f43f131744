-- ===== src/Store/Torrents/ReadBack.antt =====
-- What `GetTorrent` reads, and reads after `UpsertTorrent`.
use mathlib.Core.List.{append-nil}
use revolution.Prelude.{
  ℕ, ◌+◌, ◌≡◌, refl, sym, ap, ap₂, ◌∙◌, ℤ, Text, text_eq, eq_text, eq_text_iff, not, Option, none,
  some, List, [], ◌∷◌, ◌++◌, map, arith, if◌then◌else◌, select, Bool-cases, Option-cases, inl, inr,
}
use revolution.Store.Table.{find, find-upsert, find-key, merged}
use revolution.Store.Db.{Db, Torrent, TorrentFile, TorrentRow, FileRow, next_rowid}
use revolution.Store.Exec.{Result, ok, err, not_found, World, ◌>>=◌, query}
use revolution.Store.Torrents.{
  torrent_key, new_row, merge_row, upsert_row, get_torrent, files_of, load_row, upsert_torrent,
}
use revolution.Store.Torrents.Upsert.{
  file_row, write_torrent, NoFault, upsert_torrent_db, upsert_torrent-NoFault,
}

abbrev pub load_found : Option TorrentRow → List TorrentFile → Result Torrent
load_found none files = err not_found
load_found (some r) files = ok (load_row r files)

-- The torrent that the tables hold under an id.
abbrev pub loaded : Text → Db → Result Torrent
loaded id db = load_found (find torrent_key id db.torrents) (files_of id db.torrent_files)

pub get_torrent_lem : (id : Text) (w : World) → NoFault w → (get_torrent id w).0 ≡ loaded id w.db
unfolding get_torrent ◌>>=◌ query
get_torrent_lem id w h = ground (arith, h w.step, h (w.step + 1))

files_of-append :
    (id : Text) (xs ys : List FileRow) → files_of id (xs ++ ys) ≡ files_of id xs ++ files_of id ys
files_of-append id [] ys = refl
files_of-append id (x ∷ xs) ys = ground (arith, files_of-append id xs ys)

files_of-purged :
    (id j : Text) (xs : List FileRow)
    → files_of j (select (λ (f : FileRow). not (eq_text f.torrent_id id)) xs)
      ≡ (if eq_text id j then [] else files_of j xs)
files_of-purged id j [] = ground arith
files_of-purged id j (x ∷ xs) = ground (
  arith,
  files_of-purged id j xs,
  eq_text_iff x.torrent_id id,
  eq_text_iff x.torrent_id j,
  eq_text_iff id j,
)

files_of-written :
    (id j : Text) (fs : List TorrentFile)
    → files_of j (map (file_row id) fs) ≡ (if eq_text id j then fs else [])
files_of-written id j [] = ground arith
files_of-written id j (f ∷ fs) = ground (arith, files_of-written id j fs)

-- Who a stored torrent belongs to: the first publisher of the id.
abbrev pub owner : Torrent → Option TorrentRow → Text
owner t none = t.pubkey
owner t (some r) = r.pubkey

abbrev pub stored : Torrent → Db → Torrent
stored t db = record t { pubkey = owner t (find torrent_key t.id db.torrents) }

-- The files under each id after the write.
files_of-write :
    (id j : Text) (fs : List TorrentFile) (xs : List FileRow)
    → files_of j
        (select (λ (f : FileRow). not (eq_text f.torrent_id id)) xs ++ map (file_row id) fs)
      ≡ (if eq_text id j then fs else files_of j xs)
files_of-write id j fs xs =
    files_of-append j (select (λ (f : FileRow). not (eq_text f.torrent_id id)) xs) _
    ∙ ground (arith, files_of-purged id j xs, files_of-written id j fs, append-nil (files_of j xs))

stored-merged :
    (t : Torrent) (ts : ℤ) (n : ℕ) (db : Db)
    → load_row
        (merged torrent_key (new_row t ts n) (merge_row t ts) (find torrent_key t.id db.torrents))
        t.files
      ≡ stored t db
stored-merged t ts n db = elim (Option-cases (find torrent_key t.id db.torrents)) [
  | inl fresh ↦ rw fresh
  | inr (old, found) ↦ rw found (
      ap (λ (id : Text). record (stored t db) { id = id; pubkey = old.pubkey })
        (find-key torrent_key t.id db.torrents old found))
]

-- What is loaded under each id after the write.
pub loaded-write_torrent :
    (t : Torrent) (ts : ℤ) (db : Db) (j : Text)
    → loaded j (write_torrent t ts db) ≡ (if eq_text t.id j then ok (stored t db) else loaded j db)
unfolding upsert_row
loaded-write_torrent t ts db j =
    let n = next_rowid db.torrents in
    ap₂ load_found
      (find-upsert torrent_key (new_row t ts n) (merge_row t ts) j db.torrents (λ x. refl))
      (files_of-write t.id j t.files db.torrent_files)
    ∙ elim (Bool-cases (eq_text t.id j)) [
      | inl same ↦ rw same (ap ok (stored-merged t ts n db))
      | inr other ↦ rw other
    ]

-- With no failing statement, what `GetTorrent` returns after `UpsertTorrent t`: under the id of
-- `t` all of `t`, with the publisher that the id had first; under any other id what it returned
-- before.
pub get_torrent-upsert_torrent :
    (t : Torrent) (w : World) (j : Text)
    → NoFault w
    → (get_torrent j (upsert_torrent t w).1).0
      ≡ (if eq_text t.id j then ok (stored t w.db) else (get_torrent j w).0)
get_torrent-upsert_torrent t w j h =
    get_torrent_lem j (upsert_torrent t w).1 (upsert_torrent-NoFault t w h)
    ∙ ap (loaded j) (upsert_torrent_db t w h)
    ∙ loaded-write_torrent t (w.clock (w.step + 1)) w.db j
    ∙ ap (λ (r : Result Torrent). if eq_text t.id j then ok (stored t w.db) else r)
        (sym (get_torrent_lem j w h))
