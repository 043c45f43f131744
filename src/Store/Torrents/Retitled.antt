-- ===== src/Store/Torrents/Retitled.antt =====
-- What `UpdateTorrentFields` leaves of a torrent (internal/store/torrents.go).
use revolution.Prelude.{
  ◌≡◌, refl, ap, ◌∙◌, ℤ, Text, text_eq, eq_text, Option, none, some, List, if◌then◌else◌,
  Bool-cases, inl, inr,
}
use revolution.Store.Table.{find, find-update, map_option}
use revolution.Store.Db.{Db, Torrent, TorrentRow, TorrentFile}
use revolution.Store.Exec.{Result, ok, err, World, ◌>>=◌, now, statement, lift}
use revolution.Store.Torrents.{torrent_key, edit_torrent, edit_row, files_of, update_torrent_fields}
use revolution.Store.Torrents.Upsert.{NoFault}
use revolution.Store.Torrents.ReadBack.{loaded, load_found}

-- The torrent with another title and category.
abbrev pub retitled : Text → Text → Result Torrent → Result Torrent
retitled title category (ok t) = ok (record t { title = title; category = category })
retitled title category (err e) = err e

load_found-edit :
    (title category : Text) (ts : ℤ) (o : Option TorrentRow) (files : List TorrentFile)
    → load_found (map_option (edit_row title category ts) o) files
      ≡ retitled title category (load_found o files)
load_found-edit title category ts none files = refl
load_found-edit title category ts (some r) files = refl

-- What is loaded under an id after an edit.
pub loaded-edit_torrent :
    (id title category : Text) (ts : ℤ) (db : Db) (j : Text)
    → loaded j (edit_torrent id title category ts db)
      ≡ (if eq_text id j then retitled title category (loaded j db) else loaded j db)
unfolding edit_torrent
loaded-edit_torrent id title category ts db j =
    ap (λ o. load_found o (files_of j db.torrent_files))
      (find-update torrent_key id (edit_row title category ts) j db.torrents (λ x. refl))
    ∙ elim (Bool-cases (eq_text id j)) [
      | inl same ↦ rw same (load_found-edit title category ts (find torrent_key j db.torrents) _)
      | inr other ↦ rw other refl
    ]

-- `UpdateTorrentFields` where no statement fails.
module _ (id title category : Text) (w : World) (h : NoFault w) where
  pub update_torrent_fields-db :
      (update_torrent_fields id title category w).1.db
      ≡ edit_torrent id title category (w.clock w.step) w.db
  unfolding update_torrent_fields ◌>>=◌ now statement lift
  update_torrent_fields-db = rw (h w.step) refl
