-- ===== src/Store/Torrents.antt =====
-- internal/store/torrents.go: a torrent's row with its files, written by one transaction.
pub mod Index
pub mod References
pub mod Upsert
pub mod ReadBack
pub mod Deletion
pub mod Missing
pub mod Retitled
use revolution.Prelude.{
  ℕ, ℤ, pos, Text, text_eq, eq_text, Bool, true, false, not, Option, none, some, List, [], ◌∷◌,
  ◌++◌, map, if◌then◌else◌, select, length, ◌==◌,
}
use revolution.Store.Table.{find, upsert, update, delete, affected}
use revolution.Store.Db.{
  Db, Torrent, TorrentFile, TorrentRow, FileRow, StatsRow, FtsRow, torrents_ai, torrents_ad,
  torrents_au, next_rowid, has_torrent,
}
use revolution.Store.Exec.{
  Result, ok, err, not_found, sql_error, M, pure, raise, lift, statement, query, ◌>>=◌, ◌>>◌, now,
  transaction,
}

abbrev pub torrent_key : TorrentRow → Text
torrent_key r = r.id

-- The row of VALUES (…), with `created_at` and `updated_at` at `ts`.
abbrev pub new_row : Torrent → ℤ → ℕ → TorrentRow
new_row t ts rowid = record {
  rowid = rowid;
  id = t.id;
  pubkey = t.pubkey;
  title = t.title;
  description = t.description;
  info_hash = t.info_hash;
  magnet = t.magnet;
  tracker = t.tracker;
  image_url = t.image_url;
  category = t.category;
  refs = t.refs;
  size_bytes = t.size_bytes;
  published_at = t.published_at;
  created_at = ts;
  updated_at = ts;
}

-- DO UPDATE SET …: `pubkey` and `created_at` stay.
abbrev pub merge_row : Torrent → ℤ → TorrentRow → TorrentRow
merge_row t ts old = record old {
  title = t.title;
  description = t.description;
  info_hash = t.info_hash;
  magnet = t.magnet;
  tracker = t.tracker;
  image_url = t.image_url;
  category = t.category;
  refs = t.refs;
  size_bytes = t.size_bytes;
  published_at = t.published_at;
  updated_at = ts;
}

-- The index after the upsert: the trigger on insertion, or the one on update.
abbrev pub upsert_index : Torrent → ℤ → ℕ → Option TorrentRow → List FtsRow → List FtsRow
upsert_index t ts rowid none fts = torrents_ai (new_row t ts rowid) fts
upsert_index t ts rowid (some old) fts = torrents_au old (merge_row t ts old) fts

unfoldable pub upsert_row : Torrent → ℤ → Db → Db
upsert_row t ts db =
    let rowid = next_rowid db.torrents in
    record db {
      torrents = upsert torrent_key (new_row t ts rowid) (merge_row t ts) db.torrents;
      torrents_fts = upsert_index t ts rowid (find torrent_key t.id db.torrents) db.torrents_fts;
    }

-- DELETE FROM torrent_files WHERE torrent_id = ?
abbrev pub purge_files : Text → Db → Db
purge_files id db = record db {
  torrent_files = select (λ (f : FileRow). not (eq_text f.torrent_id id)) db.torrent_files;
}

-- INSERT INTO torrent_files …, which the foreign key refuses for an unknown torrent.
abbrev pub insert_file : Text → TorrentFile → Db → Result (Unit {0} × Db)
insert_file id f db =
    if has_torrent id db.torrents
    then ok (
      tt,
      record db {
        torrent_files =
            db.torrent_files
            ++ record { torrent_id = id; path = f.path; size_bytes = f.size_bytes } ∷ [];
      },
    )
    else err sql_error

unfoldable pub insert_files : Text → List TorrentFile → M (Unit {0})
insert_files id [] = pure tt
insert_files id (f ∷ fs) = do statement (insert_file id f); insert_files id fs

-- The statements between `Begin` and `Commit`.
unfoldable pub upsert_body : Torrent → M (Unit {0})
upsert_body t = do
  ts ← now
  statement (λ db. ok (tt, upsert_row t ts db))
  statement (λ db. ok (tt, purge_files t.id db))
  insert_files t.id t.files

unfoldable pub upsert_torrent : Torrent → M (Unit {0})
upsert_torrent t = transaction (upsert_body t)

-- The first result row of an empty answer is `sql.ErrNoRows`, turned into ErrNotFound.
abbrev pub or_not_found : {A : Type 0} → Option A → Result A
or_not_found none = err not_found
or_not_found (some a) = ok a

abbrev pub files_of : Text → List FileRow → List TorrentFile
files_of id rows =
    map (λ (f : FileRow). record { path = f.path; size_bytes = f.size_bytes })
      (select (λ (f : FileRow). eq_text f.torrent_id id) rows)

abbrev pub load_row : TorrentRow → List TorrentFile → Torrent
load_row r files = record {
  id = r.id;
  pubkey = r.pubkey;
  title = r.title;
  description = r.description;
  info_hash = r.info_hash;
  magnet = r.magnet;
  tracker = r.tracker;
  image_url = r.image_url;
  category = r.category;
  refs = r.refs;
  size_bytes = r.size_bytes;
  files = files;
  published_at = r.published_at;
}

unfoldable pub get_torrent : Text → M Torrent
get_torrent id = do
  r ← query (λ db. or_not_found (find torrent_key id db.torrents))
  files ← query (λ db. ok (files_of id db.torrent_files))
  pure (load_row r files)

pub unindex : List TorrentRow → List FtsRow → List FtsRow
unindex [] fts = fts
unindex (r ∷ rs) fts = unindex rs (torrents_ad r fts)

-- DELETE FROM torrents WHERE …: the trigger for each row, and ON DELETE CASCADE.
unfoldable pub delete_torrents : (TorrentRow → Bool) → Db → Db
unfolding unindex
delete_torrents doomed db =
    let gone = select doomed db.torrents in
    record db {
      torrents = select (λ r. not (doomed r)) db.torrents;
      torrents_fts = unindex gone db.torrents_fts;
      torrent_files =
          select (λ (f : FileRow). not (has_torrent f.torrent_id gone)) db.torrent_files;
      torrent_stats =
          select (λ (s : StatsRow). not (has_torrent s.torrent_id gone)) db.torrent_stats;
    }

-- `n, _ := res.RowsAffected(); if n == 0 { return ErrNotFound }`
abbrev pub require_rows : ℕ → Result (Unit {0})
require_rows n = if n == 0 then err not_found else ok tt

unfoldable pub delete_torrent : Text → M (Unit {0})
delete_torrent id = do
  n ←
      statement
        (λ db. ok (affected torrent_key id db.torrents, delete_torrents (λ r. eq_text r.id id) db))
  lift (require_rows n)

abbrev pub edit_row : Text → Text → ℤ → TorrentRow → TorrentRow
edit_row title category ts r = record r { title = title; category = category; updated_at = ts }

-- The trigger on update, for the one row that has the id.
abbrev pub edit_index : Text → Text → ℤ → Option TorrentRow → List FtsRow → List FtsRow
edit_index title category ts none fts = fts
edit_index title category ts (some old) fts = torrents_au old (edit_row title category ts old) fts

unfoldable pub edit_torrent : Text → Text → Text → ℤ → Db → Db
edit_torrent id title category ts db = record db {
  torrents = update torrent_key id (edit_row title category ts) db.torrents;
  torrents_fts = edit_index title category ts (find torrent_key id db.torrents) db.torrents_fts;
}

unfoldable pub update_torrent_fields : Text → Text → Text → M (Unit {0})
update_torrent_fields id title category = do
  ts ← now
  n ←
      statement
        (λ db. ok (affected torrent_key id db.torrents, edit_torrent id title category ts db))
  lift (require_rows n)

abbrev pub by_pubkey : Text → TorrentRow → Bool
by_pubkey pubkey r = eq_text r.pubkey pubkey

unfoldable pub count_by_pubkey : Text → M ℕ
count_by_pubkey pubkey = query (λ db. ok (length (select (by_pubkey pubkey) db.torrents)))

unfoldable pub delete_by_pubkey : Text → M ℕ
delete_by_pubkey pubkey = statement (λ db.
    ok (length (select (by_pubkey pubkey) db.torrents), delete_torrents (by_pubkey pubkey) db))
