-- ===== src/Store/Consistent.antt =====
-- Consistency of the tables of internal/store, statement by statement.
pub mod Methods
pub mod Calls
pub mod Catalogue
use revolution.Prelude.{
  ℕ, ◌+◌, ◌≡◌, refl, ℤ, Text, text_eq, nat_eq, eq_text, eq_text_iff, Bool, true, false, not, ◌||◌,
  Option, none, some, List, [], ◌∷◌, ◌++◌, map, arith, if◌then◌else◌, select, All, All-append,
  All-select, lt_int, Bool-cases, inl, inr,
}
use revolution.Store.Table.{find, upsert, update, delete, IsUnique}
use revolution.Store.Table.Unique.{IsUnique-select, IsUnique-upsert, IsUnique-update}
use revolution.Store.Db.{
  Db, Torrent, TorrentFile, TorrentRow, FileRow, StatsRow, RelayRow, Followed, Profile, SettingRow,
  indexed, empty_db, has_torrent, next_rowid,
}
use revolution.Store.Exec.{Result, ok, err, sql_error}
use revolution.Store.Exec.Keeps.{Leaves}
use revolution.Store.Torrents.{
  torrent_key, new_row, merge_row, upsert_row, purge_files, insert_file, delete_torrents, edit_row,
  edit_torrent,
}
use revolution.Store.Torrents.Index.{SameEntries, upsert-synced, edit-synced, delete-synced}
use revolution.Store.Torrents.References.{
  rowid_key, rowids-upsert, rowids-update, Owned, cascade-Owned, Owned-mono, Owned-upsert,
  Owned-update,
}
use revolution.Store.Relays.{relay_key}
use revolution.Store.Accounts.{followed_key, profile_key, merge_profile}
use revolution.Store.Settings.{setting_key, stats_key, upsert_stats}

abbrev pub file_owner : FileRow → Text
file_owner f = f.torrent_id

abbrev pub FilesOwned : List TorrentRow → List FileRow → Type 0
FilesOwned rows = All (λ (f : FileRow). Owned rows (file_owner f))

abbrev pub StatsOwned : List TorrentRow → List StatsRow → Type 0
StatsOwned rows = All (λ (s : StatsRow). Owned rows (stats_key s))

-- The primary keys of the tables that `torrents` has nothing to do with.
abbrev pub UniqueKeys : Db → Type 0
UniqueKeys db =
    IsUnique relay_key db.relays
    × IsUnique followed_key db.followed
    × IsUnique profile_key db.profiles
    × IsUnique setting_key db.settings

-- Keys are unique, the search index says what the rows say, and no file or count is orphaned.
pub record IsConsistent (db : Db) : Type 0 where
  pub unique_ids : IsUnique torrent_key db.torrents
  pub unique_rowids : IsUnique rowid_key db.torrents
  pub synced : SameEntries db.torrents_fts (map indexed db.torrents)
  pub files_owned : FilesOwned db.torrents db.torrent_files
  pub stats_owned : StatsOwned db.torrents db.torrent_stats
  pub unique_stats : IsUnique stats_key db.torrent_stats
  pub unique_keys : UniqueKeys db

pub empty_db-IsConsistent : IsConsistent empty_db
empty_db-IsConsistent = record {
  unique_ids = tt;
  unique_rowids = tt;
  synced = λ e. refl;
  files_owned = tt;
  stats_owned = tt;
  unique_stats = tt;
  unique_keys = (tt, tt, tt, tt);
}

module _ (db : Db) (c : IsConsistent db) where
  pub upsert_row-IsConsistent : (t : Torrent) (ts : ℤ) → IsConsistent (upsert_row t ts db)
  unfolding upsert_row
  upsert_row-IsConsistent t ts =
      let n = next_rowid db.torrents in
      let after = upsert torrent_key (new_row t ts n) (merge_row t ts) db.torrents in
      record {
        unique_ids =
            IsUnique-upsert torrent_key (new_row t ts n) (merge_row t ts) db.torrents (λ x. refl)
              c.unique_ids;
        unique_rowids = rowids-upsert t ts db.torrents c.unique_rowids;
        synced = upsert-synced t ts db c.synced;
        files_owned =
            Owned-mono file_owner db.torrents after db.torrent_files
              (Owned-upsert t ts n db.torrents) c.files_owned;
        stats_owned =
            Owned-mono stats_key db.torrents after db.torrent_stats
              (Owned-upsert t ts n db.torrents) c.stats_owned;
        unique_stats = c.unique_stats;
        unique_keys = c.unique_keys;
      }

  pub edit_torrent-IsConsistent :
      (id title category : Text) (ts : ℤ) → IsConsistent (edit_torrent id title category ts db)
  unfolding edit_torrent
  edit_torrent-IsConsistent id title category ts =
      let after = update torrent_key id (edit_row title category ts) db.torrents in
      record {
        unique_ids =
            IsUnique-update torrent_key id (edit_row title category ts) db.torrents (λ x. refl)
              c.unique_ids;
        unique_rowids =
            rowids-update id (edit_row title category ts) (λ x. refl) db.torrents c.unique_rowids;
        synced = edit-synced id title category ts db c.unique_ids c.synced;
        files_owned =
            Owned-mono file_owner db.torrents after db.torrent_files
              (Owned-update id title category ts db.torrents) c.files_owned;
        stats_owned =
            Owned-mono stats_key db.torrents after db.torrent_stats
              (Owned-update id title category ts db.torrents) c.stats_owned;
        unique_stats = c.unique_stats;
        unique_keys = c.unique_keys;
      }

  pub delete_torrents-IsConsistent :
      (doomed : TorrentRow → Bool) → IsConsistent (delete_torrents doomed db)
  unfolding delete_torrents
  delete_torrents-IsConsistent doomed = record {
    unique_ids = IsUnique-select torrent_key (λ r. not (doomed r)) db.torrents c.unique_ids;
    unique_rowids = IsUnique-select rowid_key (λ r. not (doomed r)) db.torrents c.unique_rowids;
    synced = delete-synced doomed db c.synced;
    files_owned = cascade-Owned file_owner doomed db.torrents db.torrent_files c.files_owned;
    stats_owned = cascade-Owned stats_key doomed db.torrents db.torrent_stats c.stats_owned;
    unique_stats = IsUnique-select stats_key _ db.torrent_stats c.unique_stats;
    unique_keys = c.unique_keys;
  }

  pub purge_files-IsConsistent : (id : Text) → IsConsistent (purge_files id db)
  purge_files-IsConsistent id = record {
    unique_ids = c.unique_ids;
    unique_rowids = c.unique_rowids;
    synced = c.synced;
    files_owned = All-select _ _ db.torrent_files c.files_owned;
    stats_owned = c.stats_owned;
    unique_stats = c.unique_stats;
    unique_keys = c.unique_keys;
  }

  -- A file is written for a torrent that is there, or the statement fails.
  pub insert_file-IsConsistent :
      (id : Text) (f : TorrentFile) → Leaves IsConsistent (insert_file id f db)
  insert_file-IsConsistent id f = elim (Bool-cases (has_torrent id db.torrents)) [
    | inl known ↦ rw known (record {
      unique_ids = c.unique_ids;
      unique_rowids = c.unique_rowids;
      synced = c.synced;
      files_owned = All-append _ db.torrent_files _ c.files_owned (known, tt);
      stats_owned = c.stats_owned;
      unique_stats = c.unique_stats;
      unique_keys = c.unique_keys;
    })
    | inr missing ↦ rw missing tt
  ]

  All-upsert_stats :
      (s : StatsRow) (m : StatsRow → StatsRow) (xs : List StatsRow)
      → ((x : StatsRow) → (m x).torrent_id ≡ x.torrent_id)
      → Owned db.torrents s.torrent_id
      → StatsOwned db.torrents xs
      → StatsOwned db.torrents (upsert stats_key s m xs)
  All-upsert_stats s m [] same h a = (h, tt)
  All-upsert_stats s m (x ∷ xs) same h a =
      ground (arith, same x, All-upsert_stats s m xs same h a.1)

  pub upsert_stats-IsConsistent : (s : StatsRow) → Leaves IsConsistent (upsert_stats s db)
  upsert_stats-IsConsistent s = elim (Bool-cases (has_torrent s.torrent_id db.torrents)) [
    | inl known ↦ rw known (record {
      unique_ids = c.unique_ids;
      unique_rowids = c.unique_rowids;
      synced = c.synced;
      files_owned = c.files_owned;
      stats_owned = All-upsert_stats s _ db.torrent_stats (λ x. refl) known c.stats_owned;
      unique_stats = IsUnique-upsert stats_key s _ db.torrent_stats (λ x. refl) c.unique_stats;
      unique_keys = c.unique_keys;
    })
    | inr missing ↦ rw missing tt
  ]

  -- The statements on the other tables.
  pub with_keys :
      (relays : List RelayRow) (followed : List Followed) (profiles : List Profile)
      (settings : List SettingRow)
      → IsUnique relay_key relays
        × IsUnique followed_key followed
        × IsUnique profile_key profiles
        × IsUnique setting_key settings
      → IsConsistent (record db {
        relays = relays;
        followed = followed;
        profiles = profiles;
        settings = settings;
      })
  with_keys relays followed profiles settings u = record {
    unique_ids = c.unique_ids;
    unique_rowids = c.unique_rowids;
    synced = c.synced;
    files_owned = c.files_owned;
    stats_owned = c.stats_owned;
    unique_stats = c.unique_stats;
    unique_keys = u;
  }
