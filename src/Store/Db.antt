-- ===== src/Store/Db.antt =====
-- internal/store/store.go, the schema: one record for each table, and the triggers of `torrents`.
-- A flag column holds 0 or 1 and is a Boolean here. `refs` holds the JSON of a list of strings and
-- is that list here.
use revolution.Prelude.{
  ℕ, suc, ℤ, Text, text_eq, Bool, true, false, ◌&&◌, none, some, List, [], ◌∷◌, ◌++◌, eq_text,
  if◌then◌else◌, ltb, ◌==◌,
}
use revolution.Store.Table.{find}

pub record RelayRow : Type 0 where
  pub url : Text
  pub enabled : Bool
  pub created_at : ℤ

pub record Followed : Type 0 where
  pub pubkey : Text
  pub alias : Text
  pub enabled : Bool
  pub last_synced_at : ℤ
  pub created_at : ℤ

pub record Profile : Type 0 where
  pub pubkey : Text
  pub name : Text
  pub display_name : Text
  pub picture : Text
  pub nip05 : Text
  pub updated_at : ℤ

pub record TorrentFile : Type 0 where
  pub path : Text
  pub size_bytes : ℤ

pub record Torrent : Type 0 where
  pub id : Text
  pub pubkey : Text
  pub title : Text
  pub description : Text
  pub info_hash : Text
  pub magnet : Text
  pub tracker : Text
  pub image_url : Text
  pub category : Text
  pub refs : List Text
  pub size_bytes : ℤ
  pub files : List TorrentFile
  pub published_at : ℤ

-- `rowid` is the key that SQLite adds, by which the index names a row.
pub record TorrentRow : Type 0 where
  pub rowid : ℕ
  pub id : Text
  pub pubkey : Text
  pub title : Text
  pub description : Text
  pub info_hash : Text
  pub magnet : Text
  pub tracker : Text
  pub image_url : Text
  pub category : Text
  pub refs : List Text
  pub size_bytes : ℤ
  pub published_at : ℤ
  pub created_at : ℤ
  pub updated_at : ℤ

pub record FileRow : Type 0 where
  pub torrent_id : Text
  pub path : Text
  pub size_bytes : ℤ

pub record StatsRow : Type 0 where
  pub torrent_id : Text
  pub seeders : ℤ
  pub leechers : ℤ
  pub scraped_at : ℤ

pub record FtsRow : Type 0 where
  pub rowid : ℕ
  pub title : Text
  pub description : Text
  pub category : Text

pub record SettingRow : Type 0 where
  pub key : Text
  pub value : Text

pub record Db : Type 0 where
  pub relays : List RelayRow
  pub followed : List Followed
  pub profiles : List Profile
  pub torrents : List TorrentRow
  pub torrent_files : List FileRow
  pub torrent_stats : List StatsRow
  pub torrents_fts : List FtsRow
  pub settings : List SettingRow

-- The tables right after `migrate` on a new file.
abbrev pub empty_db : Db
empty_db = record {
  relays = [];
  followed = [];
  profiles = [];
  torrents = [];
  torrent_files = [];
  torrent_stats = [];
  torrents_fts = [];
  settings = [];
}

-- What the index holds for a row.
abbrev pub indexed : TorrentRow → FtsRow
indexed r = record {
  rowid = r.rowid;
  title = r.title;
  description = r.description;
  category = r.category;
}

unfoldable pub eq_fts : FtsRow → FtsRow → Bool
eq_fts a b =
    a.rowid == b.rowid
    && eq_text a.title b.title
    && eq_text a.description b.description
    && eq_text a.category b.category

-- The index command 'delete' takes one entry with these values out.
abbrev pub erase_fts : FtsRow → List FtsRow → List FtsRow
erase_fts x [] = []
erase_fts x (y ∷ ys) = if eq_fts y x then ys else y ∷ erase_fts x ys

abbrev pub torrents_ai : TorrentRow → List FtsRow → List FtsRow
torrents_ai new fts = fts ++ indexed new ∷ []

abbrev pub torrents_ad : TorrentRow → List FtsRow → List FtsRow
torrents_ad old fts = erase_fts (indexed old) fts

abbrev pub torrents_au : TorrentRow → TorrentRow → List FtsRow → List FtsRow
torrents_au old new fts = torrents_ai new (torrents_ad old fts)

-- The `rowid` of an inserted row: one more than the largest.
abbrev pub next_rowid : List TorrentRow → ℕ
next_rowid [] = 1
next_rowid (r ∷ rs) = if ltb r.rowid (next_rowid rs) then next_rowid rs else suc r.rowid

-- REFERENCES torrents(id): the row that a `torrent_id` names.
abbrev pub has_torrent : Text → List TorrentRow → Bool
has_torrent id rows = elim (find (λ (r : TorrentRow). r.id) id rows) [
  | none ↦ false
  | some _ ↦ true
]
