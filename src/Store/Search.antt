-- ===== src/Store/Search.antt =====
-- internal/store/torrents.go, `Search`. What FTS5 matches is a parameter, and so is the order of
-- torrents of one time, which SQLite leaves open and which may differ from one query to the next.
pub mod Hits
pub mod Pages
use mathlib.Core.List.{Permᴰ}
use revolution.Prelude.{
  ℕ, ℤ, pos, negsuc, Text, text_eq, is_empty, Bool, true, false, not, ◌||◌, ◌==◌, Option, none,
  some, List, [], ◌∷◌, ◌++◌, map, lt_int, le_int, if◌then◌else◌, select, take, drop,
}
use revolution.Store.Table.{find}
use revolution.Store.Order.{sort_by}
use revolution.Store.Db.{Db, TorrentRow, FtsRow, StatsRow, Profile}
use revolution.Store.Exec.{ok, M, query}
use revolution.Store.Accounts.{profile_key}
use revolution.Store.Settings.{stats_key}
use revolution.Store.FtsQuery.{fts_query}

pub record TorrentSummary : Type 0 where
  pub id : Text
  pub title : Text
  pub category : Text
  pub size_bytes : ℤ
  pub published_at : ℤ
  pub pubkey : Text
  pub publisher_name : Text
  pub has_stats : Bool
  pub seeders : ℤ
  pub leechers : ℤ

-- `if limit <= 0 || limit > 100 { limit = 40 }`
abbrev pub page_limit : ℤ → ℕ
page_limit (pos n) = if n == 0 || lt_int (pos 100) (pos n) then 40 else n
page_limit (negsuc n) = 40

-- OFFSET: a negative one is none.
abbrev pub page_offset : ℤ → ℕ
page_offset (pos n) = n
page_offset (negsuc n) = 0

-- COALESCE(NULLIF(p.display_name, ''), NULLIF(p.name, ''), '')
abbrev pub publisher_name : Option Profile → Text
publisher_name none = []
publisher_name (some p) = if is_empty p.display_name then p.name else p.display_name

-- The two columns of `torrent_stats`, or NULL, which is scanned as 0.
abbrev pub seeders_of : Option StatsRow → ℤ
seeders_of none = pos 0
seeders_of (some s) = s.seeders

abbrev pub leechers_of : Option StatsRow → ℤ
leechers_of none = pos 0
leechers_of (some s) = s.leechers

abbrev pub is_known : Option StatsRow → Bool
is_known none = false
is_known (some s) = true

-- The result row of a torrent, after the two LEFT JOINs.
abbrev pub summary : Db → TorrentRow → TorrentSummary
summary db r =
    let stats = find stats_key r.id db.torrent_stats in
    record {
      id = r.id;
      title = r.title;
      category = r.category;
      size_bytes = r.size_bytes;
      published_at = r.published_at;
      pubkey = r.pubkey;
      publisher_name = publisher_name (find profile_key r.pubkey db.profiles);
      has_stats = is_known stats;
      seeders = seeders_of stats;
      leechers = leechers_of stats;
    }

-- ORDER BY t.published_at DESC
abbrev pub newer : TorrentRow → TorrentRow → Bool
newer a b = lt_int b.published_at a.published_at

-- The order in which the rows of a query with some LIMIT and OFFSET come to ORDER BY, any at all. Since `sort_by` leaves
-- rows that compare equal in the order in which they come, every order that SQLite may answer in is that of some scan.
pub record Scan : Type 0 where
  pub visit : ℤ → ℤ → List TorrentRow → List TorrentRow
  pub permutes : (limit offset : ℤ) (rows : List TorrentRow) → Permᴰ (visit limit offset rows) rows

module _ (matches : Text → FtsRow → Bool) where
  -- FROM torrents_fts f JOIN torrents t ON t.rowid = f.rowid … WHERE torrents_fts MATCH ?
  unfoldable pub joined : Text → List FtsRow → List TorrentRow → List TorrentRow
  joined q [] rows = []
  joined q (f ∷ fs) rows =
      let rest = joined q fs rows in
      if matches q f then select (λ (r : TorrentRow). r.rowid == f.rowid) rows ++ rest else rest

  abbrev pub candidates : Text → Db → List TorrentRow
  candidates [] db = db.torrents
  candidates (c ∷ cs) db = joined (fts_query (c ∷ cs)) db.torrents_fts db.torrents

  module _ (scan : Scan) where
    abbrev pub page : Text → ℤ → ℤ → Db → List TorrentRow
    page q limit offset db =
        take (page_limit limit)
          (drop (page_offset offset) (sort_by newer (scan.visit limit offset (candidates q db))))

    unfoldable pub search : Text → ℤ → ℤ → M (List TorrentSummary)
    unfolding joined
    search q limit offset = query (λ db. ok (map (summary db) (page q limit offset db)))
