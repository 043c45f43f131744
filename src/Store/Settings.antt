-- ===== src/Store/Settings.antt =====
-- internal/store/settings.go, internal/store/stats.go
pub mod Maintenance
pub mod Due
use revolution.Prelude.{
  ℤ, Text, text_eq, eq_text, codes, Bool, true, false, not, ◌&&◌, ◌||◌, Option, none, some, List,
  [], ◌∷◌, lt_int, is_empty, if◌then◌else◌,
}
use revolution.Store.Table.{find, upsert}
use revolution.Store.Db.{Db, SettingRow, StatsRow, TorrentRow, has_torrent}
use revolution.Store.Exec.{Result, ok, err, sql_error, M, pure, statement, query, ◌>>=◌, try}
use revolution.Store.Torrents.{or_not_found}

abbrev pub setting_key : SettingRow → Text
setting_key s = s.key

abbrev pub setting_maintenance : Text
setting_maintenance = codes "maintenance"

abbrev pub value_of : Option SettingRow → Option Text
value_of none = none
value_of (some s) = some s.value

unfoldable pub get_setting : Text → M Text
get_setting key = query (λ db. or_not_found (value_of (find setting_key key db.settings)))

abbrev pub put_setting : Text → Text → Db → Db
put_setting key value db = record db {
  settings =
      upsert setting_key (record { key = key; value = value }) (λ s. record s { value = value })
        db.settings;
}

unfoldable pub set_setting : Text → Text → M (Unit {0})
set_setting key value = statement (λ db. ok (tt, put_setting key value db))

abbrev pub is_one : Result Text → Bool
is_one (ok v) = eq_text v (codes "1")
is_one (err _) = false

unfoldable pub is_maintenance : M Bool
unfolding get_setting
is_maintenance = try (get_setting setting_maintenance) (λ r. pure (is_one r))

unfoldable pub set_maintenance : Bool → M (Unit {0})
unfolding set_setting
set_maintenance on = set_setting setting_maintenance (if on then codes "1" else codes "0")

pub record TorrentStats : Type 0 where
  pub seeders : ℤ
  pub leechers : ℤ
  pub scraped_at : ℤ

abbrev pub stats_key : StatsRow → Text
stats_key s = s.torrent_id

-- The row that is inserted, or whose counts replace those of the row that is there.
abbrev pub upsert_stats : StatsRow → Db → Result (Unit {0} × Db)
upsert_stats s db =
    if has_torrent s.torrent_id db.torrents
    then ok (
      tt,
      record db {
        torrent_stats =
            upsert stats_key s
              (λ old. record old {
                seeders = s.seeders;
                leechers = s.leechers;
                scraped_at = s.scraped_at;
              })
              db.torrent_stats;
      },
    )
    else err sql_error

unfoldable pub upsert_torrent_stats : Text → ℤ → ℤ → ℤ → M (Unit {0})
upsert_torrent_stats id seeders leechers scraped_at = statement (
    upsert_stats
      (record { torrent_id = id; seeders = seeders; leechers = leechers; scraped_at = scraped_at }))

abbrev stats_of : Option StatsRow → Option TorrentStats
stats_of none = none
stats_of (some s) =
    some (record { seeders = s.seeders; leechers = s.leechers; scraped_at = s.scraped_at })

unfoldable pub get_torrent_stats : Text → M TorrentStats
get_torrent_stats id = query (λ db. or_not_found (stats_of (find stats_key id db.torrent_stats)))

pub record ScrapeTarget : Type 0 where
  pub torrent_id : Text
  pub info_hash : Text
  pub tracker : Text

-- ts.scraped_at IS NULL OR ts.scraped_at < ?
abbrev pub stale : ℤ → Option StatsRow → Bool
stale older_than none = true
stale older_than (some s) = lt_int s.scraped_at older_than

abbrev pub is_due : ℤ → List StatsRow → TorrentRow → Bool
is_due older_than stats r = not (is_empty r.tracker) && stale older_than (find stats_key r.id stats)

abbrev pub targets : ℤ → List StatsRow → List TorrentRow → List ScrapeTarget
targets older_than stats [] = []
targets older_than stats (r ∷ rs) =
    let rest = targets older_than stats rs in
    if is_due older_than stats r
    then record { torrent_id = r.id; info_hash = r.info_hash; tracker = r.tracker } ∷ rest
    else rest

unfoldable pub torrents_due_for_scrape : ℤ → M (List ScrapeTarget)
torrents_due_for_scrape older_than =
    query (λ db. ok (targets older_than db.torrent_stats db.torrents))
