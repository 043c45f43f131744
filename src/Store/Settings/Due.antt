-- ===== src/Store/Settings/Due.antt =====
-- Which torrents are due for a scrape after `UpsertTorrentStats` (internal/store/stats.go).
use revolution.Prelude.{
  ◌≡◌, refl, sym, ap, ◌∙◌, ℤ, Text, text_eq, eq_text, eq_text_comm, true, false, not, Option, none,
  some, List, [], ◌∷◌, arith, if◌then◌else◌, select, lt_int, Bool-cases, inl, inr,
}
use revolution.Store.Table.{find, upsert, find-upsert, merged}
use revolution.Store.Db.{TorrentRow, StatsRow, has_torrent}
use revolution.Store.Exec.{ok, World, advance, statement, query}
use revolution.Store.Torrents.Upsert.{NoFault}
use revolution.Store.Settings.{
  stats_key, ScrapeTarget, stale, targets, torrents_due_for_scrape, upsert_torrent_stats,
}

-- The targets without those of an id.
abbrev pub without : Text → List ScrapeTarget → List ScrapeTarget
without id = select (λ (t : ScrapeTarget). not (eq_text id t.torrent_id))

abbrev replace_counts : StatsRow → StatsRow → StatsRow
replace_counts s old = record old {
  seeders = s.seeders;
  leechers = s.leechers;
  scraped_at = s.scraped_at;
}

module _ (s : StatsRow) (older_than : ℤ) (recent : lt_int s.scraped_at older_than ≡ false) where
  stale-merged :
      (o : Option StatsRow)
      → stale older_than (some (merged stats_key s (replace_counts s) o)) ≡ false
  stale-merged none = recent
  stale-merged (some old) = recent

  stale-upsert :
      (id : Text) (stats : List StatsRow)
      → stale older_than (find stats_key id (upsert stats_key s (replace_counts s) stats))
        ≡ (if eq_text s.torrent_id id then false else stale older_than (find stats_key id stats))
  stale-upsert id stats =
      ap (stale older_than) (find-upsert stats_key s (replace_counts s) id stats (λ x. refl))
      ∙ elim (Bool-cases (eq_text s.torrent_id id)) [
        | inl same ↦ rw same (stale-merged (find stats_key s.torrent_id stats))
        | inr other ↦ rw other refl
      ]

  targets-upsert :
      (stats : List StatsRow) (rows : List TorrentRow)
      → targets older_than (upsert stats_key s (replace_counts s) stats) rows
        ≡ without s.torrent_id (targets older_than stats rows)
  targets-upsert stats [] = refl
  targets-upsert stats (r ∷ rs) = ground (arith, stale-upsert r.id stats, targets-upsert stats rs)

targets-absent :
    (older_than : ℤ) (id : Text) (stats : List StatsRow) (rows : List TorrentRow)
    → has_torrent id rows ≡ false
    → without id (targets older_than stats rows) ≡ targets older_than stats rows
targets-absent older_than id stats [] h = refl
targets-absent older_than id stats (r ∷ rs) h =
    ground (arith, h, eq_text_comm id r.id, targets-absent older_than id stats rs)

due_now :
    (older_than : ℤ) (w : World)
    → NoFault w
    → (torrents_due_for_scrape older_than w).0
      ≡ ok (targets older_than w.db.torrent_stats w.db.torrents)
unfolding torrents_due_for_scrape query
due_now older_than w h = rw (h w.step) refl

module _ (s : StatsRow) (w : World) (h : NoFault w) where
  abbrev counted_world : World
  counted_world = record (advance w) {
    db = record w.db { torrent_stats = upsert stats_key s (replace_counts s) w.db.torrent_stats };
  }

  stored_counts :
      has_torrent s.torrent_id w.db.torrents ≡ true
      → (upsert_torrent_stats s.torrent_id s.seeders s.leechers s.scraped_at w).1 ≡ counted_world
  unfolding upsert_torrent_stats statement
  stored_counts known = rw (h w.step, known) refl

  refused_counts :
      has_torrent s.torrent_id w.db.torrents ≡ false
      → (upsert_torrent_stats s.torrent_id s.seeders s.leechers s.scraped_at w).1 ≡ advance w
  unfolding upsert_torrent_stats statement
  refused_counts missing = rw (h w.step, missing) refl

-- With no failing statement, what is due for a scrape after the counts of a torrent are stored with a time that is
-- not before the limit: what was due, in the same order, without this torrent; an id that is not in the catalogue
-- changes nothing.
pub torrents_due-upsert_torrent_stats :
    (id : Text) (seeders leechers at older_than : ℤ) (w : World) (due : List ScrapeTarget)
    → NoFault w
    → lt_int at older_than ≡ false
    → (torrents_due_for_scrape older_than w).0 ≡ ok due
    → (torrents_due_for_scrape older_than (upsert_torrent_stats id seeders leechers at w).1).0
      ≡ ok (without id due)
torrents_due-upsert_torrent_stats id seeders leechers at older_than w due h recent before =
    let s : StatsRow = record {
      torrent_id = id;
      seeders = seeders;
      leechers = leechers;
      scraped_at = at;
    } in
    let was : targets older_than w.db.torrent_stats w.db.torrents ≡ due =
      cc (due_now older_than w h, before) in
    elim (Bool-cases (has_torrent id w.db.torrents)) [
      | inl known ↦
          ap (λ v. (torrents_due_for_scrape older_than v).0) (stored_counts s w h known)
          ∙ due_now older_than (counted_world s w h) h
          ∙ ap ok (targets-upsert s older_than recent w.db.torrent_stats w.db.torrents)
          ∙ ap (λ ts. ok (without id ts)) was
      | inr missing ↦
          ap (λ v. (torrents_due_for_scrape older_than v).0) (refused_counts s w h missing)
          ∙ due_now older_than (advance w) h
          ∙ ap ok (sym (targets-absent older_than id w.db.torrent_stats w.db.torrents missing))
          ∙ ap (λ ts. ok (without id ts)) was
    ]
