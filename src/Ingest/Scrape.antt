-- ===== src/Ingest/Scrape.antt =====
-- internal/ingest/scrape.go: the counts of the torrents that are due. `Scraper` is what the package
-- takes from internal/scrape; `groups_order` and `stats_order` are the orders in which `range` runs
-- over the two maps.
pub mod Kept
use revolution.Prelude.{
  ℕ, zero, suc, ◌+◌, ℤ, pos, Text, text_eq, Option, none, some, List, [], ◌∷◌, ◌++◌, map, take,
  drop, length,
}
use revolution.Store.Table.{find, upsert}
use revolution.Store.Exec.{Result, ok, err, M, pure, ◌>>=◌, ◌>>◌, now, try}
use revolution.Store.Settings.{ScrapeTarget, torrents_due_for_scrape, upsert_torrent_stats}
use revolution.Scrape.{Stats, max_info_hashes_per_request}

pub record Scraper : Type 0 where
  pub scrape : Text → List Text → Option (List (Text × Stats))
  pub groups_order : List (Text × List ScrapeTarget) → List (Text × List ScrapeTarget)
  pub stats_order : List (Text × Stats) → List (Text × Stats)

abbrev pub group_key : Text × List ScrapeTarget → Text
group_key g = g.0

-- byTracker[t.Tracker] = append(byTracker[t.Tracker], t)
abbrev pub by_tracker :
    List ScrapeTarget → List (Text × List ScrapeTarget) → List (Text × List ScrapeTarget)
by_tracker [] groups = groups
by_tracker (t ∷ ts) groups =
    by_tracker ts (upsert group_key (t.tracker, t ∷ []) (λ g. (g.0, g.1 ++ t ∷ [])) groups)

-- The batches of a group. Each takes a target at least, so that as many rounds as there are targets
-- are enough.
unfoldable pub batches_in : ℕ → List ScrapeTarget → List (List ScrapeTarget)
batches_in rounds [] = []
batches_in zero (t ∷ ts) = []
batches_in (suc rounds) (t ∷ ts) =
    take max_info_hashes_per_request (t ∷ ts)
    ∷ batches_in rounds (drop max_info_hashes_per_request (t ∷ ts))

abbrev pub batches : List ScrapeTarget → List (List ScrapeTarget)
batches group = batches_in (length group) group

abbrev pub id_key : Text × Text → Text
id_key p = p.0

-- torrentIDByHash[t.InfoHash] = t.TorrentID
abbrev pub id_by_hash : List ScrapeTarget → List (Text × Text) → List (Text × Text)
id_by_hash [] ids = ids
id_by_hash (t ∷ ts) ids =
    id_by_hash ts (upsert id_key (t.info_hash, t.torrent_id) (λ p. (p.0, t.torrent_id)) ids)

-- A count is stored, or its error is logged; either way the loop goes on.
abbrev pub counted : ℕ → Result (Unit {0}) → ℕ
counted n (ok u) = n + 1
counted n (err e) = n

abbrev pub store_one : ℤ → Stats → Option (Text × Text) → ℕ → M ℕ
store_one at s none n = pure n
store_one at s (some (hash, id)) n =
    try (upsert_torrent_stats id (pos s.seeders) (pos s.leechers) at) (λ r. pure (counted n r))

unfoldable pub store_stats : ℤ → List (Text × Text) → List (Text × Stats) → ℕ → M ℕ
store_stats at ids [] n = pure n
store_stats at ids ((hash, s) ∷ more) n = do
  m ← store_one at s (find id_key hash ids) n
  store_stats at ids more m

module _ (sc : Scraper) where
  abbrev pub store_answer : ℤ → List ScrapeTarget → Option (List (Text × Stats)) → ℕ → M ℕ
  store_answer at batch none n = pure n
  store_answer at batch (some stats) n =
      store_stats at (id_by_hash batch []) (sc.stats_order stats) n

  unfoldable pub scrape_batches : ℤ → Text → List (List ScrapeTarget) → ℕ → M ℕ
  scrape_batches at tracker [] n = pure n
  scrape_batches at tracker (batch ∷ more) n = do
    m ← store_answer at batch (sc.scrape tracker (map (λ (t : ScrapeTarget). t.info_hash) batch)) n
    scrape_batches at tracker more m

  unfoldable pub scrape_groups : ℤ → List (Text × List ScrapeTarget) → ℕ → M ℕ
  scrape_groups at [] n = pure n
  scrape_groups at ((tracker, group) ∷ more) n = do
    m ← scrape_batches at tracker (batches group) n
    scrape_groups at more m

  abbrev pub scrape_targets : List ScrapeTarget → M ℕ
  scrape_targets [] = pure 0
  scrape_targets (t ∷ ts) = do
    at ← now
    scrape_groups at (sc.groups_order (by_tracker (t ∷ ts) [])) 0

  abbrev pub settle_targets : Result (List ScrapeTarget) → M ℕ
  settle_targets (ok ts) = scrape_targets ts
  settle_targets (err e) = pure 0

  -- The result is the number that is logged; `older_than` is `time.Now().Add(-maxAge).Unix()`.
  unfoldable pub scrape_once : ℤ → M ℕ
  scrape_once older_than = try (torrents_due_for_scrape older_than) settle_targets
