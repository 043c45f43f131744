-- ===== src/Ingest/Scrape/Kept.antt =====
-- A round of scraping over the whole catalogue.
use revolution.Prelude.{
  ℕ, zero, suc, ◌≤◌, ◌≡◌, refl, ap, ◌∙◌, ℤ, pos, Text, text_eq, eq_text, eq_text_iff, Option, none,
  some, List, [], ◌∷◌, ◌++◌, take, drop, length, length-take, length-drop, All, arith,
  if◌then◌else◌, Bool-cases, inl, inr,
}
use revolution.Store.Table.{find, upsert, find-upsert, find-key, merged}
use revolution.Store.Exec.{World, Result, ok, err}
use revolution.Store.Exec.Keeps.{Keeps, Keeps-pure, Keeps-bind, Keeps-try, Keeps-query, Keeps-now}
use revolution.Store.Settings.{ScrapeTarget, torrents_due_for_scrape}
use revolution.Store.Consistent.{IsConsistent}
use revolution.Store.Consistent.Methods.{upsert_torrent_stats-Keeps}
use revolution.Scrape.{Stats, max_info_hashes_per_request}
use revolution.Ingest.Scrape.{
  Scraper, batches_in, batches, id_key, id_by_hash, counted, store_one, store_stats, store_answer,
  scrape_batches, scrape_groups, settle_targets, scrape_once,
}

store_one-Keeps :
    (at : ℤ) (s : Stats) (o : Option (Text × Text)) (n : ℕ)
    → Keeps IsConsistent (store_one at s o n)
store_one-Keeps at s none n = Keeps-pure n
store_one-Keeps at s (some (hash, id)) n =
    Keeps-try _ _ (upsert_torrent_stats-Keeps id (pos s.seeders) (pos s.leechers) at)
      (λ r. Keeps-pure (counted n r))

store_stats-Keeps :
    (at : ℤ) (ids : List (Text × Text)) (stats : List (Text × Stats)) (n : ℕ)
    → Keeps IsConsistent (store_stats at ids stats n)
unfolding store_stats
store_stats-Keeps at ids [] n = Keeps-pure n
store_stats-Keeps at ids ((hash, s) ∷ more) n =
    Keeps-bind _ _ (store_one-Keeps at s (find id_key hash ids) n)
      (λ m. store_stats-Keeps at ids more m)

module _ (sc : Scraper) where
  store_answer-Keeps :
      (at : ℤ) (batch : List ScrapeTarget) (o : Option (List (Text × Stats))) (n : ℕ)
      → Keeps IsConsistent (store_answer sc at batch o n)
  store_answer-Keeps at batch none n = Keeps-pure n
  store_answer-Keeps at batch (some stats) n = store_stats-Keeps at _ _ n

  scrape_batches-Keeps :
      (at : ℤ) (tracker : Text) (bs : List (List ScrapeTarget)) (n : ℕ)
      → Keeps IsConsistent (scrape_batches sc at tracker bs n)
  unfolding scrape_batches
  scrape_batches-Keeps at tracker [] n = Keeps-pure n
  scrape_batches-Keeps at tracker (b ∷ bs) n =
      Keeps-bind _ _ (store_answer-Keeps at b _ n) (λ m. scrape_batches-Keeps at tracker bs m)

  scrape_groups-Keeps :
      (at : ℤ) (gs : List (Text × List ScrapeTarget)) (n : ℕ)
      → Keeps IsConsistent (scrape_groups sc at gs n)
  unfolding scrape_groups
  scrape_groups-Keeps at [] n = Keeps-pure n
  scrape_groups-Keeps at ((tracker, group) ∷ gs) n =
      Keeps-bind _ _ (scrape_batches-Keeps at tracker (batches group) n)
        (λ m. scrape_groups-Keeps at gs m)

  settle_targets-Keeps : (r : Result (List ScrapeTarget)) → Keeps IsConsistent (settle_targets sc r)
  settle_targets-Keeps (ok []) = Keeps-pure 0
  settle_targets-Keeps (ok (t ∷ ts)) = Keeps-bind _ _ Keeps-now (λ at. scrape_groups-Keeps at _ 0)
  settle_targets-Keeps (err e) = Keeps-pure 0

  pub scrape_once-Keeps : (older_than : ℤ) → Keeps IsConsistent (scrape_once sc older_than)
  unfolding scrape_once torrents_due_for_scrape
  scrape_once-Keeps older_than = Keeps-try _ _ (Keeps-query _) settle_targets-Keeps

  -- `ScrapeOnce` keeps the catalogue consistent, whatever the trackers answer, in whatever order
  -- the maps are read, and whichever statements fail.
  pub scrape_once-IsConsistent :
      (older_than : ℤ) (w : World)
      → IsConsistent w.db
      → IsConsistent (scrape_once sc older_than w).1.db
  scrape_once-IsConsistent older_than = (scrape_once-Keeps older_than).at

-- No batch is larger than the protocol allows.
abbrev pub Small : List ScrapeTarget → Type 0
Small b = length b ≤ max_info_hashes_per_request

abbrev pub joined : List (List ScrapeTarget) → List ScrapeTarget
joined [] = []
joined (b ∷ bs) = b ++ joined bs

take-drop : (n : ℕ) (ts : List ScrapeTarget) → take n ts ++ drop n ts ≡ ts
take-drop zero ts = refl
take-drop (suc n) [] = refl
take-drop (suc n) (t ∷ ts) = ap (◌∷◌ t) (take-drop n ts)

batches_in-joined :
    (rounds : ℕ) (ts : List ScrapeTarget)
    → length ts ≤ rounds
    → (joined (batches_in rounds ts) ≡ ts) × All Small (batches_in rounds ts)
unfolding batches_in
batches_in-joined rounds [] h = (refl, tt)
batches_in-joined zero (t ∷ ts) h = absurd (omega arith)
batches_in-joined (suc rounds) (t ∷ ts) h =
    let rest = batches_in-joined rounds (drop 73 ts) (omega (arith, length-drop 73 ts)) in
    (
      ap (λ (us : List ScrapeTarget). t ∷ take 73 ts ++ us) rest.0 ∙ ap (◌∷◌ t) (take-drop 73 ts),
      (omega (arith, length-take 73 ts), rest.1),
    )

-- The batches of a group are the group again, in order, and none has more than 74 targets.
pub batches-joined :
    (group : List ScrapeTarget) → (joined (batches group) ≡ group) × All Small (batches group)
batches-joined group = batches_in-joined (length group) group (omega arith)

-- The last target of a batch with the hash.
abbrev pub last_with : Text → List ScrapeTarget → Option (Text × Text) → Option (Text × Text)
last_with hash [] before = before
last_with hash (t ∷ ts) before =
    last_with hash ts (if eq_text t.info_hash hash then some (hash, t.torrent_id) else before)

same_entry :
    (k id : Text) (o : Option (Text × Text))
    → ((p : Text × Text) → o ≡ some p → p.0 ≡ k)
    → merged id_key (k, id) (λ p. (p.0, id)) o ≡ (k, id)
same_entry k id none h = refl
same_entry k id (some p) h = ap (λ (j : Text). (j, id)) (h p refl)

find-enter :
    (hash k id : Text) (ids : List (Text × Text))
    → find id_key hash (upsert id_key (k, id) (λ p. (p.0, id)) ids)
      ≡ (if eq_text k hash then some (hash, id) else find id_key hash ids)
find-enter hash k id ids =
    find-upsert id_key (k, id) (λ (p : Text × Text). (p.0, id)) hash ids (λ p. refl)
    ∙ elim (Bool-cases (eq_text k hash)) [
      | inl same ↦ rw same (
          ap some (
            same_entry k id (find id_key k ids) (find-key id_key k ids)
            ∙ ap (λ (j : Text). (j, id)) ((eq_text_iff k hash).0 same)))
      | inr other ↦ rw other
    ]

-- A count that the tracker gives for a hash goes to one torrent of the batch, the last that has it.
pub id_by_hash-last :
    (hash : Text) (batch : List ScrapeTarget) (ids : List (Text × Text))
    → find id_key hash (id_by_hash batch ids) ≡ last_with hash batch (find id_key hash ids)
id_by_hash-last hash [] ids = refl
id_by_hash-last hash (t ∷ ts) ids =
    id_by_hash-last hash ts
      (upsert id_key (t.info_hash, t.torrent_id) (λ p. (p.0, t.torrent_id)) ids)
    ∙ ap (last_with hash ts) (find-enter hash t.info_hash t.torrent_id ids)
