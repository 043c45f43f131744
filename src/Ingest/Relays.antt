-- ===== src/Ingest/Relays.antt =====
-- The `Client` of internal/ingest is the one of internal/nostr, on a relay pool.
use revolution.Prelude.{
  ℕ, ◌≡◌, refl, subst, ap, Text, text_eq, eq_text, eq_text_iff, true, List, [], ◌∷◌, ◌⊎◌, inl, inr,
  All, Bool-cases,
}
use revolution.Store.Db.{Db, Torrent, Followed}
use revolution.Store.Exec.{Error, Result, err, raise, no_relay, World}
use revolution.Nostr.External.{External, IsDocumented}
use revolution.Nostr.Tags.{Parse, parsed}
use revolution.Nostr.Client.{Pool, fetch_torrents, fetch_profiles, torrent_filter}
use revolution.Nostr.Client.Fetched.{AreFetched, fetch_torrents-AreFetched}
use revolution.Ingest.Sync.{Client, sync_user}
use revolution.Ingest.Sync.Total.{sync_user_total}
use revolution.Store.Torrents.Upsert.{NoFault}
use revolution.Nostr.Nip35.{Event}
use revolution.Nostr.Client.Lossless.{sent, has_id, IsGood, fetch_torrents-has_id}
use revolution.Ingest.Sync.Complete.{Has, HasAll, StoredOrUnmoved, sync_user-StoredOrUnmoved}

-- A panic would end the program: there is nothing after it.
abbrev pub torrents_or_nil : Parse (List Torrent) → List Torrent
torrents_or_nil (parsed ts) = ts
torrents_or_nil _ = []

abbrev pub relay_client : External → Pool → Client
relay_client x pool = record {
  fetch_torrents =
      λ relays authors since. torrents_or_nil (fetch_torrents x pool relays authors since);
  fetch_profiles = fetch_profiles pool;
}

HasAll-has_id :
    (i : Text) (ts : List Torrent) (db : Db) → has_id i ts ≡ true → HasAll ts db → Has i db
HasAll-has_id i [] db there h = cc
HasAll-has_id i (t ∷ ts) db there h = elim (Bool-cases (eq_text t.id i)) [
  | inl same ↦ subst (λ (k : Text). Has k db) ((eq_text_iff t.id i).0 same) h.0
  | inr other ↦ HasAll-has_id i ts db (rw other at there) h.1
]

module _ (x : External) (pool : Pool) (relays : List Text) (f : Followed) (w : World) where
  -- What the relays send for the account, from its cursor on.
  abbrev pub events : List Event
  events = pool.fetch_many relays (torrent_filter (f.pubkey ∷ []) f.last_synced_at)

  -- Every id all of whose events are signed and torrents is in the catalogue, or the turn failed for a reason and left
  -- the cursors.
  abbrev pub CaughtUpOr : Result ℕ × World → Type 0
  CaughtUpOr r =
      ((i : Text) → sent i events ≡ true → All (IsGood x pool i) events → Has i r.1.db)
      ⊎ (((e : Error) × (r.0 ≡ err e))
          × (r.1.db.followed ≡ w.db.followed)
          × ((relays ≡ []) ⊎ (NoFault w → ⊥)))

caught_up :
    (x : External) (pool : Pool) (doc : IsDocumented x) (relays : List Text) (f : Followed)
    (w : World) (ts : List Torrent)
    → fetch_torrents x pool relays (f.pubkey ∷ []) f.last_synced_at ≡ parsed ts
    → StoredOrUnmoved ts w.db.followed (sync_user (relay_client x pool) relays f w)
    → CaughtUpOr x pool relays f w (sync_user (relay_client x pool) relays f w)
caught_up x pool doc [] f w ts total ends =
    unfold sync_user raise in inr ((no_relay, refl), refl, inl refl)
caught_up x pool doc (r ∷ rs) f w ts total (inl all) = inl (λ i there good.
    HasAll-has_id i ts (sync_user (relay_client x pool) (r ∷ rs) f w).1.db
      (fetch_torrents-has_id x pool doc r f.pubkey rs [] f.last_synced_at ts total i there good)
      all)
caught_up x pool doc (r ∷ rs) f w ts total (inr (same, (e, failed))) =
    inr
      ((e, failed), same, inr (λ h. cc (sync_user_total (relay_client x pool) r rs f w h, failed)))

module _ (x : External) (pool : Pool) (doc : IsDocumented x) (relays : List Text) (f : Followed)
    (w : World) where
  -- The torrents that `FetchTorrents` returns, and what becomes of them.
  abbrev pub FetchedAndStored : Result ℕ × World → Type 0
  FetchedAndStored r =
      (ts : List Torrent) × (fetch_torrents x pool relays (f.pubkey ∷ []) f.last_synced_at
        ≡ parsed ts)
      × AreFetched x pool doc [] (events x pool relays f w) ts
      × StoredOrUnmoved ts w.db.followed r

  -- A turn of `SyncUser` on relays. An id for which the relays sent events from the cursor on, all of them signed and
  -- torrents, is in the catalogue afterwards, or the turn failed, because there is no relay or a statement failed, and the
  -- cursor has not moved. `FetchTorrents` does not panic: what it returns are torrents of signed events among those, no id
  -- twice, and all of these are in the catalogue, or the turn failed and the cursor has not moved.
  pub sync_user-AreFetched :
      CaughtUpOr x pool relays f w (sync_user (relay_client x pool) relays f w)
      × FetchedAndStored (sync_user (relay_client x pool) relays f w)
  sync_user-AreFetched =
      let (ts, total, fetched) =
        fetch_torrents-AreFetched x pool doc relays (f.pubkey ∷ []) f.last_synced_at in
      let cl = relay_client x pool in
      let stored =
        subst (λ us. StoredOrUnmoved us w.db.followed (sync_user cl relays f w))
          (ap torrents_or_nil total) (sync_user-StoredOrUnmoved cl relays f w) in
      (caught_up x pool doc relays f w ts total stored, (ts, total, fetched, stored))
