-- ===== src/Ingest/Sync.antt =====
-- internal/ingest/ingest.go: what the relays have of the followed accounts goes into the catalogue.
-- `Client` is what the package takes from internal/nostr.
pub mod Kept
pub mod Complete
pub mod Total
pub mod Cursor
use revolution.Prelude.{
  ℕ, ◌+◌, ℤ, lt_int, Text, Bool, true, false, not, List, [], ◌∷◌, length, if◌then◌else◌,
}
use revolution.Store.Db.{Torrent, Profile, Followed}
use revolution.Store.Exec.{Result, ok, err, no_relay, M, pure, raise, ◌>>=◌, ◌>>◌, try}
use revolution.Store.Torrents.{upsert_torrent}
use revolution.Store.Relays.{list_enabled_relay_urls}
use revolution.Store.Accounts.{list_followed, update_last_synced, upsert_profile}

pub record Client : Type 0 where
  pub fetch_torrents : List Text → List Text → ℤ → List Torrent
  pub fetch_profiles : List Text → List Text → List Profile

abbrev pub no_items : List Text → Bool
no_items [] = true
no_items (_ ∷ _) = false

abbrev pub later : ℤ → ℤ → ℤ
later max_ts ts = if lt_int max_ts ts then ts else max_ts

-- The loop over the torrents: it stops at an error, and gives the newest time otherwise.
unfoldable pub store_torrents : List Torrent → ℤ → M ℤ
store_torrents [] max_ts = pure max_ts
store_torrents (t ∷ ts) max_ts = do
  upsert_torrent t
  store_torrents ts (later max_ts t.published_at)

-- The loop over the profiles: an error is logged, and the next one is tried.
unfoldable pub store_profiles : List Profile → M (Unit {0})
store_profiles [] = pure tt
store_profiles (p ∷ ps) = try (upsert_profile p) (λ r. store_profiles ps)

unfoldable pub move_cursor : Followed → ℤ → M (Unit {0})
move_cursor f max_ts =
    if lt_int f.last_synced_at max_ts then update_last_synced f.pubkey max_ts else pure tt

abbrev pub counted : ℕ → Result ℕ → ℕ
counted total (ok n) = total + n
counted total (err e) = total

module _ (cl : Client) where
  unfoldable pub sync_user : List Text → Followed → M ℕ
  sync_user relays f =
      let torrents = cl.fetch_torrents relays (f.pubkey ∷ []) f.last_synced_at in
      if no_items relays then raise no_relay else do
        max_ts ← store_torrents torrents f.last_synced_at
        move_cursor f max_ts
        store_profiles (cl.fetch_profiles relays (f.pubkey ∷ []))
        pure (length torrents)

  -- The loop over the accounts: one that is not enabled is passed over, and an error ends only the
  -- turn of its account.
  unfoldable pub sync_loop : List Text → List Followed → ℕ → M ℕ
  sync_loop relays [] total = pure total
  sync_loop relays (f ∷ fs) total =
      if not f.enabled
      then sync_loop relays fs total
      else try (sync_user relays f) (λ r. sync_loop relays fs (counted total r))

  unfoldable pub sync_all : M ℕ
  sync_all = do
    relays ← list_enabled_relay_urls
    if no_items relays
        then raise no_relay
        else do followed ← list_followed; sync_loop relays followed 0
