-- ===== src/Ingest/Sync/Total.antt =====
-- `SyncUser` (internal/ingest/ingest.go) where no statement fails.
use revolution.Prelude.{
  ◌≡◌, refl, ap, ◌∙◌, ℤ, lt_int, Text, Bool-cases, List, [], ◌∷◌, length, inl, inr,
}
use revolution.Store.Db.{Torrent, Profile, Followed}
use revolution.Store.Exec.{Result, ok, >>=-ok, World, statement, try, pure}
use revolution.Store.Torrents.{upsert_torrent}
use revolution.Store.Torrents.Upsert.{NoFault, upsert_torrent_total, upsert_torrent-NoFault}
use revolution.Store.Accounts.{update_last_synced}
use revolution.Ingest.Sync.{Client, later, store_torrents, store_profiles, move_cursor, sync_user}

-- A result, after which no statement fails either.
abbrev Goes : {A : Type 0} → Result A × World → Type 0
Goes {A = A} r = (a : A) × (r.0 ≡ ok a) × NoFault r.1

store_torrents-Goes :
    (ts : List Torrent) (m : ℤ) (w : World) → NoFault w → Goes (store_torrents ts m w)
unfolding store_torrents pure
store_torrents-Goes [] m w h = (m, refl, h)
store_torrents-Goes (t ∷ ts) m w h =
    let w' = (upsert_torrent t w).1 in
    let m' = later m t.published_at in
    let (n, good, after) = store_torrents-Goes ts m' w' (upsert_torrent-NoFault t w h) in
    let step : store_torrents (t ∷ ts) m w ≡ store_torrents ts m' w' =
      >>=-ok (upsert_torrent t) _ w tt (upsert_torrent_total t w h) in
    rw step (n, good, after)

move_cursor_total : (f : Followed) (m : ℤ) (w : World) → NoFault w → (move_cursor f m w).0 ≡ ok tt
unfolding move_cursor update_last_synced statement pure
move_cursor_total f m w h = elim (Bool-cases (lt_int f.last_synced_at m)) [
  | inl moved ↦ rw (moved, h w.step) refl
  | inr same ↦ rw same refl
]

-- Errors of profiles are only logged.
store_profiles_total : (ps : List Profile) (w : World) → (store_profiles ps w).0 ≡ ok tt
unfolding store_profiles try pure
store_profiles_total [] w = refl
store_profiles_total (p ∷ ps) w = store_profiles_total ps _

-- With a relay and no failing statement, `SyncUser` returns the number of torrents that came.
pub sync_user_total :
    (cl : Client) (r : Text) (rs : List Text) (f : Followed) (w : World)
    → NoFault w
    → (sync_user cl (r ∷ rs) f w).0
      ≡ ok (length (cl.fetch_torrents (r ∷ rs) (f.pubkey ∷ []) f.last_synced_at))
unfolding sync_user pure
sync_user_total cl r rs f w h =
    let ts = cl.fetch_torrents (r ∷ rs) (f.pubkey ∷ []) f.last_synced_at in
    let ps = cl.fetch_profiles (r ∷ rs) (f.pubkey ∷ []) in
    let (m, good, after) = store_torrents-Goes ts f.last_synced_at w h in
    let w' = (store_torrents ts f.last_synced_at w).1 in
    ap (λ r. r.0) (>>=-ok (store_torrents ts f.last_synced_at) _ w m good)
    ∙ ap (λ r. r.0) (>>=-ok (move_cursor f m) _ w' tt (move_cursor_total f m w' after))
    ∙ ap (λ r. r.0)
        (>>=-ok (store_profiles ps) _ (move_cursor f m w').1 tt
          (store_profiles_total ps (move_cursor f m w').1))
