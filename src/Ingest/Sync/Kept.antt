-- ===== src/Ingest/Sync/Kept.antt =====
-- The catalogue's consistency over a synchronisation (internal/ingest/ingest.go).
use revolution.Prelude.{ℕ, ℤ, Text, Bool, true, false, List, [], ◌∷◌, if◌then◌else◌}
use revolution.Store.Db.{Db, Torrent, Profile, Followed}
use revolution.Store.Exec.{World, M}
use revolution.Store.Exec.Keeps.{Keeps, Keeps-pure, Keeps-bind, Keeps-try, Keeps-query, Keeps-raise}
use revolution.Store.Relays.{list_enabled_relay_urls}
use revolution.Store.Accounts.{list_followed}
use revolution.Store.Consistent.{IsConsistent}
use revolution.Store.Consistent.Methods.{
  upsert_torrent-Keeps, update_last_synced-Keeps, upsert_profile-Keeps,
}
use revolution.Ingest.Sync.{
  Client, later, store_torrents, store_profiles, move_cursor, counted, sync_user, sync_loop,
  sync_all,
}

store_torrents-Keeps : (ts : List Torrent) (m : ℤ) → Keeps IsConsistent (store_torrents ts m)
unfolding store_torrents
store_torrents-Keeps [] m = Keeps-pure m
store_torrents-Keeps (t ∷ ts) m =
    Keeps-bind _ _ (upsert_torrent-Keeps t) (λ u. store_torrents-Keeps ts (later m t.published_at))

store_profiles-Keeps : (ps : List Profile) → Keeps IsConsistent (store_profiles ps)
unfolding store_profiles
store_profiles-Keeps [] = Keeps-pure tt
store_profiles-Keeps (p ∷ ps) =
    Keeps-try _ _ (upsert_profile-Keeps p) (λ r. store_profiles-Keeps ps)

pub Keeps-if :
    {A : Type 0} (P : Db → Type 0) (b : Bool) (m n : M A)
    → Keeps P m
    → Keeps P n
    → Keeps P (if b then m else n)
Keeps-if P true m n km kn = km
Keeps-if P false m n km kn = kn

move_cursor-Keeps : (f : Followed) (m : ℤ) → Keeps IsConsistent (move_cursor f m)
unfolding move_cursor
move_cursor-Keeps f m = Keeps-if _ _ _ _ (update_last_synced-Keeps f.pubkey m) (Keeps-pure tt)

module _ (cl : Client) where
  pub sync_user-Keeps :
      (relays : List Text) (f : Followed) → Keeps IsConsistent (sync_user cl relays f)
  unfolding sync_user
  sync_user-Keeps relays f = Keeps-if _ _ _ _ (Keeps-raise _) (
      Keeps-bind _ _ (store_torrents-Keeps _ _) (λ m.
        Keeps-bind _ _ (move_cursor-Keeps f m)
          (λ u. Keeps-bind _ _ (store_profiles-Keeps _) (λ v. Keeps-pure _))))

  sync_loop-Keeps :
      (relays : List Text) (fs : List Followed) (total : ℕ)
      → Keeps IsConsistent (sync_loop cl relays fs total)
  unfolding sync_loop
  sync_loop-Keeps relays [] total = Keeps-pure total
  sync_loop-Keeps relays (f ∷ fs) total =
      Keeps-if _ _ _ _ (sync_loop-Keeps relays fs total) (
        Keeps-try _ _ (sync_user-Keeps relays f) (λ r. sync_loop-Keeps relays fs (counted total r)))

  pub sync_all-Keeps : Keeps IsConsistent (sync_all cl)
  unfolding sync_all list_enabled_relay_urls list_followed
  sync_all-Keeps = Keeps-bind _ _ (Keeps-query _) (λ relays.
      Keeps-if _ _ _ _ (Keeps-raise _)
        (Keeps-bind _ _ (Keeps-query _) (λ fs. sync_loop-Keeps relays fs 0)))

  -- `SyncAll` keeps the catalogue consistent, whatever the relays send and whichever statements
  -- fail.
  pub sync_all-IsConsistent : (w : World) → IsConsistent w.db → IsConsistent (sync_all cl w).1.db
  sync_all-IsConsistent = sync_all-Keeps.at
