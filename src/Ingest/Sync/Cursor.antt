-- ===== src/Ingest/Sync/Cursor.antt =====
-- The cursors of the followed accounts over a whole synchronisation.
use revolution.Prelude.{
  ℕ, ◌≡◌, refl, subst, sym, ℤ, le_int, max_int, Text, text_eq, eq_text, true, Option, none, some,
  List, [], ◌∷◌, Bool-cases, inl, inr, arith,
}
use revolution.Store.Table.{find, map_option, find-update}
use revolution.Store.Db.{Db, Torrent, Followed}
use revolution.Store.Exec.{World}
use revolution.Store.Exec.Keeps.{Keeps, Keeps-pure, Keeps-bind, Keeps-try, Keeps-query, Keeps-raise}
use revolution.Store.Relays.{list_enabled_relay_urls}
use revolution.Store.Accounts.{followed_key, mark_synced, synced_db, list_followed}
use revolution.Ingest.Sync.{Client, store_torrents, counted, sync_user, sync_loop, sync_all}
use revolution.Ingest.Sync.Kept.{Keeps-if}
use revolution.Ingest.Sync.Complete.{
  Keeps-store_torrents, upsert_row-followed, Keeps-store_profiles, Keeps-move_cursor,
}

-- An account with a cursor at `c` or later.
abbrev pub Reaches : ℤ → Option Followed → Type 0
Reaches c none = ⊥
Reaches c (some f) = le_int c f.last_synced_at ≡ true

abbrev pub CursorAt : Text → ℤ → Db → Type 0
CursorAt k c db = Reaches c (find followed_key k db.followed)

le_int-max : (c a b : ℤ) → le_int c a ≡ true → le_int c (max_int a b) ≡ true
le_int-max c a b h = ground arith

Reaches-mark :
    (c ts : ℤ) (o : Option Followed) → Reaches c o → Reaches c (map_option (mark_synced ts) o)
Reaches-mark c ts none h = h
Reaches-mark c ts (some f) h = le_int-max c f.last_synced_at ts h

module _ (k : Text) (c : ℤ) where
  CursorAt-synced : (j : Text) (ts : ℤ) (d : Db) → CursorAt k c d → CursorAt k c (synced_db j ts d)
  CursorAt-synced j ts d h =
      let o = find followed_key k d.followed in
      subst (Reaches c) (sym (find-update followed_key j (mark_synced ts) k d.followed (λ x. refl)))
        (elim (Bool-cases (eq_text j k)) [
          | inl same ↦ rw same (Reaches-mark c ts o h)
          | inr other ↦ rw other h
        ])

  store_torrents-cursor : (ts : List Torrent) (m : ℤ) → Keeps (CursorAt k c) (store_torrents ts m)
  store_torrents-cursor =
      Keeps-store_torrents (CursorAt k c)
        (λ t s d h.
          subst (λ (fs : List Followed). Reaches c (find followed_key k fs))
            (sym (upsert_row-followed t s d)) h)
        (λ d fs h. h)

  module _ (cl : Client) where
    sync_user-cursor :
        (relays : List Text) (f : Followed) → Keeps (CursorAt k c) (sync_user cl relays f)
    unfolding sync_user
    sync_user-cursor relays f = Keeps-if _ _ _ _ (Keeps-raise _) (
        Keeps-bind _ _ (store_torrents-cursor _ _) (λ m.
          Keeps-bind _ _ (Keeps-move_cursor (CursorAt k c) CursorAt-synced (λ p d h. h) f m) (λ u.
            Keeps-bind _ _ (Keeps-store_profiles (CursorAt k c) CursorAt-synced (λ p d h. h) _)
              (λ v. Keeps-pure _))))

    sync_loop-cursor :
        (relays : List Text) (fs : List Followed) (total : ℕ)
        → Keeps (CursorAt k c) (sync_loop cl relays fs total)
    unfolding sync_loop
    sync_loop-cursor relays [] total = Keeps-pure total
    sync_loop-cursor relays (f ∷ fs) total = Keeps-if _ _ _ _ (sync_loop-cursor relays fs total) (
        Keeps-try _ _ (sync_user-cursor relays f)
          (λ r. sync_loop-cursor relays fs (counted total r)))

    sync_all-cursor : Keeps (CursorAt k c) (sync_all cl)
    unfolding sync_all list_enabled_relay_urls list_followed
    sync_all-cursor = Keeps-bind _ _ (Keeps-query _) (λ relays.
        Keeps-if _ _ _ _ (Keeps-raise _)
          (Keeps-bind _ _ (Keeps-query _) (λ fs. sync_loop-cursor relays fs 0)))

    -- `SyncAll` never drops an account and never sets its cursor back: an account whose cursor is at
    -- `c` or later before the call has it there afterwards, whatever the relays send, in whatever
    -- order, and whichever statements fail.
    pub sync_all-CursorAt : (w : World) → CursorAt k c w.db → CursorAt k c (sync_all cl w).1.db
    sync_all-CursorAt = sync_all-cursor.at
