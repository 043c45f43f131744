-- ===== src/Ingest/Sync/Complete.antt =====
-- The torrents of one account and its cursor, `last_synced_at`, after a synchronisation.
use revolution.Prelude.{
  ℕ, ◌+◌, ◌≡◌, refl, ap, sym, subst, ◌∙◌, ℤ, Text, text_eq, true, List, [], ◌∷◌, All, Bool-cases,
  ◌⊎◌, inl, inr, arith,
}
use revolution.Store.Db.{
  Db, Torrent, TorrentFile, FileRow, Profile, Followed, has_torrent, next_rowid,
}
use revolution.Store.Exec.{
  Error, Result, ok, err, Result-cases, >>=-ok, >>=-err, World, M, pure, raise, ◌>>=◌, ◌>>◌,
  no_relay,
}
use revolution.Store.Exec.Keeps.{
  Keeps, Leaves, Keeps-pure, Keeps-bind, Keeps-try, Keeps-statement, Keeps-transaction, Keeps-now,
}
use revolution.Store.Torrents.{upsert_torrent, upsert_body, upsert_row, insert_file, insert_files}
use revolution.Store.Torrents.References.{has_torrent-upsert}
use revolution.Store.Torrents.Upsert.{known_after_upsert, upsert_torrent-AllOrNothing}
use revolution.Store.Accounts.{update_last_synced, upsert_profile, synced_db, profile_db}
use revolution.Ingest.Sync.{Client, later, store_torrents, store_profiles, move_cursor, sync_user}
use revolution.Ingest.Sync.Kept.{Keeps-if}

-- `UpsertTorrent` keeps what the row's statement keeps, if the files do not matter.
module _ (P : Db → Type 0) (row : (t : Torrent) (ts : ℤ) (d : Db) → P d → P (upsert_row t ts d))
    (files : (d : Db) (fs : List FileRow) → P d → P (record d { torrent_files = fs })) where
  insert_file-Leaves : (id : Text) (f : TorrentFile) (d : Db) → P d → Leaves P (insert_file id f d)
  insert_file-Leaves id f d h = elim (Bool-cases (has_torrent id d.torrents)) [
    | inl known ↦ rw known (files d _ h)
    | inr missing ↦ rw missing tt
  ]

  Keeps-insert_files : (id : Text) (fs : List TorrentFile) → Keeps P (insert_files id fs)
  unfolding insert_files
  Keeps-insert_files id [] = Keeps-pure tt
  Keeps-insert_files id (f ∷ fs) =
      Keeps-bind _ _ (Keeps-statement _ (λ d h. insert_file-Leaves id f d h))
        (λ u. Keeps-insert_files id fs)

  pub Keeps-upsert_torrent : (t : Torrent) → Keeps P (upsert_torrent t)
  unfolding upsert_torrent upsert_body
  Keeps-upsert_torrent t = Keeps-transaction _ (
      Keeps-bind _ _ Keeps-now (λ ts. Keeps-bind _ _ (Keeps-statement _ (λ d h. row t ts d h)) (λ u.
        Keeps-bind _ _ (Keeps-statement _ (λ d h. files d _ h))
          (λ v. Keeps-insert_files t.id t.files))))

  pub Keeps-store_torrents : (ts : List Torrent) (m : ℤ) → Keeps P (store_torrents ts m)
  unfolding store_torrents
  Keeps-store_torrents [] m = Keeps-pure m
  Keeps-store_torrents (t ∷ ts) m =
      Keeps-bind _ _ (Keeps-upsert_torrent t)
        (λ u. Keeps-store_torrents ts (later m t.published_at))

-- The catalogue has a torrent under the id.
abbrev pub Has : Text → Db → Type 0
Has id db = has_torrent id db.torrents ≡ true

abbrev pub HasAll : List Torrent → Db → Type 0
HasAll ts db = All (λ (t : Torrent). Has t.id db) ts

Has-row : (id : Text) (t : Torrent) (ts : ℤ) (d : Db) → Has id d → Has id (upsert_row t ts d)
unfolding upsert_row
Has-row id t ts d h =
    ground (arith, has_torrent-upsert t ts (next_rowid d.torrents) id d.torrents, h)

store_torrents-Has : (id : Text) (ts : List Torrent) (m : ℤ) → Keeps (Has id) (store_torrents ts m)
store_torrents-Has id = Keeps-store_torrents (Has id) (Has-row id) (λ d fs h. h)

upsert_torrent-Has :
    (t : Torrent) (w : World) → (upsert_torrent t w).0 ≡ ok tt → Has t.id (upsert_torrent t w).1.db
upsert_torrent-Has t w h = elim (upsert_torrent-AllOrNothing t w) [
  | inl done ↦
      subst (λ (d : Db). Has t.id d) (sym done.1) (known_after_upsert t (w.clock (w.step + 1)) w.db)
  | inr (e, failed, _) ↦ cc (failed, h)
]

-- A run over the torrents that returns has stored them all.
store_torrents-HasAll :
    (ts : List Torrent) (m n : ℤ) (w : World)
    → (store_torrents ts m w).0 ≡ ok n
    → HasAll ts (store_torrents ts m w).1.db
store_torrents-HasAll [] m n w h = tt
store_torrents-HasAll (t ∷ ts) m n w h =
    let w' = (upsert_torrent t w).1 in
    let m' = later m t.published_at in
    elim (Result-cases (upsert_torrent t w).0) [
      | inl (u, good) ↦
          let step : store_torrents (t ∷ ts) m w ≡ store_torrents ts m' w' =
            unfold store_torrents in >>=-ok (upsert_torrent t) _ w tt good in
          subst (λ (r : Result ℤ × World). HasAll (t ∷ ts) r.1.db) (sym step)
            (
              (store_torrents-Has t.id ts m').at w' (upsert_torrent-Has t w good),
              store_torrents-HasAll ts m' n w' (ap (λ r. r.0) (sym step) ∙ h),
            )
      | inr (e, bad) ↦
          let step : store_torrents (t ∷ ts) m w ≡ (err e, w') =
            unfold store_torrents in >>=-err (upsert_torrent t) _ w e bad in
          cc (ap (λ r. r.0) step, h)
    ]

-- The table of the followed accounts is `old`.
abbrev pub FollowedIs : List Followed → Db → Type 0
FollowedIs old db = db.followed ≡ old

pub upsert_row-followed :
    (t : Torrent) (ts : ℤ) (d : Db) → (upsert_row t ts d).followed ≡ d.followed
unfolding upsert_row
upsert_row-followed t ts d = refl

store_torrents-followed :
    (ts : List Torrent) (m : ℤ) (old : List Followed) → Keeps (FollowedIs old) (store_torrents ts m)
store_torrents-followed ts m old =
    Keeps-store_torrents (FollowedIs old) (λ t s d h. upsert_row-followed t s d ∙ h) (λ d fs h. h)
      ts m

-- What comes after the torrents leaves them alone.
module _ (P : Db → Type 0) (synced : (k : Text) (ts : ℤ) (d : Db) → P d → P (synced_db k ts d))
    (profile : (p : Profile) (d : Db) → P d → P (profile_db p d)) where
  pub Keeps-store_profiles : (ps : List Profile) → Keeps P (store_profiles ps)
  unfolding store_profiles upsert_profile
  Keeps-store_profiles [] = Keeps-pure tt
  Keeps-store_profiles (p ∷ ps) =
      Keeps-try _ _ (Keeps-statement _ (λ d h. profile p d h)) (λ r. Keeps-store_profiles ps)

  pub Keeps-move_cursor : (f : Followed) (m : ℤ) → Keeps P (move_cursor f m)
  unfolding move_cursor update_last_synced
  Keeps-move_cursor f m =
      Keeps-if _ _ _ _ (Keeps-statement _ (λ d h. synced f.pubkey m d h)) (Keeps-pure tt)

-- The part of `SyncUser` after the torrents.
abbrev finish : Followed → List Profile → ℕ → ℤ → M ℕ
finish f ps n max_ts = do move_cursor f max_ts; store_profiles ps; pure n

finish-Keeps :
    (ts : List Torrent) (f : Followed) (ps : List Profile) (n : ℕ) (m : ℤ)
    → Keeps (HasAll ts) (finish f ps n m)
finish-Keeps ts f ps n m =
    Keeps-bind _ _ (Keeps-move_cursor (HasAll ts) (λ k s d h. h) (λ p d h. h) f m) (λ u.
      Keeps-bind _ _ (Keeps-store_profiles (HasAll ts) (λ k s d h. h) (λ p d h. h) ps)
        (λ v. Keeps-pure n))

-- The two ways a turn can end, for the torrents that came and the accounts as they were.
abbrev pub StoredOrUnmoved : List Torrent → List Followed → Result ℕ × World → Type 0
StoredOrUnmoved ts old r =
    HasAll ts r.1.db ⊎ ((r.1.db.followed ≡ old) × ((e : Error) × (r.0 ≡ err e)))

body-StoredOrUnmoved :
    (ts : List Torrent) (f : Followed) (ps : List Profile) (n : ℕ) (m : ℤ) (w : World)
    → StoredOrUnmoved ts w.db.followed ((store_torrents ts m >>= finish f ps n) w)
body-StoredOrUnmoved ts f ps n m w =
    let w' = (store_torrents ts m w).1 in
    elim (Result-cases (store_torrents ts m w).0) [
      | inl (max_ts, good) ↦
          subst (StoredOrUnmoved ts w.db.followed)
            (sym (>>=-ok (store_torrents ts m) _ w max_ts good))
            (inl ((finish-Keeps ts f ps n max_ts).at w' (store_torrents-HasAll ts m max_ts w good)))
      | inr (e, bad) ↦
          subst (StoredOrUnmoved ts w.db.followed) (sym (>>=-err (store_torrents ts m) _ w e bad))
            (inr ((store_torrents-followed ts m w.db.followed).at w refl, (e, refl)))
    ]

-- After a turn of `SyncUser`, either every torrent that the relays sent is in the catalogue, or the
-- turn ended with an error and the table of the followed accounts, with the cursor from which the
-- next turn asks, is as it was: no failure moves the cursor past a torrent that was not stored.
pub sync_user-StoredOrUnmoved :
    (cl : Client) (relays : List Text) (f : Followed) (w : World)
    → StoredOrUnmoved
        (cl.fetch_torrents relays (f.pubkey ∷ []) f.last_synced_at)
        w.db.followed
        (sync_user cl relays f w)
unfolding sync_user raise
sync_user-StoredOrUnmoved cl [] f w = inr (refl, (no_relay, refl))
sync_user-StoredOrUnmoved cl (r ∷ rs) f w =
    body-StoredOrUnmoved (cl.fetch_torrents (r ∷ rs) (f.pubkey ∷ []) f.last_synced_at) f
      (cl.fetch_profiles (r ∷ rs) (f.pubkey ∷ [])) _ f.last_synced_at w
