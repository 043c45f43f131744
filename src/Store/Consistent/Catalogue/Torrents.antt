-- ===== src/Store/Consistent/Catalogue/Torrents.antt =====
-- The methods of `Store` that write torrents, each against the map (internal/store/torrents.go).
use revolution.Prelude.{
  ℕ, ◌+◌, ◌≡◌, refl, ap, ◌∙◌, Text, text_eq, eq_text, true, false, ◌⊎◌, ◌==◌, ==_iff, arith,
  if◌then◌else◌, Bool-cases, Option-cases, inl, inr,
}
use revolution.Store.Table.{find, IsUnique}
use revolution.Store.Db.{Db, Torrent}
use revolution.Store.Exec.{Result, ok, World, ◌>>=◌, statement, lift, now}
use revolution.Store.Torrents.{
  torrent_key, upsert_torrent, delete_torrent, update_torrent_fields, delete_by_pubkey, by_pubkey,
  delete_torrents, edit_torrent, files_of, require_rows,
}
use revolution.Store.Torrents.Upsert.{NoFault, write_torrent, upsert_torrent-AllOrNothing}
use revolution.Store.Torrents.ReadBack.{loaded, load_found, owner, loaded-write_torrent}
use revolution.Store.Torrents.Deletion.{spare, loaded-delete_torrents, loaded-delete_id}
use revolution.Store.Torrents.Missing.{delete_torrents_none, edit_torrent_none}
use revolution.Store.Torrents.Retitled.{loaded-edit_torrent}
use revolution.Store.Consistent.Calls.{
  upsert_torrent_call, delete_torrent_call, update_torrent_fields_call, delete_by_pubkey_call,
}
use revolution.Store.Consistent.Catalogue.{publisher, unless_by, is_ok, Refines}

publisher-owner :
    (t : Torrent) (db : Db)
    → owner t (find torrent_key t.id db.torrents) ≡ publisher t (loaded t.id db)
publisher-owner t db = elim (Option-cases (find torrent_key t.id db.torrents)) [
  | inl missing ↦ rw missing refl
  | inr (r, found) ↦ rw found refl
]

-- A call that returns leaves the tables `written`, and one that fails those of `before`.
abbrev DoneOrKept : {A : Type 0} → Db → Db → Result A × World → Type 0
DoneOrKept before written r =
    ((is_ok r.0 ≡ true) × (r.1.db ≡ written)) ⊎ ((is_ok r.0 ≡ false) × (r.1.db ≡ before))

loaded-DoneOrKept :
    {A : Type 0} (before written : Db) (r : Result A × World) (j : Text) (t : Result Torrent)
    → DoneOrKept before written r
    → loaded j written ≡ t
    → loaded j r.1.db ≡ (if is_ok r.0 then t else loaded j before)
loaded-DoneOrKept before written r j t ends p = elim ends [
  | inl (done, db) ↦ rw done (ap (loaded j) db ∙ p)
  | inr (failed, db) ↦ rw failed (ap (loaded j) db)
]

DoneOrKept-require_rows :
    (count : Db → ℕ) (g : Db → Db) (w : World)
    → (count w.db ≡ 0 → g w.db ≡ w.db)
    → DoneOrKept w.db
        (g w.db)
        ((statement (λ db. ok (count db, g db)) >>= λ n. lift (require_rows n)) w)
unfolding ◌>>=◌ statement lift
DoneOrKept-require_rows count g w h = elim (Bool-cases (w.fails w.step)) [
  | inl bad ↦ inr (rw bad refl, rw bad refl)
  | inr good ↦ elim (Bool-cases (count w.db == 0)) [
    | inl nobody ↦ inr (rw (good, nobody) refl, rw good (h ((==_iff (count w.db) 0).0 nobody)))
    | inr somebody ↦ inl (rw (good, somebody) refl, rw good refl)
  ]
]

pub upsert_torrent-Refines : (t : Torrent) (w : World) → Refines (upsert_torrent_call t) w
upsert_torrent-Refines t w j =
    let written = write_torrent t (w.clock (w.step + 1)) w.db in
    let put : Text → Result Torrent =
      λ pubkey. if eq_text t.id j then ok (record t { pubkey = pubkey }) else loaded j w.db in
    loaded-DoneOrKept w.db written (upsert_torrent t w) j (put (publisher t (loaded t.id w.db)))
      (elim (upsert_torrent-AllOrNothing t w) [
        | inl (done, db) ↦ inl (ap is_ok done, db)
        | inr (e, failed, db) ↦ inr (ap is_ok failed, db)
      ])
      (loaded-write_torrent t (w.clock (w.step + 1)) w.db j ∙ ap put (publisher-owner t w.db))

pub delete_torrent-Refines :
    (id : Text) (w : World)
    → IsUnique torrent_key w.db.torrents
    → Refines (delete_torrent_call id) w
unfolding delete_torrent
delete_torrent-Refines id w u j =
    loaded-DoneOrKept w.db (delete_torrents (λ r. eq_text r.id id) w.db) (delete_torrent id w) j _
      (DoneOrKept-require_rows _ (delete_torrents (λ r. eq_text r.id id)) w
        (delete_torrents_none (λ r. eq_text r.id id) w.db))
      (loaded-delete_id id w.db j u)

pub update_torrent_fields-Refines :
    (id title category : Text) (w : World)
    → Refines (update_torrent_fields_call id title category) w
unfolding update_torrent_fields ◌>>=◌ now
update_torrent_fields-Refines id title category w j =
    let ts = w.clock w.step in
    loaded-DoneOrKept w.db (edit_torrent id title category ts w.db)
      (update_torrent_fields id title category w) j _
      (DoneOrKept-require_rows _ (edit_torrent id title category ts) w
        (edit_torrent_none id title category ts w.db))
      (loaded-edit_torrent id title category ts w.db j)

-- What is loaded under each id after the deletion of a publisher.
pub spare-unless_by :
    (pubkey : Text) (j : Text) (db : Db)
    → load_found
        (spare (by_pubkey pubkey) (find torrent_key j db.torrents))
        (files_of j db.torrent_files)
      ≡ unless_by pubkey (loaded j db)
spare-unless_by pubkey j db = elim (Option-cases (find torrent_key j db.torrents)) [
  | inl missing ↦ rw missing refl
  | inr (r, found) ↦ rw found (ground arith)
]

delete_by_pubkey-DoneOrKept :
    (pubkey : Text) (w : World)
    → DoneOrKept w.db (delete_torrents (by_pubkey pubkey) w.db) (delete_by_pubkey pubkey w)
unfolding delete_by_pubkey statement
delete_by_pubkey-DoneOrKept pubkey w = elim (Bool-cases (w.fails w.step)) [
  | inl bad ↦ inr (rw bad refl, rw bad refl)
  | inr good ↦ inl (rw good refl, rw good refl)
]

pub delete_by_pubkey-Refines :
    (pubkey : Text) (w : World)
    → IsUnique torrent_key w.db.torrents
    → Refines (delete_by_pubkey_call pubkey) w
delete_by_pubkey-Refines pubkey w u j =
    loaded-DoneOrKept w.db (delete_torrents (by_pubkey pubkey) w.db) (delete_by_pubkey pubkey w) j _
      (delete_by_pubkey-DoneOrKept pubkey w)
      (loaded-delete_torrents (by_pubkey pubkey) w.db j u ∙ spare-unless_by pubkey j w.db)

pub delete_by_pubkey_total :
    (pubkey : Text) (w : World) → NoFault w → is_ok (delete_by_pubkey pubkey w).0 ≡ true
unfolding delete_by_pubkey statement
delete_by_pubkey_total pubkey w h = rw (h w.step) refl
