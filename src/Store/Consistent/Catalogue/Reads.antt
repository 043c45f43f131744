-- ===== src/Store/Consistent/Catalogue/Reads.antt =====
-- What `GetTorrent` returns after any calls of internal/store.
use revolution.Prelude.{◌≡◌, refl, sym, ap, ◌∙◌, fun_ext, ℕ, Text, text_eq, Bool, List, [], ◌∷◌}
use revolution.Store.Db.{TorrentFile}
use revolution.Store.Exec.{World, M}
use revolution.Store.Exec.Faults.{
  KeepsFaults, KeepsFaults-pure, KeepsFaults-statement, KeepsFaults-bind, faults_rules,
}
use revolution.Store.Torrents.{
  get_torrent, upsert_torrent, upsert_body, insert_files, delete_torrent, update_torrent_fields,
  delete_by_pubkey,
}
use revolution.Store.Torrents.Upsert.{NoFault, upsert_torrent_total}
use revolution.Store.Torrents.ReadBack.{loaded, get_torrent_lem}
use revolution.Store.Relays.{add_relay, remove_relay}
use revolution.Store.Accounts.{add_followed, remove_followed, update_last_synced, upsert_profile}
use revolution.Store.Settings.{set_setting, set_maintenance, upsert_torrent_stats}
use revolution.Store.Consistent.{IsConsistent}
use revolution.Store.Consistent.Calls.{
  Call, upsert_torrent_call, delete_torrent_call, update_torrent_fields_call, delete_by_pubkey_call,
  add_relay_call, remove_relay_call, add_followed_call, remove_followed_call,
  update_last_synced_call, upsert_profile_call, set_setting_call, set_maintenance_call,
  upsert_torrent_stats_call, after, after_all, after-IsConsistent,
}
use revolution.Store.Torrents.Deletion.{delete_torrent-db, loaded-delete_id}
use revolution.Store.Torrents.Retitled.{update_torrent_fields-db, loaded-edit_torrent}
use revolution.Store.Consistent.Catalogue.Torrents.{
  upsert_torrent-Refines, delete_by_pubkey-Refines, delete_by_pubkey_total,
}
use revolution.Store.Consistent.Catalogue.Others.{
  Stays, add_relay-Stays, remove_relay-Stays, add_followed-Stays, remove_followed-Stays,
  update_last_synced-Stays, upsert_profile-Stays, set_setting-Stays, set_maintenance-Stays,
  upsert_torrent_stats-Stays,
}
use revolution.Store.Consistent.Catalogue.{Catalogue, carry_out, carry_out_all, catalogue}

insert_files-KeepsFaults : (id : Text) (fs : List TorrentFile) → KeepsFaults (insert_files id fs)
unfolding insert_files
insert_files-KeepsFaults id [] = KeepsFaults-pure tt
insert_files-KeepsFaults id (f ∷ fs) =
    KeepsFaults-bind _ _ (KeepsFaults-statement _) (λ u. insert_files-KeepsFaults id fs)

faults_kept : {A : Type 0} (m : M A) → KeepsFaults m → (w : World) → (m w).1.fails ≡ w.fails
faults_kept m k = k.at

after-fails : (c : Call) (w : World) → (after c w).fails ≡ w.fails
unfolding upsert_torrent upsert_body delete_torrent update_torrent_fields delete_by_pubkey add_relay
    remove_relay add_followed remove_followed update_last_synced upsert_profile set_setting
    set_maintenance upsert_torrent_stats
after-fails (upsert_torrent_call t) =
    faults_kept (upsert_torrent t) (search (faults_rules, insert_files-KeepsFaults))
after-fails (delete_torrent_call id) = faults_kept (delete_torrent id) (search faults_rules)
after-fails (update_torrent_fields_call id title category) =
    faults_kept (update_torrent_fields id title category) (search faults_rules)
after-fails (delete_by_pubkey_call pubkey) =
    faults_kept (delete_by_pubkey pubkey) (search faults_rules)
after-fails (add_relay_call url) = faults_kept (add_relay url) (search faults_rules)
after-fails (remove_relay_call url) = faults_kept (remove_relay url) (search faults_rules)
after-fails (add_followed_call pubkey alias) =
    faults_kept (add_followed pubkey alias) (search faults_rules)
after-fails (remove_followed_call pubkey) =
    faults_kept (remove_followed pubkey) (search faults_rules)
after-fails (update_last_synced_call pubkey ts) =
    faults_kept (update_last_synced pubkey ts) (search faults_rules)
after-fails (upsert_profile_call p) = faults_kept (upsert_profile p) (search faults_rules)
after-fails (set_setting_call key value) = faults_kept (set_setting key value) (search faults_rules)
after-fails (set_maintenance_call on) = faults_kept (set_maintenance on) (search faults_rules)
after-fails (upsert_torrent_stats_call id s l at) =
    faults_kept (upsert_torrent_stats id s l at) (search faults_rules)

after-NoFault : (c : Call) (w : World) → NoFault w → NoFault (after c w)
after-NoFault c w h n = ap (λ (fails : ℕ → Bool). fails n) (after-fails c w) ∙ h n

after_all-NoFault : (cs : List Call) (w : World) → NoFault w → NoFault (after_all cs w)
after_all-NoFault [] w h = h
after_all-NoFault (c ∷ cs) w h = after_all-NoFault cs (after c w) (after-NoFault c w h)

-- A call that writes no torrent.
stays :
    {A : Type 0} (m : M A) (w : World) (j : Text) → Stays m → loaded j (m w).1.db ≡ loaded j w.db
stays m w j s = (s j (loaded j w.db)).at w refl

after-carry_out :
    (c : Call) (w : World) (j : Text)
    → NoFault w
    → IsConsistent w.db
    → catalogue (after c w).db j ≡ carry_out c (catalogue w.db) j
after-carry_out (upsert_torrent_call t) w j h k =
    upsert_torrent-Refines t w j ∙ rw (upsert_torrent_total t w h) refl
after-carry_out (delete_torrent_call id) w j h k =
    ap (loaded j) (delete_torrent-db id w h) ∙ loaded-delete_id id w.db j k.unique_ids
after-carry_out (update_torrent_fields_call id title category) w j h k =
    ap (loaded j) (update_torrent_fields-db id title category w h)
    ∙ loaded-edit_torrent id title category (w.clock w.step) w.db j
after-carry_out (delete_by_pubkey_call pubkey) w j h k =
    delete_by_pubkey-Refines pubkey w k.unique_ids j ∙ rw (delete_by_pubkey_total pubkey w h) refl
after-carry_out (add_relay_call url) w j h k = stays _ w j (add_relay-Stays url)
after-carry_out (remove_relay_call url) w j h k = stays _ w j (remove_relay-Stays url)
after-carry_out (add_followed_call pubkey alias) w j h k =
    stays _ w j (add_followed-Stays pubkey alias)
after-carry_out (remove_followed_call pubkey) w j h k = stays _ w j (remove_followed-Stays pubkey)
after-carry_out (update_last_synced_call pubkey ts) w j h k =
    stays _ w j (update_last_synced-Stays pubkey ts)
after-carry_out (upsert_profile_call p) w j h k = stays _ w j (upsert_profile-Stays p)
after-carry_out (set_setting_call key value) w j h k = stays _ w j (set_setting-Stays key value)
after-carry_out (set_maintenance_call on) w j h k = stays _ w j (set_maintenance-Stays on)
after-carry_out (upsert_torrent_stats_call id s l at) w j h k =
    stays _ w j (upsert_torrent_stats-Stays id s l at)

after_all-carry_out :
    (cs : List Call) (w : World)
    → NoFault w
    → IsConsistent w.db
    → catalogue (after_all cs w).db ≡ carry_out_all cs (catalogue w.db)
after_all-carry_out [] w h k = refl
after_all-carry_out (c ∷ cs) w h k =
    after_all-carry_out cs (after c w) (after-NoFault c w h) (after-IsConsistent c w k)
    ∙ ap (carry_out_all cs) (fun_ext (λ j. after-carry_out c w j h k))

-- With no failing statement, on a consistent catalogue, what `GetTorrent` returns after any calls
-- of the writing methods of `Store`: what all these calls, one after the other, make of the map of
-- what it returned before under each id. A torrent that is stored replaces what its id had, with
-- the publisher that the id had first; an id that is deleted has none; an edit replaces title and
-- category; the deletion of a publisher removes all torrents of that publisher; calls on
-- relays, accounts, profiles, settings and counts do nothing to it.
pub get_torrent-after_all :
    (cs : List Call) (w : World) (j : Text)
    → NoFault w
    → IsConsistent w.db
    → (get_torrent j (after_all cs w)).0 ≡ carry_out_all cs (λ k. (get_torrent k w).0) j
get_torrent-after_all cs w j h k =
    get_torrent_lem j (after_all cs w) (after_all-NoFault cs w h)
    ∙ ap (λ (m : Catalogue). m j) (after_all-carry_out cs w h k)
    ∙ ap (λ (m : Catalogue). carry_out_all cs m j) (fun_ext (λ i. sym (get_torrent_lem i w h)))
