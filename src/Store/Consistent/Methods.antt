-- ===== src/Store/Consistent/Methods.antt =====
-- The methods of `Store` that write, each against the consistency of the tables.
use revolution.Prelude.{ℕ, ◌≡◌, refl, ℤ, Text, text_eq, Bool, List, [], ◌∷◌, arith}
use revolution.Store.Table.{upsert, IsUnique}
use revolution.Store.Table.Unique.{IsUnique-select, IsUnique-upsert, IsUnique-update}
use revolution.Store.Db.{Db, Torrent, TorrentFile, TorrentRow, RelayRow, Followed, Profile}
use revolution.Store.Exec.{ok, statement}
use revolution.Store.Exec.Keeps.{
  Keeps, Keeps-statement, Keeps-pure, Keeps-bind, Keeps-lift, Keeps-now, keeps_rules,
}
use revolution.Store.Torrents.{
  upsert_torrent, upsert_body, insert_files, delete_torrent, update_torrent_fields,
  delete_by_pubkey, by_pubkey, upsert_row, purge_files, insert_file, delete_torrents, edit_torrent,
}
use revolution.Store.Relays.{relay_key, new_relay, add_relay, remove_relay}
use revolution.Store.Accounts.{
  followed_key, new_followed, add_followed, remove_followed, mark_synced, update_last_synced,
  profile_key, merge_profile, upsert_profile,
}
use revolution.Store.Settings.{setting_key, set_setting, set_maintenance, upsert_torrent_stats}
use revolution.Store.Consistent.{
  IsConsistent, upsert_row-IsConsistent, edit_torrent-IsConsistent, delete_torrents-IsConsistent,
  purge_files-IsConsistent, insert_file-IsConsistent, upsert_stats-IsConsistent, with_keys,
}

-- The statements, one by one.
module _ (t : Torrent) where
  upsert_row-Keeps : (ts : ℤ) → Keeps IsConsistent (statement (λ db. ok (tt, upsert_row t ts db)))
  upsert_row-Keeps ts = Keeps-statement _ (λ d c. upsert_row-IsConsistent d c t ts)

  purge_files-Keeps : Keeps IsConsistent (statement (λ db. ok (tt, purge_files t.id db)))
  purge_files-Keeps = Keeps-statement _ (λ d c. purge_files-IsConsistent d c t.id)

insert_file-Keeps :
    (id : Text) (f : TorrentFile) → Keeps IsConsistent (statement (insert_file id f))
insert_file-Keeps id f = Keeps-statement _ (λ d c. insert_file-IsConsistent d c id f)

delete_torrents-Keeps :
    (count : Db → ℕ) (doomed : TorrentRow → Bool)
    → Keeps IsConsistent (statement (λ db. ok (count db, delete_torrents doomed db)))
delete_torrents-Keeps count doomed =
    Keeps-statement _ (λ d c. delete_torrents-IsConsistent d c doomed)

edit_torrent-Keeps :
    (count : Db → ℕ) (id title category : Text) (ts : ℤ)
    → Keeps IsConsistent (statement (λ db. ok (count db, edit_torrent id title category ts db)))
edit_torrent-Keeps count id title category ts =
    Keeps-statement _ (λ d c. edit_torrent-IsConsistent d c id title category ts)

relays-Keeps :
    {A : Type 0} (result : Db → A) (f : List RelayRow → List RelayRow)
    → ((t : List RelayRow) → IsUnique relay_key t → IsUnique relay_key (f t))
    → Keeps IsConsistent (statement (λ db. ok (result db, record db { relays = f db.relays })))
relays-Keeps result f u = Keeps-statement _ (λ d c.
    let k = c.unique_keys in
    with_keys d c (f d.relays) d.followed d.profiles d.settings (u d.relays k.0, k.1, k.2, k.3))

followed-Keeps :
    {A : Type 0} (result : Db → A) (f : List Followed → List Followed)
    → ((t : List Followed) → IsUnique followed_key t → IsUnique followed_key (f t))
    → Keeps IsConsistent (statement (λ db. ok (result db, record db { followed = f db.followed })))
followed-Keeps result f u = Keeps-statement _ (λ d c.
    let k = c.unique_keys in
    with_keys d c d.relays (f d.followed) d.profiles d.settings (k.0, u d.followed k.1, k.2, k.3))

insert_files-Keeps : (id : Text) (fs : List TorrentFile) → Keeps IsConsistent (insert_files id fs)
unfolding insert_files
insert_files-Keeps id [] = Keeps-pure tt
insert_files-Keeps id (f ∷ fs) =
    Keeps-bind _ _ (insert_file-Keeps id f) (λ u. insert_files-Keeps id fs)

pub upsert_torrent-Keeps : (t : Torrent) → Keeps IsConsistent (upsert_torrent t)
unfolding upsert_torrent upsert_body
upsert_torrent-Keeps t =
    search (keeps_rules, upsert_row-Keeps, purge_files-Keeps, insert_files-Keeps)

pub delete_torrent-Keeps : (id : Text) → Keeps IsConsistent (delete_torrent id)
unfolding delete_torrent
delete_torrent-Keeps id = Keeps-bind _ _ (delete_torrents-Keeps _ _) (λ n. Keeps-lift _)

pub update_torrent_fields-Keeps :
    (id title category : Text) → Keeps IsConsistent (update_torrent_fields id title category)
unfolding update_torrent_fields
update_torrent_fields-Keeps id title category =
    Keeps-bind _ _ Keeps-now
      (λ ts. Keeps-bind _ _ (edit_torrent-Keeps _ id title category ts) (λ n. Keeps-lift _))

pub delete_by_pubkey-Keeps : (pubkey : Text) → Keeps IsConsistent (delete_by_pubkey pubkey)
unfolding delete_by_pubkey
delete_by_pubkey-Keeps pubkey = delete_torrents-Keeps _ (by_pubkey pubkey)

pub add_relay-Keeps : (url : Text) → Keeps IsConsistent (add_relay url)
unfolding add_relay
add_relay-Keeps url =
    Keeps-bind _ _ Keeps-now (λ ts.
      relays-Keeps _ _ (λ t u. IsUnique-upsert relay_key (new_relay url ts) _ t (λ x. refl) u))

pub remove_relay-Keeps : (url : Text) → Keeps IsConsistent (remove_relay url)
unfolding remove_relay
remove_relay-Keeps url =
    Keeps-bind _ _ (relays-Keeps _ _ (λ t u. IsUnique-select relay_key _ t u)) (λ n. Keeps-lift _)

pub add_followed-Keeps : (pubkey alias : Text) → Keeps IsConsistent (add_followed pubkey alias)
unfolding add_followed
add_followed-Keeps pubkey alias = Keeps-bind _ _ Keeps-now (λ ts.
    followed-Keeps _ _
      (λ t u. IsUnique-upsert followed_key (new_followed pubkey alias ts) _ t (λ x. refl) u))

pub remove_followed-Keeps : (pubkey : Text) → Keeps IsConsistent (remove_followed pubkey)
unfolding remove_followed
remove_followed-Keeps pubkey =
    Keeps-bind _ _ (followed-Keeps _ _ (λ t u. IsUnique-select followed_key _ t u))
      (λ n. Keeps-lift _)

pub update_last_synced-Keeps :
    (pubkey : Text) (ts : ℤ) → Keeps IsConsistent (update_last_synced pubkey ts)
unfolding update_last_synced
update_last_synced-Keeps pubkey ts =
    followed-Keeps _ _ (λ t u. IsUnique-update followed_key pubkey (mark_synced ts) t (λ x. refl) u)

merge_profile-key : (p x : Profile) → (merge_profile p x).pubkey ≡ x.pubkey
merge_profile-key p x = ground arith

pub upsert_profile-Keeps : (p : Profile) → Keeps IsConsistent (upsert_profile p)
unfolding upsert_profile
upsert_profile-Keeps p = Keeps-statement _ (λ d c.
    let k = c.unique_keys in
    with_keys d c d.relays d.followed (upsert profile_key p (merge_profile p) d.profiles) d.settings
      (
        k.0,
        k.1,
        IsUnique-upsert profile_key p (merge_profile p) d.profiles (merge_profile-key p) k.2,
        k.3,
      ))

pub set_setting-Keeps : (key value : Text) → Keeps IsConsistent (set_setting key value)
unfolding set_setting
set_setting-Keeps key value = Keeps-statement _ (λ d c.
    let k = c.unique_keys in
    with_keys d c d.relays d.followed d.profiles _
      (k.0, k.1, k.2, IsUnique-upsert setting_key _ _ d.settings (λ x. refl) k.3))

pub set_maintenance-Keeps : (on : Bool) → Keeps IsConsistent (set_maintenance on)
unfolding set_maintenance
set_maintenance-Keeps on = set_setting-Keeps _ _

pub upsert_torrent_stats-Keeps :
    (id : Text) (seeders leechers at : ℤ)
    → Keeps IsConsistent (upsert_torrent_stats id seeders leechers at)
unfolding upsert_torrent_stats
upsert_torrent_stats-Keeps id seeders leechers at =
    Keeps-statement _ (λ d c. upsert_stats-IsConsistent d c _)
