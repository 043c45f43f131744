-- ===== src/Store/Consistent/Calls.antt =====
-- Any sequence of calls of the methods of `Store` that write.
use revolution.Prelude.{ℤ, Text, Bool, List, [], ◌∷◌}
use revolution.Store.Db.{Torrent, Profile}
use revolution.Store.Exec.{World}
use revolution.Store.Torrents.{
  upsert_torrent, delete_torrent, update_torrent_fields, delete_by_pubkey,
}
use revolution.Store.Relays.{add_relay, remove_relay}
use revolution.Store.Accounts.{add_followed, remove_followed, update_last_synced, upsert_profile}
use revolution.Store.Settings.{set_setting, set_maintenance, upsert_torrent_stats}
use revolution.Store.Consistent.{IsConsistent}
use revolution.Store.Consistent.Methods.{
  add_followed-Keeps, add_relay-Keeps, delete_by_pubkey-Keeps, delete_torrent-Keeps,
  remove_followed-Keeps, remove_relay-Keeps, set_maintenance-Keeps, set_setting-Keeps,
  update_last_synced-Keeps, update_torrent_fields-Keeps, upsert_profile-Keeps, upsert_torrent-Keeps,
  upsert_torrent_stats-Keeps,
}

-- A call of a method that writes.
pub data Call : Type 0 where
  upsert_torrent_call : Torrent → Call
  delete_torrent_call : Text → Call
  update_torrent_fields_call : Text → Text → Text → Call
  delete_by_pubkey_call : Text → Call
  add_relay_call remove_relay_call : Text → Call
  add_followed_call : Text → Text → Call
  remove_followed_call : Text → Call
  update_last_synced_call : Text → ℤ → Call
  upsert_profile_call : Profile → Call
  set_setting_call : Text → Text → Call
  set_maintenance_call : Bool → Call
  upsert_torrent_stats_call : Text → ℤ → ℤ → ℤ → Call

-- The world that a call leaves; its result, or its error, goes to the caller.
abbrev pub after : Call → World → World
after (upsert_torrent_call t) w = (upsert_torrent t w).1
after (delete_torrent_call id) w = (delete_torrent id w).1
after (update_torrent_fields_call id title category) w =
    (update_torrent_fields id title category w).1
after (delete_by_pubkey_call pubkey) w = (delete_by_pubkey pubkey w).1
after (add_relay_call url) w = (add_relay url w).1
after (remove_relay_call url) w = (remove_relay url w).1
after (add_followed_call pubkey alias) w = (add_followed pubkey alias w).1
after (remove_followed_call pubkey) w = (remove_followed pubkey w).1
after (update_last_synced_call pubkey ts) w = (update_last_synced pubkey ts w).1
after (upsert_profile_call p) w = (upsert_profile p w).1
after (set_setting_call key value) w = (set_setting key value w).1
after (set_maintenance_call on) w = (set_maintenance on w).1
after (upsert_torrent_stats_call id s l at) w = (upsert_torrent_stats id s l at w).1

abbrev pub after_all : List Call → World → World
after_all [] w = w
after_all (c ∷ cs) w = after_all cs (after c w)

pub after-IsConsistent : (c : Call) (w : World) → IsConsistent w.db → IsConsistent (after c w).db
after-IsConsistent (upsert_torrent_call t) = (upsert_torrent-Keeps t).at
after-IsConsistent (delete_torrent_call id) = (delete_torrent-Keeps id).at
after-IsConsistent (update_torrent_fields_call id title category) =
    (update_torrent_fields-Keeps id title category).at
after-IsConsistent (delete_by_pubkey_call pubkey) = (delete_by_pubkey-Keeps pubkey).at
after-IsConsistent (add_relay_call url) = (add_relay-Keeps url).at
after-IsConsistent (remove_relay_call url) = (remove_relay-Keeps url).at
after-IsConsistent (add_followed_call pubkey alias) = (add_followed-Keeps pubkey alias).at
after-IsConsistent (remove_followed_call pubkey) = (remove_followed-Keeps pubkey).at
after-IsConsistent (update_last_synced_call pubkey ts) = (update_last_synced-Keeps pubkey ts).at
after-IsConsistent (upsert_profile_call p) = (upsert_profile-Keeps p).at
after-IsConsistent (set_setting_call key value) = (set_setting-Keeps key value).at
after-IsConsistent (set_maintenance_call on) = (set_maintenance-Keeps on).at
after-IsConsistent (upsert_torrent_stats_call id s l at) = (upsert_torrent_stats-Keeps id s l at).at

-- After any sequence of calls of the writing methods of `Store`, with any pattern of failing
-- statements, a catalogue that was consistent is consistent: keys unique, the search index equal
-- to the rows as a multiset, every file and every count owned by a torrent that is there.
pub after_all-IsConsistent :
    (cs : List Call) (w : World) → IsConsistent w.db → IsConsistent (after_all cs w).db
after_all-IsConsistent [] w h = h
after_all-IsConsistent (c ∷ cs) w h =
    after_all-IsConsistent cs (after c w) (after-IsConsistent c w h)
