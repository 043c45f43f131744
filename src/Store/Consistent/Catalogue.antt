-- ===== src/Store/Consistent/Catalogue.antt =====
-- internal/store as a map: the torrent that each id has, or none, and what each call makes of it.
pub mod Torrents
pub mod Others
pub mod Refined
pub mod Reads
use revolution.Prelude.{
  ℕ, ◌+◌, ◌≡◌, refl, sym, ap, ◌∙◌, fun_ext, ℤ, Text, text_eq, eq_text, Bool, true, false, Option,
  none, some, ◌⊎◌, List, [], ◌∷◌, ◌==◌, ==_iff, arith, if◌then◌else◌, Bool-cases, Option-cases, inl,
  inr,
}
use revolution.Store.Table.{find, IsUnique, affected}
use revolution.Store.Db.{Db, Torrent, TorrentRow, Profile}
use revolution.Store.Exec.{Result, ok, err, not_found, World, M, ◌>>=◌, statement, lift, now}
use revolution.Store.Exec.Keeps.{Keeps, Keeps-statement, Keeps-bind, Keeps-now, Keeps-lift}
use revolution.Store.Torrents.{
  torrent_key, upsert_torrent, delete_torrent, update_torrent_fields, delete_by_pubkey, by_pubkey,
  delete_torrents, edit_torrent, files_of, require_rows,
}
use revolution.Store.Torrents.Upsert.{write_torrent, upsert_torrent-AllOrNothing}
use revolution.Store.Torrents.ReadBack.{loaded, load_found, owner, stored, loaded-write_torrent}
use revolution.Store.Torrents.Deletion.{spare, loaded-delete_torrents, loaded-delete_id}
use revolution.Store.Torrents.Missing.{delete_torrents_none, edit_torrent_none}
use revolution.Store.Torrents.Retitled.{retitled, loaded-edit_torrent}
use revolution.Store.Relays.{add_relay, remove_relay}
use revolution.Store.Accounts.{add_followed, remove_followed, update_last_synced, upsert_profile}
use revolution.Store.Settings.{set_setting, set_maintenance, upsert_torrent_stats}
use revolution.Store.Consistent.{IsConsistent}
use revolution.Store.Consistent.Calls.{
  Call, upsert_torrent_call, delete_torrent_call, update_torrent_fields_call, delete_by_pubkey_call,
  add_relay_call, remove_relay_call, add_followed_call, remove_followed_call,
  update_last_synced_call, upsert_profile_call, set_setting_call, set_maintenance_call,
  upsert_torrent_stats_call, after, after_all, after-IsConsistent,
}

-- The torrent of each id, whole, or why there is none.
abbrev pub Catalogue : Type 0
Catalogue = Text → Result Torrent

-- The publisher of what an id holds, or of the torrent that is to be its first.
abbrev pub publisher : Torrent → Result Torrent → Text
publisher t (ok old) = old.pubkey
publisher t (err e) = t.pubkey

abbrev pub unless_by : Text → Result Torrent → Result Torrent
unless_by pubkey (ok t) = if eq_text t.pubkey pubkey then err not_found else ok t
unless_by pubkey (err e) = err e

-- What a call that returns makes of the map.
abbrev pub carry_out : Call → Catalogue → Catalogue
carry_out (upsert_torrent_call t) m j =
    if eq_text t.id j then ok (record t { pubkey = publisher t (m t.id) }) else m j
carry_out (delete_torrent_call id) m j = if eq_text id j then err not_found else m j
carry_out (update_torrent_fields_call id title category) m j =
    if eq_text id j then retitled title category (m j) else m j
carry_out (delete_by_pubkey_call pubkey) m j = unless_by pubkey (m j)
carry_out _ m j = m j

abbrev pub is_ok : {A : Type 0} → Result A → Bool
is_ok (ok a) = true
is_ok (err e) = false

-- Whether a call returns, and not with an error.
abbrev pub returns : Call → World → Bool
returns (upsert_torrent_call t) w = is_ok (upsert_torrent t w).0
returns (delete_torrent_call id) w = is_ok (delete_torrent id w).0
returns (update_torrent_fields_call id title category) w =
    is_ok (update_torrent_fields id title category w).0
returns (delete_by_pubkey_call pubkey) w = is_ok (delete_by_pubkey pubkey w).0
returns (add_relay_call url) w = is_ok (add_relay url w).0
returns (remove_relay_call url) w = is_ok (remove_relay url w).0
returns (add_followed_call pubkey alias) w = is_ok (add_followed pubkey alias w).0
returns (remove_followed_call pubkey) w = is_ok (remove_followed pubkey w).0
returns (update_last_synced_call pubkey ts) w = is_ok (update_last_synced pubkey ts w).0
returns (upsert_profile_call p) w = is_ok (upsert_profile p w).0
returns (set_setting_call key value) w = is_ok (set_setting key value w).0
returns (set_maintenance_call on) w = is_ok (set_maintenance on w).0
returns (upsert_torrent_stats_call id s l at) w = is_ok (upsert_torrent_stats id s l at w).0

-- The calls of a run that return.
abbrev pub returned : List Call → World → List Call
returned [] w = []
returned (c ∷ cs) w = if returns c w then c ∷ returned cs (after c w) else returned cs (after c w)

abbrev pub carry_out_all : List Call → Catalogue → Catalogue
carry_out_all [] m = m
carry_out_all (c ∷ cs) m = carry_out_all cs (carry_out c m)

abbrev pub catalogue : Db → Catalogue
catalogue db j = loaded j db

-- The map after a call, for each way in which it ends.
abbrev pub Refines : Call → World → Type 0
Refines c w =
    (j : Text)
    → catalogue (after c w).db j
      ≡ (if returns c w then carry_out c (catalogue w.db) j else catalogue w.db j)
