-- ===== src/Store/Consistent/Catalogue/Refined.antt =====
-- The tables of internal/store against the map, after any calls.
use revolution.Prelude.{◌≡◌, refl, ap, ◌∙◌, fun_ext, text_eq, List, [], ◌∷◌, Bool-cases, inl, inr}
use revolution.Store.Exec.{World}
use revolution.Store.Consistent.{IsConsistent}
use revolution.Store.Consistent.Calls.{
  Call, upsert_torrent_call, delete_torrent_call, update_torrent_fields_call, delete_by_pubkey_call,
  add_relay_call, remove_relay_call, add_followed_call, remove_followed_call,
  update_last_synced_call, upsert_profile_call, set_setting_call, set_maintenance_call,
  upsert_torrent_stats_call, after, after_all, after-IsConsistent,
}
use revolution.Store.Consistent.Catalogue.{returns, returned, carry_out_all, catalogue, Refines}
use revolution.Store.Consistent.Catalogue.Torrents.{
  upsert_torrent-Refines, delete_torrent-Refines, update_torrent_fields-Refines,
  delete_by_pubkey-Refines,
}
use revolution.Store.Consistent.Catalogue.Others.{
  Stays-world, add_relay-Stays, remove_relay-Stays, add_followed-Stays, remove_followed-Stays,
  update_last_synced-Stays, upsert_profile-Stays, set_setting-Stays, set_maintenance-Stays,
  upsert_torrent_stats-Stays,
}

after-Refines : (c : Call) (w : World) → IsConsistent w.db → Refines c w
after-Refines (upsert_torrent_call t) w h j = upsert_torrent-Refines t w j
after-Refines (delete_torrent_call id) w h j = delete_torrent-Refines id w h.unique_ids j
after-Refines (update_torrent_fields_call id title category) w h j =
    update_torrent_fields-Refines id title category w j
after-Refines (delete_by_pubkey_call pubkey) w h j =
    delete_by_pubkey-Refines pubkey w h.unique_ids j
after-Refines (add_relay_call url) w h j = Stays-world _ _ w j (add_relay-Stays url)
after-Refines (remove_relay_call url) w h j = Stays-world _ _ w j (remove_relay-Stays url)
after-Refines (add_followed_call pubkey alias) w h j =
    Stays-world _ _ w j (add_followed-Stays pubkey alias)
after-Refines (remove_followed_call pubkey) w h j =
    Stays-world _ _ w j (remove_followed-Stays pubkey)
after-Refines (update_last_synced_call pubkey ts) w h j =
    Stays-world _ _ w j (update_last_synced-Stays pubkey ts)
after-Refines (upsert_profile_call p) w h j = Stays-world _ _ w j (upsert_profile-Stays p)
after-Refines (set_setting_call key value) w h j = Stays-world _ _ w j (set_setting-Stays key value)
after-Refines (set_maintenance_call on) w h j = Stays-world _ _ w j (set_maintenance-Stays on)
after-Refines (upsert_torrent_stats_call id s l at) w h j =
    Stays-world _ _ w j (upsert_torrent_stats-Stays id s l at)

-- After any calls of the writing methods of `Store`, with any pattern of failing statements, on a
-- consistent catalogue, the tables hold under each id what the calls that return make, one after
-- the other, of the map from ids to torrents that the tables held before: a torrent put in place
-- of what its id had, with the publisher that the id had first; an id removed; a title and a
-- category replaced; all torrents of a publisher removed; and nothing for the calls that concern
-- relays, accounts, profiles, settings and counts. A call that fails makes nothing of it.
pub after_all-catalogue :
    (cs : List Call) (w : World)
    → IsConsistent w.db
    → catalogue (after_all cs w).db ≡ carry_out_all (returned cs w) (catalogue w.db)
after_all-catalogue [] w h = refl
after_all-catalogue (c ∷ cs) w h =
    after_all-catalogue cs (after c w) (after-IsConsistent c w h)
    ∙ elim (Bool-cases (returns c w)) [
      | inl done ↦ rw done (
          ap (carry_out_all (returned cs (after c w)))
            (fun_ext (λ j. after-Refines c w h j ∙ rw done refl)))
      | inr failed ↦ rw failed (
          ap (carry_out_all (returned cs (after c w)))
            (fun_ext (λ j. after-Refines c w h j ∙ rw failed refl)))
    ]
