-- ===== src/Web/Serve/Published.antt =====
-- The page of a torrent after it is stored and after it is deleted (internal/web/server.go over
-- internal/store/torrents.go).
use revolution.Prelude.{ℕ, ◌≡◌, refl, ap, subst, ◌∙◌, Text, text_eq, eq_text, arith, if◌then◌else◌}
use revolution.Store.Table.{IsUnique}
use revolution.Store.Db.{Torrent}
use revolution.Store.Exec.{Result, ok, err, not_found, World, pure, try}
use revolution.Store.Torrents.{torrent_key, get_torrent, upsert_torrent, delete_torrent}
use revolution.Store.Torrents.Upsert.{NoFault, upsert_torrent-NoFault}
use revolution.Store.Torrents.ReadBack.{stored, loaded, get_torrent_lem, get_torrent-upsert_torrent}
use revolution.Store.Torrents.Deletion.{loaded-delete_id, delete_torrent-NoFault, delete_torrent-db}
use revolution.Store.Accounts.{get_profile}
use revolution.Store.Settings.{get_torrent_stats}
use revolution.Web.Site.{Site, TorrentView, Response, torrent_page, error_text, respond}
use revolution.Web.Torrent.{torrent_view, show_torrent, found_or_error, handle_torrent}

module _ (id j : Text) (w : World) (h : NoFault w) where
  -- What `GetTorrent` returns after `DeleteTorrent`.
  pub get_torrent-delete_torrent :
      IsUnique torrent_key w.db.torrents
      → (get_torrent j (delete_torrent id w).1).0
        ≡ (if eq_text id j then err not_found else (get_torrent j w).0)
  get_torrent-delete_torrent u =
      get_torrent_lem j (delete_torrent id w).1 (delete_torrent-NoFault id w h)
      ∙ ap (loaded j) (delete_torrent-db id w h)
      ∙ loaded-delete_id id w.db j u
      ∙ ground (arith, get_torrent_lem j w h)

module _ (site : Site) (at : ℕ) where
  -- The response for what `GetTorrent` returned.
  abbrev pub Shows : Result Torrent → Result Response → Type 0
  Shows (ok t) res =
      (view : TorrentView) × (res ≡ ok (respond 200 (torrent_page view)))
      × (view.torrent ≡ t)
      × (view.magnet_url ≡ t.magnet)
  Shows (err not_found) res = res ≡ ok (respond 404 error_text)
  Shows (err e) res = res ≡ ok (respond 500 error_text)

  show_torrent-Shows : (t : Torrent) (w : World) → Shows (ok t) (show_torrent site at t w).0
  unfolding try pure torrent_view
  show_torrent-Shows t w =
      let p = get_profile t.pubkey w in
      (torrent_view site at t p.0 (get_torrent_stats t.id p.1).0, refl, refl, refl)

  found_or_error-Shows : (r : Result Torrent) (w : World) → Shows r (found_or_error site at r w).0
  unfolding pure
  found_or_error-Shows (ok t) w = show_torrent-Shows t w
  found_or_error-Shows (err not_found) w = refl
  found_or_error-Shows (err e) w = refl

  -- The page of an id: the torrent that `GetTorrent` returns with the magnet of its row, 404 where there is none,
  -- and 500 where the read failed; a failure to read the profile or the counts does not matter.
  pub handle_torrent-Shows :
      (id : Text) (w : World) → Shows (get_torrent id w).0 (handle_torrent site at id w).0
  unfolding handle_torrent try
  handle_torrent-Shows id w = found_or_error-Shows (get_torrent id w).0 (get_torrent id w).1

  -- With no failing statement, the page of an id after `UpsertTorrent t` and then `DeleteTorrent id`: 404 for the id that is
  -- deleted, the torrent that was just stored for its own id, and for any other what `GetTorrent` returned before.
  pub handle_torrent-published :
      (t : Torrent) (id j : Text) (w : World)
      → NoFault w
      → IsUnique torrent_key (upsert_torrent t w).1.db.torrents
      → Shows
          (if eq_text id j
            then err not_found
            else if eq_text t.id j
            then ok (stored t w.db)
            else (get_torrent j w).0)
          (handle_torrent site at j (delete_torrent id (upsert_torrent t w).1).1).0
  handle_torrent-published t id j w h u =
      let stored_world = (upsert_torrent t w).1 in
      let gone = get_torrent-delete_torrent id j stored_world (upsert_torrent-NoFault t w h) u in
      subst (λ r. Shows r (handle_torrent site at j (delete_torrent id stored_world).1).0)
        (gone
          ∙ ap (λ (r : Result Torrent). if eq_text id j then err not_found else r)
              (get_torrent-upsert_torrent t w j h))
        (handle_torrent-Shows j (delete_torrent id stored_world).1)
