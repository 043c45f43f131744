-- ===== src/Web/Serve/Maintenance.antt =====
-- The maintenance mode, as the command sets it and the site reads it (internal/web/server.go,
-- internal/store/settings.go).
use revolution.Prelude.{◌≡◌, refl, ap, ◌∙◌, codes, Bool, true, false, arith, if◌then◌else◌}
use revolution.Store.Exec.{ok, World, advance, continue, ◌>>=◌, pure, try, query}
use revolution.Store.Torrents.Upsert.{NoFault}
use revolution.Store.Settings.{is_maintenance, set_maintenance, get_setting}
use revolution.Store.Settings.Maintenance.{is_maintenance-set_maintenance}
use revolution.Nostr.Keys.{has_prefix}
use revolution.Web.Site.{Site, Request, Server, maintenance_page, respond}
use revolution.Web.Serve.{limited, closed_to, unless_closed, serve_request}

-- Reading the mode takes one statement, and changes nothing else.
is_maintenance-world : (w : World) → (is_maintenance w).1 ≡ advance w
unfolding is_maintenance get_setting try query pure
is_maintenance-world w = ground arith

module _ (site : Site) (r : Request) (sv : Server) where
  serve_request-known :
      (b : Bool) (w : World)
      → (is_maintenance w).0 ≡ ok b
      → serve_request site r sv w ≡ unless_closed site r sv (closed_to site r b) (advance w)
  unfolding serve_request ◌>>=◌
  serve_request-known b w h =
      ap
        (λ x. continue x (λ on. unless_closed site r sv (closed_to site r on)) (is_maintenance w).1)
        h
      ∙ ap (unless_closed site r sv (closed_to site r b)) (is_maintenance-world w)

  -- After `SetMaintenance`, a request for anything but a static file gets the maintenance page with status 503, and no
  -- limiter counts it, if the mode was set; otherwise the site answers as its limiter and its routes say.
  pub serve_request-set_maintenance :
      (on : Bool) (w : World)
      → NoFault w
      → has_prefix r.path (codes "/static/") ≡ false
      → serve_request site r sv (set_maintenance on w).1 ≡ (
          if on
          then (
            ok (respond 503 (maintenance_page site.cfg.site_name), sv),
            advance (set_maintenance on w).1,
          )
          else limited site r sv (advance (set_maintenance on w).1))
  unfolding pure
  serve_request-set_maintenance true w h page =
      serve_request-known true _ (is_maintenance-set_maintenance true w h) ∙ rw page refl
  serve_request-set_maintenance false w h page =
      serve_request-known false _ (is_maintenance-set_maintenance false w h)
