-- ===== src/Web/Serve.antt =====
-- internal/web/server.go, `Handler` and `withMiddleware`, with the routes of `http.ServeMux`.
pub mod ReadOnly
pub mod Maintenance
pub mod Published
use revolution.Prelude.{
  ℕ, Text, codes, eq_text, is_empty, Bool, true, false, not, ◌&&◌, ◌||◌, Option, none, some, List,
  [], ◌∷◌, ◌==◌, drop, if◌then◌else◌,
}
use revolution.Store.Exec.{Result, ok, err, M, pure, ◌>>=◌, try}
use revolution.Store.Settings.{is_maintenance}
use revolution.Nostr.Keys.{has_prefix}
use revolution.Web.RateLimit.{Limiter, allow}
use revolution.Web.ClientIp.{client_ip, has}
use revolution.Web.Site.{
  Site, Request, Response, Server, maintenance_page, error_text, static_file, redirected, respond,
}
use revolution.Web.Search.{handle_search}
use revolution.Web.Torrent.{handle_torrent}
use revolution.Web.Rss.{handle_rss}

-- Where ServeMux sends a request.
pub data Route : Type 0 where
  to_search : Route
  to_torrent : Text → Route
  to_rss : Route
  to_static : Text → Route
  to_path : Text → Route
  no_route : Route
  no_method : Route

-- One segment that is not empty: the `{id}` of "/t/{id}".
abbrev pub is_segment : Text → Bool
is_segment s = not (is_empty s) && not (has b'/' s)

-- "/static" is sent to the directory.
abbrev pub slashed : Text → Text
slashed path = if eq_text path (codes "/static") then codes "/static/" else path

module _ (site : Site) where
  -- The pattern that a clean path matches.
  unfoldable pub route_path : Text → Route
  route_path path =
      if eq_text path (codes "/")
      then to_search
      else if eq_text path (codes "/rss.xml")
      then to_rss
      else if has_prefix path (codes "/t/") && is_segment (drop 3 path)
      then to_torrent (site.unescape (drop 3 path))
      else if has_prefix path (codes "/static/")
      then to_static path
      else if eq_text path (codes "/static")
      then to_path (slashed path)
      else no_route

  -- A pattern of GET stands for HEAD too; another method has none.
  abbrev pub for_method : Text → Route → Route
  for_method method no_route = no_route
  for_method method r =
      if eq_text method (codes "GET") || eq_text method (codes "HEAD") then r else no_method

  unfoldable pub route : Request → Route
  unfolding route_path
  route r =
      if eq_text (site.clean r.escaped) r.escaped
      then for_method r.method (route_path r.escaped)
      else to_path (slashed (site.clean r.escaped))

  abbrev pub keeping : Server → M Response → M (Response × Server)
  keeping sv m = do resp ← m; pure (resp, sv)

  abbrev pub handle : Request → Server → Route → M (Response × Server)
  handle r sv to_search = keeping sv (handle_search site r)
  handle r sv (to_torrent id) = keeping sv (handle_torrent site r.at id)
  handle r sv to_rss = handle_rss site r sv
  handle r sv (to_static path) = pure (respond (site.file_status path) (static_file path), sv)
  handle r sv (to_path path) = pure (respond site.redirect_status (redirected path), sv)
  handle r sv no_route = pure (respond 404 error_text, sv)
  handle r sv no_method = pure (respond 405 error_text, sv)

  -- After the test of the maintenance mode.
  unfoldable pub limited : Request → Server → M (Response × Server)
  unfolding route
  limited r sv =
      let (l, passed) = allow r.at (client_ip r.remote_addr) sv.lim in
      if passed
      then handle r (record sv { lim = l }) (route r)
      else pure (respond 429 error_text, record sv { lim = l })

  abbrev pub closed_to : Request → Bool → Bool
  closed_to r on = on && not (has_prefix r.path (codes "/static/"))

  abbrev pub unless_closed : Request → Server → Bool → M (Response × Server)
  unless_closed r sv closed =
      if closed then pure (respond 503 (maintenance_page site.cfg.site_name), sv) else limited r sv

  unfoldable pub serve_request : Request → Server → M (Response × Server)
  unfolding limited
  serve_request r sv = do on ← is_maintenance; unless_closed r sv (closed_to r on)
