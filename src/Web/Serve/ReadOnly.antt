-- ===== src/Web/Serve/ReadOnly.antt =====
-- The site against the tables: it reads them (internal/web).
use revolution.Prelude.{ℤ, Text, ◌∙◌, ◌≡◌, refl, List, [], ◌∷◌}
use revolution.Store.Db.{Torrent}
use revolution.Store.Exec.{Result, ok, err, World, M}
use revolution.Store.Exec.Keeps.{Keeps-pure, Keeps-bind, Keeps-try, Keeps-query, keeps_rules}
use revolution.Store.Exec.Failing.{Reads}
use revolution.Store.Torrents.{get_torrent}
use revolution.Store.Accounts.{get_profile}
use revolution.Store.Settings.{get_setting, get_torrent_stats, is_maintenance}
use revolution.Store.Search.{TorrentSummary}
use revolution.Ingest.Sync.Kept.{Keeps-if}
use revolution.Web.Site.{Site, Request, Response, Server}
use revolution.Web.Search.{show_results, handle_search}
use revolution.Web.Torrent.{show_torrent, found_or_error, handle_torrent}
use revolution.Web.Rss.{show_feed, serve_feed, handle_rss}
use revolution.Web.Serve.{
  Route, to_search, to_torrent, to_rss, to_static, to_path, no_route, no_method, keeping, handle,
  limited, serve_request, route,
}

module _ (site : Site) (r : Request) where
  show_results-Reads :
      (q : Text) (page : ℤ) (results : Result (List TorrentSummary))
      → Reads (show_results site q page results)
  show_results-Reads q page (ok ts) b = Keeps-pure _
  show_results-Reads q page (err e) b = Keeps-pure _

  handle_search-Reads : Reads (handle_search site r)
  unfolding handle_search revolution.Store.Search.search
  handle_search-Reads b = Keeps-try _ _ (Keeps-query _) (λ x. show_results-Reads _ _ x b)

  show_torrent-Reads : (t : Torrent) → Reads (show_torrent site r.at t)
  unfolding get_profile get_torrent_stats
  show_torrent-Reads t b = search keeps_rules

  found_or_error-Reads : (x : Result Torrent) → Reads (found_or_error site r.at x)
  found_or_error-Reads (ok t) b = show_torrent-Reads t b
  found_or_error-Reads (err e) b = Keeps-pure _

  handle_torrent-Reads : (id : Text) → Reads (handle_torrent site r.at id)
  unfolding handle_torrent get_torrent
  handle_torrent-Reads id b = Keeps-try _ _ (search keeps_rules) (λ x. found_or_error-Reads x b)

  show_feed-Reads : (x : Result (List TorrentSummary)) → Reads (show_feed site r x)
  show_feed-Reads (ok ts) b = Keeps-pure _
  show_feed-Reads (err e) b = Keeps-pure _

  serve_feed-Reads : Reads (serve_feed site r)
  unfolding serve_feed revolution.Store.Search.search
  serve_feed-Reads b = Keeps-try _ _ (Keeps-query _) (λ x. show_feed-Reads x b)

  handle_rss-Reads : (sv : Server) → Reads (handle_rss site r sv)
  unfolding handle_rss
  handle_rss-Reads sv b =
      Keeps-if _ _ _ _
        (Keeps-bind _ _ (Keeps-if _ _ _ _ (serve_feed-Reads b) (Keeps-pure _)) (λ x. Keeps-pure _))
        (Keeps-pure _)

  keeping-Reads : (sv : Server) (m : M Response) → Reads m → Reads (keeping site sv m)
  keeping-Reads sv m h b = Keeps-bind _ _ (h b) (λ x. Keeps-pure _)

  handle-Reads : (sv : Server) (to : Route) → Reads (handle site r sv to)
  handle-Reads sv to_search b = keeping-Reads sv _ handle_search-Reads b
  handle-Reads sv (to_torrent id) b = keeping-Reads sv _ (handle_torrent-Reads id) b
  handle-Reads sv to_rss b = handle_rss-Reads sv b
  handle-Reads sv (to_static path) b = Keeps-pure _
  handle-Reads sv (to_path path) b = Keeps-pure _
  handle-Reads sv no_route b = Keeps-pure _
  handle-Reads sv no_method b = Keeps-pure _

  limited-Reads : (sv : Server) → Reads (limited site r sv)
  unfolding limited
  limited-Reads sv b = Keeps-if _ _ _ _ (handle-Reads _ (route site r) b) (Keeps-pure _)

  serve_request-Reads : (sv : Server) → Reads (serve_request site r sv)
  unfolding serve_request is_maintenance get_setting
  serve_request-Reads sv b =
      Keeps-bind _ _ (search keeps_rules)
        (λ on. Keeps-if _ _ _ _ (Keeps-pure _) (limited-Reads sv b))

-- The sequence of requests that a site answers, each with the limiters that the one before left.
abbrev pub served : Server → Result (Response × Server) → Server
served sv (ok (resp, next)) = next
served sv (err e) = sv

unfoldable pub serve_all : Site → List Request → Server → World → World
serve_all site [] sv w = w
serve_all site (r ∷ rs) sv w =
    let (res, w') = serve_request site r sv w in serve_all site rs (served sv res) w'

-- No sequence of requests changes a table, whatever they ask for and whichever statements fail.
pub serve_all-db :
    (site : Site) (rs : List Request) (sv : Server) (w : World) → (serve_all site rs sv w).db ≡ w.db
unfolding serve_all
serve_all-db site [] sv w = refl
serve_all-db site (r ∷ rs) sv w =
    let (res, w') = serve_request site r sv w in
    serve_all-db site rs (served sv res) w' ∙ (serve_request-Reads site r sv w.db).at w refl
