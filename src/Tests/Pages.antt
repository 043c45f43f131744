-- ===== src/Tests/Pages.antt =====
-- internal/web on the catalogue of the commands.
use revolution.Prelude.{
  trim_space, ◌≡◌, refl, pos, Text, text_eq, codes, eq_text, true, false, Option, none, List, [],
  ◌∷◌, map, length, min, if◌then◌else◌, arith,
}
use revolution.Store.Exec.{World, ok, err, not_found, advance, now, statement, transaction, ◌>>=◌}
use revolution.Store.Torrents.{
  get_torrent, upsert_torrent, delete_torrent, upsert_body, upsert_row, insert_files,
}
use revolution.Store.Torrents.ReadBack.{stored}
use revolution.Store.Order.{sort_by}
use revolution.Store.Search.{summary}
use revolution.Store.Relays.{add_relay}
use revolution.Store.Accounts.{add_followed}
use revolution.Store.Consistent.Calls.{upsert_torrent_call, after_all-IsConsistent}
use revolution.Config.{default_config}
use revolution.Nostr.ParseInt.{parse_int}
use revolution.Web.Markdown.{Renderer}
use revolution.Web.Site.{
  Site, Request, SearchView, RssItem, search_page, maintenance_page, respond, new_server,
}
use revolution.Web.Search.{page_of, result_view, handle_search}
use revolution.Store.Search.{candidates}
use revolution.Store.Search.Pages.{DifferentTimes}
use revolution.Web.Search.Paging.{rows, MoreOrAll, handle_search-MoreOrAll}
use revolution.Web.Torrent.{handle_torrent}
use revolution.Web.Rss.{request_base_url, feed_with, serve_feed}
use revolution.Web.Rss.Items.{
  Sizes64, feed_limit, feed_rows, ItemsFor, all_units, serve_feed-ItemsFor,
}
use revolution.Web.Serve.{limited, serve_request}
use revolution.Program.Closing.{switch, serve_request-maintenance}
use revolution.Cli.Run.{run}
use revolution.Web.Serve.Published.{Shows, handle_torrent-published}
use revolution.Web.Serve.ReadOnly.{serve_all, serve_all-db}
use revolution.Tests.Catalogue.{scan, film, quiet, flaky, quiet-NoFault}
use revolution.Tests.Keys.{keys}
use revolution.Tests.Commands.{library, library-IsConsistent, setup, scraper, day, loads}
use revolution.Tests.Processes.{machine}

abbrev renderer : Renderer
renderer = record { convert = λ md. none; sanitize = λ html. html }

abbrev site : Site
site = record {
  cfg = default_config;
  nip19 = keys;
  renderer = renderer;
  matches = λ q f. true;
  scan = scan;
  date = λ ts. codes "date";
  clean = λ path. path;
  unescape = λ id. id;
  file_status = λ path. 200;
  redirect_status = 307;
}

abbrev get : Text → Request
get path = record {
  method = codes "GET";
  path = path;
  escaped = path;
  query = λ key. [];
  remote_addr = codes "[::1]:4000";
  host = codes "example.org";
  tls = false;
  forwarded_proto = codes "https";
  at = 5;
}

serve_all-db_example :
    (serve_all site
      (get (codes "/") ∷ get (codes "/t/t1") ∷ get (codes "/rss.xml") ∷ [])
      (new_server default_config)
      (flaky library)).db
    ≡ library
serve_all-db_example =
    serve_all-db site (get (codes "/") ∷ get (codes "/t/t1") ∷ get (codes "/rss.xml") ∷ [])
      (new_server default_config) (flaky library)

handle_torrent-published_example :
    Shows site 5
      (if eq_text (codes "t2") (codes "t1")
        then err not_found
        else if eq_text film.id (codes "t1")
        then ok (stored film library)
        else (get_torrent (codes "t1") (quiet library)).0)
      (handle_torrent site 5
        (codes "t1")
        (delete_torrent (codes "t2") (upsert_torrent film (quiet library)).1).1).0
handle_torrent-published_example =
    handle_torrent-published site 5 film (codes "t2") (codes "t1") (quiet library)
      (quiet-NoFault library)
      (after_all-IsConsistent (upsert_torrent_call film ∷ []) (quiet library)
        library-IsConsistent).unique_ids

first_page : page_of (get (codes "/")) ≡ pos 0
unfolding parse_int
first_page = refl

one_time : DifferentTimes (candidates site.matches (trim_space []) library)
unfolding trim_space add_relay add_followed upsert_torrent upsert_body upsert_row insert_files
    transaction statement ◌>>=◌ now eq_text
one_time = (tt, tt)

handle_search-MoreOrAll_example :
    (view : SearchView) × ((handle_search site (get (codes "/")) (quiet library)).0
      ≡ ok (respond 200 (search_page view)))
    × (view.results
        ≡ map
            (result_view site)
            (map (summary library) (rows site (get (codes "/")) 0 (quiet library))))
    × MoreOrAll site (get (codes "/")) 0 (quiet library) view.has_more
handle_search-MoreOrAll_example =
    handle_search-MoreOrAll site (get (codes "/")) 0 (quiet library) (quiet-NoFault library)
      first_page (omega arith) one_time

library_sizes : Sizes64 (map (summary library) (feed_rows site library))
unfolding add_relay add_followed upsert_torrent upsert_body upsert_row insert_files transaction
    statement ◌>>=◌ now eq_text sort_by
library_sizes = (omega arith, tt)

serve_feed-ItemsFor_example :
    (length (feed_rows site library)
      ≡ min (feed_limit default_config.rss_max_items) (length library.torrents))
    × (items : Option (List RssItem)) × ((serve_feed site
          (get (codes "/rss.xml"))
          (quiet library)).0
        ≡ ok (feed_with site (get (codes "/rss.xml")) items))
    × ItemsFor site
        (request_base_url (get (codes "/rss.xml")))
        (map (summary library) (feed_rows site library))
        (all_units (map (summary library) (feed_rows site library)))
        items
serve_feed-ItemsFor_example =
    serve_feed-ItemsFor site (get (codes "/rss.xml")) (quiet library) (quiet-NoFault library)
      library_sizes

-- The catalogue after `revolution maintenance on`.
abbrev closed : World
closed =
    (run setup (λ timeout. scraper) day (codes "maintenance" ∷ switch true ∷ [])
      (quiet library, machine)).1.0

serve_request-maintenance_example :
    serve_request site (get (codes "/t/t1")) (new_server default_config) closed ≡ (
      if true
      then (
        ok (respond 503 (maintenance_page default_config.site_name), new_server default_config),
        advance closed,
      )
      else limited site (get (codes "/t/t1")) (new_server default_config) (advance closed))
serve_request-maintenance_example =
    serve_request-maintenance setup default_config loads (quiet library) (quiet-NoFault library)
      (λ timeout. scraper) day machine true site (get (codes "/t/t1")) (new_server default_config)
      refl
