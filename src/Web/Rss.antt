-- ===== src/Web/Rss.antt =====
-- internal/web/rss.go
pub mod Items
use revolution.Prelude.{
  ◌/◌, ℕ, ℤ, pos, lt_int, Text, codes, eq_text, is_empty, Bool, ◌||◌, Option, none, some, List, [],
  ◌∷◌, ◌++◌, if◌then◌else◌,
}
use revolution.Store.Exec.{Result, ok, err, M, pure, ◌>>=◌, try}
use revolution.Store.Search.{TorrentSummary, search}
use revolution.Web.RateLimit.{Limiter, allow}
use revolution.Web.Helpers.{Label, human_size, second}
use revolution.Web.ClientIp.{client_ip}
use revolution.Web.Site.{
  Site, Request, ItemSummary, RssItem, RssFeed, Response, Server, rss_feed, error_text, aborted,
  respond,
}

-- `requestBaseURL`
unfoldable pub request_base_url : Request → Text
request_base_url r =
    (if r.tls || eq_text r.forwarded_proto (codes "https") then codes "https" else codes "http")
    ++ codes "://"
    ++ r.host

abbrev pub summary_with : TorrentSummary → Option Label → Option ItemSummary
summary_with t none = none
summary_with t (some size) = some (record {
  size = size;
  by = if is_empty t.publisher_name then none else some t.publisher_name;
  counts = if t.has_stats then some (t.seeders, t.leechers) else none;
})

-- `rssItemSummary`; nothing is a panic, of `humanSize`.
unfoldable pub rss_item_summary : TorrentSummary → Option ItemSummary
rss_item_summary t = summary_with t (human_size t.size_bytes)

-- `if maxItems <= 0 { maxItems = 50 }`
abbrev pub max_items : ℤ → ℤ
max_items n = if lt_int (pos 0) n then n else pos 50

module _ (site : Site) where
  abbrev pub item_with : Text → TorrentSummary → Option ItemSummary → Option RssItem
  item_with base t none = none
  item_with base t (some d) =
      let link = base ++ codes "/t/" ++ t.id in
      some (record {
        title = t.title;
        link = link;
        guid = link;
        pub_date = site.date t.published_at;
        description = d;
        category = t.category;
      })

  abbrev pub add_item : Option RssItem → Option (List RssItem) → Option (List RssItem)
  add_item (some i) (some rest) = some (i ∷ rest)
  add_item _ _ = none

  -- The loop over the results, which a panic ends.
  unfoldable pub rss_items : Text → List TorrentSummary → Option (List RssItem)
  unfolding rss_item_summary
  rss_items base [] = some []
  rss_items base (t ∷ ts) = add_item (item_with base t (rss_item_summary t)) (rss_items base ts)

  abbrev pub feed_with : Request → Option (List RssItem) → Response
  feed_with r none = respond 200 aborted
  feed_with r (some items) = respond 200 (
      rss_feed (record {
        title = site.cfg.site_name ++ codes " — derniers torrents";
        link = request_base_url r ++ codes "/";
        description = codes "Derniers torrents indexés par " ++ site.cfg.site_name;
        last_build_date = site.date (pos (r.at / second));
        items = items;
      }))

  abbrev pub show_feed : Request → Result (List TorrentSummary) → M Response
  show_feed r (err e) = pure (respond 500 error_text)
  show_feed r (ok results) = pure (feed_with r (rss_items (request_base_url r) results))

  unfoldable pub serve_feed : Request → M Response
  unfolding rss_items request_base_url
  serve_feed r =
      try (search site.matches site.scan [] (max_items site.cfg.rss_max_items) (pos 0))
        (show_feed r)

  abbrev pub feed_if : Bool → Request → M Response
  feed_if passed r = if passed then serve_feed r else pure (respond 429 error_text)

  unfoldable pub handle_rss : Request → Server → M (Response × Server)
  unfolding serve_feed
  handle_rss r sv =
      if site.cfg.rss_enabled
      then (let (l, passed) = allow r.at (client_ip r.remote_addr) sv.rss_lim in
          do resp ← feed_if passed r; pure (resp, record sv { rss_lim = l }))
      else pure (respond 404 error_text, sv)
