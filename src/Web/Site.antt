-- ===== src/Web/Site.antt =====
-- internal/web: what the handlers of the site share. A response is its status and what the template
-- or the encoder is given; the templates are not executed.
use revolution.Prelude.{
  ℕ, ◌-◌, ℤ, pos, lt_int, Text, codes, is_empty, Bool, Option, List, ◌++◌, leb, length, take, drop,
  if◌then◌else◌,
}
use revolution.Store.Db.{Torrent, FtsRow}
use revolution.Store.Search.{TorrentSummary}
use revolution.Nostr.Keys.{Nip19, encode_npub}
use revolution.Config.{Config}
use revolution.Store.Search.{Scan}
use revolution.Web.RateLimit.{Limiter, new_limiter}
use revolution.Web.Helpers.{Label, Age}
use revolution.Web.Markdown.{Renderer}

-- The configuration and the libraries.
pub record Site : Type 0 where
  pub cfg : Config
  pub nip19 : Nip19
  pub renderer : Renderer
  -- FTS5's MATCH
  pub matches : Text → FtsRow → Bool
  -- the order in which SQLite visits the rows of a search
  pub scan : Scan
  -- `time.Unix(ts, 0).Format(time.RFC1123Z)` in the zone of the server
  pub date : ℤ → Text
  -- `path.Clean` of ServeMux, and the decoding of a path segment
  pub clean : Text → Text
  pub unescape : Text → Text
  -- the status of `http.FileServerFS` for a path, and that of ServeMux's redirections
  pub file_status : Text → ℕ
  pub redirect_status : ℕ

pub record Request : Type 0 where
  pub method : Text
  -- `r.URL.Path`, and its form with escapes
  pub path : Text
  pub escaped : Text
  -- `r.URL.Query().Get`
  pub query : Text → Text
  pub remote_addr : Text
  pub host : Text
  pub tls : Bool
  pub forwarded_proto : Text
  -- when it comes in, in nanoseconds since 1970
  pub at : ℕ

pub record ResultView : Type 0 where
  pub summary : TorrentSummary
  pub publisher_label : Text

pub record SearchView : Type 0 where
  pub site_name : Text
  pub search_query : Text
  pub results : List ResultView
  pub page : ℤ
  pub prev_page : ℤ
  pub next_page : ℤ
  pub has_more : Bool
  pub rss_enabled : Bool

-- The counts of a tracker and their age.
pub record StatsView : Type 0 where
  pub seeders : ℤ
  pub leechers : ℤ
  pub stats_age : Age

pub record TorrentView : Type 0 where
  pub site_name : Text
  pub torrent : Torrent
  pub description_html : Text
  pub magnet_url : Text
  pub publisher_name : Text
  pub publisher_picture : Text
  pub publisher_npub : Text
  -- nothing where StatsAvailable is false
  pub stats : Option StatsView

-- What `strings.Join` puts together in the description of an item.
pub record ItemSummary : Type 0 where
  pub size : Label
  pub by : Option Text
  pub counts : Option (ℤ × ℤ)

pub record RssItem : Type 0 where
  pub title : Text
  pub link : Text
  pub guid : Text
  pub pub_date : Text
  pub description : ItemSummary
  pub category : Text

pub record RssFeed : Type 0 where
  pub title : Text
  pub link : Text
  pub description : Text
  pub last_build_date : Text
  pub items : List RssItem

pub data Body : Type 0 where
  search_page : SearchView → Body
  torrent_page : TorrentView → Body
  rss_feed : RssFeed → Body
  -- with the name of the site
  maintenance_page : Text → Body
  error_text : Body
  -- a file under /static/, or its absence
  static_file : Text → Body
  -- ServeMux sends the client to another path
  redirected : Text → Body
  -- the handler panics: the connection is closed
  aborted : Body

pub record Response : Type 0 where
  pub status : ℕ
  pub body : Body

-- The two limiters of `Server`.
pub record Server : Type 0 where
  pub lim : Limiter
  pub rss_lim : Limiter

-- `rssRate := cfg.RSSRateLimitPerMinute; if rssRate <= 0 { rssRate = 12 }`
abbrev pub rate_or_default : ℤ → ℕ
rate_or_default (pos n) = if lt_int (pos 0) (pos n) then n else 12
rate_or_default _ = 12

-- `New`
unfoldable pub new_server : Config → Server
new_server cfg = record {
  lim = new_limiter 20 1000000000;
  rss_lim = new_limiter (rate_or_default cfg.rss_rate_limit_per_minute) 60000000000;
}

-- `shortenNpub`, on ASCII text, where bytes are characters.
unfoldable pub shorten_npub : Text → Text
shorten_npub npub =
    if leb (length npub) 18 then npub else take 10 npub ++ codes "…" ++ drop (length npub - 6) npub

-- A name, or the short form of the key.
unfoldable pub label_or_npub : Nip19 → Text → Text → Text
unfolding shorten_npub
label_or_npub nip19 name pubkey =
    if is_empty name then shorten_npub (encode_npub nip19 pubkey) else name

abbrev pub respond : ℕ → Body → Response
respond status body = record { status = status; body = body }
