-- ===== src/Web/Torrent.antt =====
-- internal/web/server.go, `handleTorrent`.
use revolution.Prelude.{ℕ, Text, is_empty, Option, none, some, [], if◌then◌else◌}
use revolution.Store.Db.{Torrent, Profile}
use revolution.Store.Exec.{Error, Result, ok, err, not_found, M, pure, try}
use revolution.Store.Torrents.{get_torrent}
use revolution.Store.Accounts.{get_profile}
use revolution.Store.Settings.{TorrentStats, get_torrent_stats}
use revolution.Nostr.Keys.{encode_npub}
use revolution.Web.Helpers.{fmt_age}
use revolution.Web.Markdown.{render_description}
use revolution.Web.Site.{
  Site, TorrentView, StatsView, Response, torrent_page, error_text, respond, label_or_npub,
}

-- What the profile gives instead of the short key: the display name, or else the name.
abbrev pub profile_name : Profile → Text
profile_name p = if is_empty p.display_name then p.name else p.display_name

abbrev pub name_of : Result Profile → Text
name_of (ok p) = profile_name p
name_of (err e) = []

abbrev pub picture_of : Result Profile → Text
picture_of (ok p) = p.picture
picture_of (err e) = []

-- Counts, where there are any.
abbrev pub stats_view : ℕ → Result TorrentStats → Option StatsView
stats_view at (ok s) =
    some
      (record { seeders = s.seeders; leechers = s.leechers; stats_age = fmt_age at s.scraped_at })
stats_view at (err e) = none

module _ (site : Site) (at : ℕ) where
  unfoldable pub torrent_view : Torrent → Result Profile → Result TorrentStats → TorrentView
  torrent_view t p stats = record {
    site_name = site.cfg.site_name;
    torrent = t;
    description_html = render_description site.renderer t.description;
    magnet_url = t.magnet;
    publisher_name = label_or_npub site.nip19 (name_of p) t.pubkey;
    publisher_picture = picture_of p;
    publisher_npub = encode_npub site.nip19 t.pubkey;
    stats = stats_view at stats;
  }

  abbrev pub show_torrent : Torrent → M Response
  show_torrent t = try (get_profile t.pubkey) (λ p.
      try (get_torrent_stats t.id)
        (λ stats. pure (respond 200 (torrent_page (torrent_view t p stats)))))

  -- `errors.Is(err, store.ErrNotFound)`
  abbrev pub status_of : Error → ℕ
  status_of not_found = 404
  status_of _ = 500

  abbrev pub found_or_error : Result Torrent → M Response
  found_or_error (ok t) = show_torrent t
  found_or_error (err e) = pure (respond (status_of e) error_text)

  unfoldable pub handle_torrent : Text → M Response
  unfolding torrent_view
  handle_torrent id = try (get_torrent id) found_or_error
