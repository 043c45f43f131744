-- ===== src/Web/Search.antt =====
-- internal/web/server.go, `handleSearch`.
pub mod Paging
use revolution.Prelude.{
  ℕ, ◌*◌, ◌%◌, ℤ, pos, negsuc, lt_int, add64, word_mod, to_word, of_word, Text, codes, trim_space,
  Bool, Option, none, some, List, map, length, ◌==◌, if◌then◌else◌,
}
use revolution.Store.Exec.{Result, ok, err, M, pure, ◌>>=◌, try}
use revolution.Store.Search.{TorrentSummary, search}
use revolution.Nostr.ParseInt.{parse_int}
use revolution.Web.Site.{
  Site, Request, ResultView, SearchView, Response, search_page, error_text, respond, label_or_npub,
}

abbrev pub page_size : ℕ
page_size = 30

-- `if p, err := strconv.Atoi(…); err == nil && p > 0 { page = p }`
abbrev pub page_or_first : Option ℤ → ℤ
page_or_first none = pos 0
page_or_first (some p) = if lt_int (pos 0) p then p else pos 0

abbrev pub page_of : Request → ℤ
page_of r = page_or_first (parse_int (r.query (codes "page")))

-- `page*pageSize` on `int`, which wraps.
unfoldable pub page_start : ℤ → ℤ
page_start page = of_word (to_word page * page_size % word_mod)

module _ (site : Site) where
  abbrev pub result_view : TorrentSummary → ResultView
  result_view t = record {
    summary = t;
    publisher_label = label_or_npub site.nip19 t.publisher_name t.pubkey;
  }

  unfoldable pub search_view : Text → ℤ → List TorrentSummary → SearchView
  search_view q page results = record {
    site_name = site.cfg.site_name;
    search_query = q;
    results = map result_view results;
    page = page;
    prev_page = add64 page (negsuc 0);
    next_page = add64 page (pos 1);
    has_more = length results == page_size;
    rss_enabled = site.cfg.rss_enabled;
  }

  abbrev pub show_results : Text → ℤ → Result (List TorrentSummary) → M Response
  show_results q page (ok results) = pure (respond 200 (search_page (search_view q page results)))
  show_results q page (err e) = pure (respond 500 error_text)

  unfoldable pub handle_search : Request → M Response
  unfolding page_start search_view
  handle_search r =
      let q = trim_space (r.query (codes "q")) in
      let page = page_of r in
      try (search site.matches site.scan q (pos page_size) (page_start page)) (show_results q page)
