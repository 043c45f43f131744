-- ===== src/Web/Rss/Items.antt =====
-- How many items the feed has, and when it breaks off (internal/web/rss.go).
use revolution.Prelude.{
  ℕ, ◌^◌, ◌≤◌, ◌<◌, ◌≡◌, refl, ap, ap₂, subst, ◌++◌, ◌∙◌, ℤ, pos, negsuc, Text, text_eq, codes,
  Bool, true, false, Option, none, some, List, [], ◌∷◌, map, ◌==◌, length, length-take, min, inl,
  inr, Bool-cases, arith, ltb, ◌&&◌, if◌then◌else◌, All,
}
use revolution.Store.Db.{Db, TorrentRow}
use revolution.Store.Exec.{ok, World, query, try, pure}
use revolution.Store.Torrents.Upsert.{NoFault}
use revolution.Store.Search.{TorrentSummary, summary, newer, candidates, page, page_limit}
use revolution.Web.Helpers.{Label, human_size}
use revolution.Web.Helpers.Units.{by_threshold, human_size-units}
use revolution.Store.Search.Pages.{sorted, length-sorted}
use revolution.Web.Site.{Site, Request, RssItem}
use revolution.Web.Rss.{
  max_items, rss_items, rss_item_summary, summary_with, item_with, add_item, feed_with, serve_feed,
  request_base_url,
}

-- The number of torrents that the feed asks for.
abbrev pub feed_limit : ℤ → ℕ
feed_limit (pos n) = if n == 0 then 50 else if ltb 100 n then 40 else n
feed_limit (negsuc n) = 50

page_limit-max_items : (n : ℤ) → page_limit (max_items n) ≡ feed_limit n
page_limit-max_items (pos n) = ground arith
page_limit-max_items (negsuc n) = refl

-- Whether `humanSize` has a unit for the size.
abbrev pub has_unit : ℤ → Bool
has_unit (pos n) = ltb n (2 ^ 60)
has_unit (negsuc n) = true

abbrev pub all_units : List TorrentSummary → Bool
all_units [] = true
all_units (t ∷ ts) = has_unit t.size_bytes && all_units ts

abbrev pub Is64 : ℤ → Type 0
Is64 (pos n) = n < 2 ^ 63
Is64 (negsuc n) = n < 2 ^ 63

abbrev has_label : Option Label → Bool
has_label none = false
has_label (some l) = true

has_label-by_threshold : (n : ℕ) → has_label (by_threshold n) ≡ ltb n (2 ^ 60)
has_label-by_threshold n = ground arith

human_size-small : (n : ℕ) → n < 1024 → has_label (human_size (pos n)) ≡ true
unfolding human_size
human_size-small n h = ground (arith, h)

has_label-human_size : (z : ℤ) → Is64 z → has_label (human_size z) ≡ has_unit z
has_label-human_size (negsuc n) h = unfold human_size in refl
has_label-human_size (pos n) h = elim (Bool-cases (ltb n 1024)) [
  | inl small ↦
      let n_small : n < 1024 = ground (arith, small) in
      human_size-small n n_small ∙ ground (arith, n_small)
  | inr large ↦
      let n_large : 1024 ≤ n = ground (arith, large) in
      ap has_label (human_size-units n n_large h) ∙ has_label-by_threshold n
]

abbrev pub Sizes64 : List TorrentSummary → Type 0
Sizes64 = All (λ (t : TorrentSummary). Is64 t.size_bytes)

module _ (site : Site) (base : Text) where
  -- The titles and links of the torrents in their order, or a panic.
  abbrev pub ItemsFor : List TorrentSummary → Bool → Option (List RssItem) → Type 0
  ItemsFor ts true o =
      (items : List RssItem) × (o ≡ some items)
      × (map {B = Text × Text} (λ (i : RssItem). (i.title, i.link)) items
          ≡ map {B = Text × Text} (λ (t : TorrentSummary). (t.title, base ++ codes "/t/" ++ t.id))
              ts)
  ItemsFor ts false o = o ≡ none

  add_item-ItemsFor :
      (t : TorrentSummary) (ts : List TorrentSummary) (l : Option Label) (more : Bool)
      (rest : Option (List RssItem))
      → ItemsFor ts more rest
      → ItemsFor
          (t ∷ ts)
          (has_label l && more)
          (add_item site (item_with site base t (summary_with t l)) rest)
  add_item-ItemsFor t ts none more rest h = refl
  add_item-ItemsFor t ts (some l) false rest h = rw h refl
  add_item-ItemsFor t ts (some l) true rest (items, made, same) =
      rw made (
        _,
        refl,
        ap (λ (xs : List (Text × Text)). (t.title, base ++ codes "/t/" ++ t.id) ∷ xs) same,
      )

  rss_items-ItemsFor :
      (ts : List TorrentSummary) → Sizes64 ts → ItemsFor ts (all_units ts) (rss_items site base ts)
  unfolding rss_items rss_item_summary
  rss_items-ItemsFor [] h = ([], refl, refl)
  rss_items-ItemsFor (t ∷ ts) h =
      subst (λ b. ItemsFor (t ∷ ts) (b && all_units ts) (rss_items site base (t ∷ ts)))
        (has_label-human_size t.size_bytes h.0)
        (add_item-ItemsFor t ts (human_size t.size_bytes) (all_units ts) (rss_items site base ts)
          (rss_items-ItemsFor ts h.1))

abbrev pub feed_rows : Site → Db → List TorrentRow
feed_rows site db = page site.matches site.scan [] (max_items site.cfg.rss_max_items) (pos 0) db

module _ (site : Site) (r : Request) (w : World) where
  -- The feed, where no statement fails and sizes are of 64 bits: it asks for as many torrents as there are, up to
  -- rss_max_items (50 if that is not positive, and only 40 if it is more than 100), and has the title and the page of
  -- each in their order; if one of them has 2^60 bytes or more, the handler panics instead.
  pub serve_feed-ItemsFor :
      NoFault w
      → Sizes64 (map (summary w.db) (feed_rows site w.db))
      → (length (feed_rows site w.db)
          ≡ min (feed_limit site.cfg.rss_max_items) (length w.db.torrents))
        × (items : Option (List RssItem)) × ((serve_feed site r w).0 ≡ ok (feed_with site r items))
        × ItemsFor site
            (request_base_url r)
            (map (summary w.db) (feed_rows site w.db))
            (all_units (map (summary w.db) (feed_rows site w.db)))
            items
  unfolding serve_feed revolution.Store.Search.search query try pure
  serve_feed-ItemsFor h sizes =
      let all = sorted site.matches site.scan [] (max_items site.cfg.rss_max_items) (pos 0) w.db in
      let found = map (summary w.db) (feed_rows site w.db) in
      (
        length-take (page_limit (max_items site.cfg.rss_max_items)) all
            ∙ ap₂ min (page_limit-max_items site.cfg.rss_max_items) (
                length-sorted site.matches site.scan [] (max_items site.cfg.rss_max_items) (pos 0)
                  w.db),
        rss_items site (request_base_url r) found,
        rw (h w.step) refl,
        rss_items-ItemsFor site (request_base_url r) found sizes,
      )
