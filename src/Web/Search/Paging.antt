-- ===== src/Web/Search/Paging.antt =====
-- The pages of the site's search, as a visitor follows them (internal/web/server.go).
use mathlib.Core.List.{Perm}
use revolution.Prelude.{
  ℕ, suc, ◌*◌, ◌^◌, ◌≤◌, ◌<◌, ◌≡◌, refl, sym, ap, subst, pos, Text, codes, trim_space, Bool, true,
  false, List, [], ◌∷◌, map, ◌==◌, length, drop, length-take, length-drop, ◌⊎◌, inl, inr,
  Bool-cases, arith,
}
use revolution.Store.Db.{TorrentRow}
use revolution.Store.Exec.{ok, World, query, try, pure}
use revolution.Store.Torrents.Upsert.{NoFault}
use revolution.Store.Search.{TorrentSummary, summary, newer, candidates, page}
use revolution.Store.Search.Pages.{
  NewestFirst, DifferentTimes, sorted, length-sorted, first_pages, first_pages-Perm,
}
use revolution.Web.Site.{Site, Request, SearchView, search_page, respond}
use revolution.Web.Search.{page_size, page_of, page_start, result_view, search_view, handle_search}

page_start_fits : (p : ℕ) → p * page_size < 2 ^ 63 → page_start (pos p) ≡ pos (p * page_size)
unfolding page_start
page_start_fits p h = ground (arith, h)

length-map : {A B : Type 0} (f : A → B) (xs : List A) → length (map f xs) ≡ length xs
length-map f [] = refl
length-map f (x ∷ xs) = ap suc (length-map f xs)

module _ (site : Site) (r : Request) (p : ℕ) (w : World) where
  abbrev pub q : Text
  q = trim_space (r.query (codes "q"))

  abbrev pub rows : List TorrentRow
  rows = page site.matches site.scan q (pos page_size) (pos (p * page_size)) w.db

  -- A page that is not full is the last.
  last_page : length rows ≤ 29 → length (candidates site.matches q w.db) ≤ suc p * page_size
  last_page short =
      let all = sorted site.matches site.scan q (pos page_size) (pos (p * page_size)) w.db in
      omega (
        arith,
        length-take page_size (drop (p * page_size) all),
        length-drop (p * page_size) all,
        length-sorted site.matches site.scan q (pos page_size) (pos (p * page_size)) w.db,
      )

  -- The pages so far have every torrent of the search once, and the newest first.
  abbrev pub HaveAll : Type 0
  HaveAll =
      Perm (first_pages site.matches site.scan q page_size w.db (suc p))
        (candidates site.matches q w.db)
      × NewestFirst (first_pages site.matches site.scan q page_size w.db (suc p))

  -- More is announced, or there is no more.
  abbrev pub MoreOrAll : Bool → Type 0
  MoreOrAll more = (more ≡ true) ⊎ HaveAll

  rows-MoreOrAll :
      DifferentTimes (candidates site.matches q w.db) → MoreOrAll (length rows == page_size)
  rows-MoreOrAll different = elim (Bool-cases (length rows == page_size)) [
    | inl full ↦ inl full
    | inr short ↦ inr (
        first_pages-Perm site.matches site.scan q page_size w.db different (suc p) (omega arith)
          (omega arith) (last_page (at_most_29 short)))
  ]
    where
      at_most_29 : (length rows == page_size) ≡ false → length rows ≤ 29
      at_most_29 h = ground (
        arith,
        h,
        length-take page_size (
            drop (p * page_size)
              (sorted site.matches site.scan q (pos page_size) (pos (p * page_size)) w.db)),
      )

  -- Page `p` of a search, where no statement fails, its offset fits in an `int` and no two torrents of the search were
  -- published at one time: the response shows the torrents of that page, and where it does not announce more, the pages up
  -- to it have every torrent of the search once, and the newest first.
  pub handle_search-MoreOrAll :
      NoFault w
      → page_of r ≡ pos p
      → p * page_size < 2 ^ 63
      → DifferentTimes (candidates site.matches q w.db)
      → (view : SearchView) × ((handle_search site r w).0 ≡ ok (respond 200 (search_page view)))
        × (view.results ≡ map (result_view site) (map (summary w.db) rows))
        × MoreOrAll view.has_more
  unfolding handle_search revolution.Store.Search.search query try pure search_view
  handle_search-MoreOrAll h at fits different =
      let results = map (summary w.db) rows in
      let same : length results ≡ length rows = length-map (summary w.db) rows in
      (
        search_view site q (pos p) results,
        rw (h w.step, at, page_start_fits p fits) refl,
        refl,
        subst (λ n. MoreOrAll (n == page_size)) (sym same) (rows-MoreOrAll different),
      )
