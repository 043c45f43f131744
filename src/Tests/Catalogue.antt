-- ===== src/Tests/Catalogue.antt =====
-- internal/store on a catalogue with one torrent, written over and deleted.
use mathlib.Core.List.{Perm, Permᴰ, reverse}
use mathlib.Core.List.Permᴰ
use revolution.Prelude.{
  Text, Bool, arith, length, take, ◌*◌, ◌≤◌, text_eq, ◌+◌, ◌≡◌, refl, sym, ap, ◌∙◌, ℤ, pos, lt_int,
  lt_int_irrefl, true, codes, eq_text, false, List, [], ◌∷◌, ◌==◌,
}
use revolution.Store.Table.{find}
use revolution.Store.FtsQuery.{fts_query}
use revolution.Store.Search.{candidates, Scan}
use revolution.Store.Search.Hits.{hit, candidates-hit}
use revolution.Store.Search.Pages.{NewestFirst, DifferentTimes, first_pages, first_pages-Perm}
use revolution.Store.Db.{TorrentRow, FtsRow, has_torrent, Db, Torrent, empty_db}
use revolution.Store.Exec.{statement, transaction, ◌>>=◌, World}
use revolution.Store.Exec.Atomic.{AllOrNothing}
use revolution.Store.Torrents.{
  upsert_body, upsert_row, insert_files, torrent_key, upsert_torrent, get_torrent,
}
use revolution.Store.Torrents.Upsert.{write_torrent, NoFault, upsert_torrent-AllOrNothing}
use revolution.Store.Consistent.{IsConsistent, empty_db-IsConsistent}
use revolution.Store.Consistent.Calls.{
  Call, upsert_torrent_call, delete_torrent_call, upsert_torrent_stats_call, add_followed_call,
  after_all, after_all-IsConsistent,
}
use revolution.Store.Consistent.Catalogue.{catalogue, carry_out_all, returned}
use revolution.Store.Consistent.Catalogue.Refined.{after_all-catalogue}
use revolution.Store.Consistent.Catalogue.Reads.{get_torrent-after_all}

-- A film with two files, and the same film by someone else with one.
abbrev pub film : Torrent
film = record {
  id = codes "t1";
  pubkey = codes "alice";
  title = codes "A film";
  description = [];
  info_hash = codes "ab";
  magnet = [];
  tracker = [];
  image_url = [];
  category = [];
  refs = [];
  size_bytes = pos 12;
  files =
      record { path = codes "a"; size_bytes = pos 5 }
      ∷ record { path = codes "b"; size_bytes = pos 7 }
      ∷ [];
  published_at = pos 900;
}

abbrev again : Torrent
again = record film {
  pubkey = codes "bob";
  files = record { path = codes "c"; size_bytes = pos 12 } ∷ [];
}

-- Nothing fails.
abbrev pub quiet : Db → World
quiet db = record { db = db; clock = λ n. pos (1000 + n); fails = λ n. false; step = 0 }

-- Statement 4 fails.
abbrev pub flaky : Db → World
flaky db = record (quiet db) { fails = λ n. n == 4 }

abbrev one : Db
one = (upsert_torrent film (quiet empty_db)).1.db

pub quiet-NoFault : (db : Db) → NoFault (quiet db)
quiet-NoFault db n = refl

abbrev calls : List Call
calls =
    upsert_torrent_call film
    ∷ add_followed_call (codes "alice") (codes "al")
    ∷ upsert_torrent_stats_call (codes "t1") (pos 3) (pos 1) (pos 1010)
    ∷ upsert_torrent_call again
    ∷ delete_torrent_call (codes "t1")
    ∷ []

after_all-IsConsistent_example : IsConsistent (after_all calls (flaky empty_db)).db
after_all-IsConsistent_example = after_all-IsConsistent calls (flaky empty_db) empty_db-IsConsistent

upsert_torrent-AllOrNothing_example :
    AllOrNothing one (write_torrent again (pos 1001) one) (upsert_torrent again (flaky one))
upsert_torrent-AllOrNothing_example = upsert_torrent-AllOrNothing again (flaky one)

one-IsConsistent : IsConsistent one
one-IsConsistent =
    after_all-IsConsistent (upsert_torrent_call film ∷ []) (quiet empty_db) empty_db-IsConsistent

get_torrent-after_all_example :
    (get_torrent (codes "t1") (after_all calls (quiet one))).0
    ≡ carry_out_all calls (λ k. (get_torrent k (quiet one)).0) (codes "t1")
get_torrent-after_all_example =
    get_torrent-after_all calls (quiet one) (codes "t1") (quiet-NoFault one) one-IsConsistent

after_all-catalogue_example :
    catalogue (after_all calls (flaky empty_db)).db
    ≡ carry_out_all (returned calls (flaky empty_db)) (catalogue empty_db)
after_all-catalogue_example = after_all-catalogue calls (flaky empty_db) empty_db-IsConsistent

-- The catalogue with a second torrent, of the same author.
abbrev sequel : Torrent
sequel = record film { id = codes "t2"; title = codes "A film again"; published_at = pos 950 }

abbrev two : Db
two = (upsert_torrent sequel (upsert_torrent film (quiet empty_db)).1).1.db

-- Entries whose title begins with a capital.
abbrev capital_title : Text → FtsRow → Bool
capital_title q f = eq_text (take 1 f.title) (codes "A")

two-IsConsistent : IsConsistent two
two-IsConsistent =
    after_all-IsConsistent (upsert_torrent_call film ∷ upsert_torrent_call sequel ∷ [])
      (quiet empty_db) empty_db-IsConsistent

candidates-hit_example :
    has_torrent (codes "t2") (candidates capital_title (codes "film") two)
    ≡ hit (capital_title (fts_query (codes "film"))) (find torrent_key (codes "t2") two.torrents)
candidates-hit_example =
    candidates-hit capital_title b'f' (codes "ilm") two (codes "t2") two-IsConsistent

room_for_both : length (candidates capital_title [] two) ≤ 2 * 1
unfolding upsert_torrent upsert_body upsert_row insert_files transaction statement ◌>>=◌ eq_text
room_for_both = omega arith

-- A table that is read from its end where there is an OFFSET.
abbrev pub visited_if : Bool → List TorrentRow → List TorrentRow
visited_if true rows = reverse rows
visited_if false rows = rows

pub visited_if-Permᴰ : (later : Bool) (rows : List TorrentRow) → Permᴰ (visited_if later rows) rows
visited_if-Permᴰ true rows = Permᴰ.reverse rows
visited_if-Permᴰ false rows = Permᴰ.refl rows

abbrev pub scan : Scan
scan = record {
  visit = λ limit offset. visited_if (lt_int (pos 0) offset);
  permutes = λ limit offset. visited_if-Permᴰ (lt_int (pos 0) offset);
}

earlier : (a b : ℤ) → lt_int a b ≡ true → a ≡ b → ⊥
earlier a b h e = absurd (true_false (sym h ∙ ap (lt_int a) (sym e) ∙ lt_int_irrefl a))
  where
    true_false : true ≡ false → ⊥
    true_false t = cc

two-DifferentTimes : DifferentTimes (candidates capital_title [] two)
unfolding upsert_torrent upsert_body upsert_row insert_files transaction statement ◌>>=◌ eq_text
two-DifferentTimes = ((earlier (pos 900) (pos 950) refl, tt), (tt, tt))

first_pages-Perm_example :
    Perm (first_pages capital_title scan [] 1 two 2) (candidates capital_title [] two)
    × NewestFirst (first_pages capital_title scan [] 1 two 2)
first_pages-Perm_example =
    first_pages-Perm capital_title scan [] 1 two two-DifferentTimes 2 (omega arith) (omega arith)
      room_for_both
