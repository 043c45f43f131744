-- ===== src/Store/Torrents/Missing.antt =====
-- What statements that affect no row leave of the tables (internal/store).
use revolution.Prelude.{
  ◌≡◌, refl, ap, ap₂, Text, text_eq, Bool, true, not, none, List, [], ◌∷◌, arith, select, length,
  Eq, ℤ,
}
use revolution.Store.Table.{find, update, affected}
use revolution.Store.Db.{Db, TorrentRow, FileRow, StatsRow}
use revolution.Store.Torrents.{torrent_key, delete_torrents, edit_torrent, edit_row, unindex}

module _ {A : Type 0} (p : A → Bool) where
  pub select-not_none : (t : List A) → length (select p t) ≡ 0 → select (λ x. not (p x)) t ≡ t
  select-not_none [] h = refl
  select-not_none (x ∷ xs) h = ground (arith, h, select-not_none xs)

  select_none : (t : List A) → length (select p t) ≡ 0 → select p t ≡ []
  select_none [] h = refl
  select_none (x ∷ xs) h = ground (arith, h, select_none xs)

select-true : {A : Type 0} (t : List A) → select (λ x. true) t ≡ t
select-true [] = refl
select-true (x ∷ xs) = ap (λ (ys : List _). x ∷ ys) (select-true xs)

module _ {A K : Type 0} ⦃e : Eq K⦄ (key : A → K) (k : K) where
  find_none : (t : List A) → affected key k t ≡ 0 → find key k t ≡ none
  find_none [] h = refl
  find_none (x ∷ xs) h = ground (arith, h, find_none xs)

  update_none : (f : A → A) (t : List A) → affected key k t ≡ 0 → update key k f t ≡ t
  update_none f [] h = refl
  update_none f (x ∷ xs) h = ground (arith, h, update_none f xs)

pub delete_torrents_none :
    (doomed : TorrentRow → Bool) (db : Db)
    → length (select doomed db.torrents) ≡ 0
    → delete_torrents doomed db ≡ db
unfolding delete_torrents unindex
delete_torrents_none doomed db h =
    rw (select_none doomed db.torrents h, select-not_none doomed db.torrents h)
      (ap₂
        (λ (fs : List FileRow) (ss : List StatsRow). record db {
          torrent_files = fs;
          torrent_stats = ss;
        })
        (select-true db.torrent_files) (select-true db.torrent_stats))

pub edit_torrent_none :
    (id title category : Text) (ts : ℤ) (db : Db)
    → affected torrent_key id db.torrents ≡ 0
    → edit_torrent id title category ts db ≡ db
unfolding edit_torrent
edit_torrent_none id title category ts db h =
    rw
      (
        update_none torrent_key id (edit_row title category ts) db.torrents h,
        find_none torrent_key id db.torrents h,
      )
      refl
