-- ===== src/Store/Torrents/Index.antt =====
-- The triggers of internal/store/store.go: `torrents_fts` beside what the rows of `torrents` say, counted
-- with repeats.
use revolution.Prelude.{
  ℕ, ◌+◌, ◌-◌, ◌≤◌, ◌≡◌, refl, ◌↔◌, ℤ, Text, text_eq, eq_text_iff, Bool, true, not, none, some,
  List, [], ◌∷◌, ◌++◌, map, arith, if◌then◌else◌, select, Option-cases, inl, inr,
}
use revolution.Store.Table.{find, upsert, update, IsUnique}
use revolution.Store.Db.{Db, Torrent, TorrentRow, FtsRow, indexed, eq_fts, erase_fts, next_rowid}
use revolution.Store.Torrents.{
  torrent_key, new_row, merge_row, upsert_row, unindex, delete_torrents, edit_row, edit_torrent,
}

pub eq_fts_iff : (a b : FtsRow) → (eq_fts a b ≡ true) ↔ (a ≡ b)
unfolding eq_fts
eq_fts_iff a b = ground (
  arith,
  eq_text_iff a.title b.title,
  eq_text_iff a.description b.description,
  eq_text_iff a.category b.category,
)

-- How often an entry stands in an index.
abbrev pub tally : FtsRow → List FtsRow → ℕ
tally e [] = 0
tally e (x ∷ xs) = (if eq_fts x e then 1 else 0) + tally e xs

abbrev one_if : Bool → ℕ
one_if b = if b then 1 else 0

tally-append : (e : FtsRow) (xs ys : List FtsRow) → tally e (xs ++ ys) ≡ tally e xs + tally e ys
tally-append e [] ys = omega arith
tally-append e (x ∷ xs) ys = omega (arith, tally-append e xs ys)

tally-erase :
    (e x : FtsRow) (xs : List FtsRow) → tally e (erase_fts x xs) ≡ tally e xs - one_if (eq_fts x e)
tally-erase e x [] = ground arith
tally-erase e x (y ∷ ys) =
    ground (arith, tally-erase e x ys, eq_fts_iff x e, eq_fts_iff y x, eq_fts_iff y e)

-- Two indexes with the same entries, as often.
abbrev pub SameEntries : List FtsRow → List FtsRow → Type 0
SameEntries xs ys = (e : FtsRow) → tally e xs ≡ tally e ys

module _ (r : TorrentRow) (m : TorrentRow → TorrentRow) (e : FtsRow) where
  tally-upsert_new :
      (t : List TorrentRow)
      → find torrent_key r.id t ≡ none
      → tally e (map indexed (upsert torrent_key r m t))
        ≡ tally e (map indexed t) + one_if (eq_fts (indexed r) e)
  tally-upsert_new [] h = omega arith
  tally-upsert_new (x ∷ xs) h = ground (arith, tally-upsert_new xs)

  tally-upsert_old :
      (t : List TorrentRow) (old : TorrentRow)
      → find torrent_key r.id t ≡ some old
      → tally e (map indexed (upsert torrent_key r m t)) + one_if (eq_fts (indexed old) e)
        ≡ tally e (map indexed t) + one_if (eq_fts (indexed (m old)) e)
  tally-upsert_old [] old h = ground arith
  tally-upsert_old (x ∷ xs) old h = ground (arith, tally-upsert_old xs old)

module _ (k : Text) (f : TorrentRow → TorrentRow) (e : FtsRow) where
  tally-update-none :
      (t : List TorrentRow) → find torrent_key k t ≡ none → update torrent_key k f t ≡ t
  tally-update-none [] h = refl
  tally-update-none (x ∷ xs) h = ground (arith, tally-update-none xs)

  tally-update-some :
      (t : List TorrentRow) (old : TorrentRow)
      → IsUnique torrent_key t
      → find torrent_key k t ≡ some old
      → tally e (map indexed (update torrent_key k f t)) + one_if (eq_fts (indexed old) e)
        ≡ tally e (map indexed t) + one_if (eq_fts (indexed (f old)) e)
  tally-update-some [] old u h = ground arith
  tally-update-some (x ∷ xs) old u h =
      ground (arith, u, tally-update-some xs old u.1, tally-update-none xs, eq_text_iff x.id k)

tally-find :
    (k : Text) (e : FtsRow) (t : List TorrentRow) (old : TorrentRow)
    → find torrent_key k t ≡ some old
    → one_if (eq_fts (indexed old) e) ≤ tally e (map indexed t)
tally-find k e [] old h = ground arith
tally-find k e (x ∷ xs) old h = ground (arith, tally-find k e xs old)

pub upsert-synced :
    (t : Torrent) (ts : ℤ) (db : Db)
    → SameEntries db.torrents_fts (map indexed db.torrents)
    → SameEntries (upsert_row t ts db).torrents_fts (map indexed (upsert_row t ts db).torrents)
unfolding upsert_row
upsert-synced t ts db h e =
    let rows = db.torrents in
    let r = new_row t ts (next_rowid rows) in
    elim (Option-cases (find torrent_key t.id rows)) [
      | inl fresh ↦ rw fresh (
          omega (
            arith,
            tally-append e db.torrents_fts (indexed r ∷ []),
            h e,
            tally-upsert_new r (merge_row t ts) e rows fresh,
          ))
      | inr (old, found) ↦ rw found (
          omega (
            arith,
            tally-append e (erase_fts (indexed old) db.torrents_fts)
                (indexed (merge_row t ts old) ∷ []),
            tally-erase e (indexed old) db.torrents_fts,
            h e,
            tally-find t.id e rows old found,
            tally-upsert_old r (merge_row t ts) e rows old found,
          ))
    ]

pub edit-synced :
    (id title category : Text) (ts : ℤ) (db : Db)
    → IsUnique torrent_key db.torrents
    → SameEntries db.torrents_fts (map indexed db.torrents)
    → SameEntries
        (edit_torrent id title category ts db).torrents_fts
        (map indexed (edit_torrent id title category ts db).torrents)
unfolding edit_torrent
edit-synced id title category ts db u h e =
    let rows = db.torrents in
    let f = edit_row title category ts in
    elim (Option-cases (find torrent_key id rows)) [
      | inl missing ↦ rw (missing, tally-update-none id f e rows missing) (h e)
      | inr (old, found) ↦ rw found (
          omega (
            arith,
            tally-append e (erase_fts (indexed old) db.torrents_fts) (indexed (f old) ∷ []),
            tally-erase e (indexed old) db.torrents_fts,
            h e,
            tally-find id e rows old found,
            tally-update-some id f e rows old u found,
          ))
    ]

tally-unindex :
    (e : FtsRow) (gone : List TorrentRow) (fts : List FtsRow)
    → tally e (unindex gone fts) ≡ tally e fts - tally e (map indexed gone)
unfolding unindex
tally-unindex e [] fts = omega arith
tally-unindex e (r ∷ rs) fts =
    omega (arith, tally-unindex e rs (erase_fts (indexed r) fts), tally-erase e (indexed r) fts)

tally-select :
    (e : FtsRow) (p : TorrentRow → Bool) (t : List TorrentRow)
    → tally e (map indexed t)
      ≡ tally e (map indexed (select p t)) + tally e (map indexed (select (λ r. not (p r)) t))
tally-select e p [] = refl
tally-select e p (x ∷ xs) = ground (arith, tally-select e p xs)

pub delete-synced :
    (doomed : TorrentRow → Bool) (db : Db)
    → SameEntries db.torrents_fts (map indexed db.torrents)
    → SameEntries
        (delete_torrents doomed db).torrents_fts
        (map indexed (delete_torrents doomed db).torrents)
unfolding delete_torrents
delete-synced doomed db h e = omega (
  arith,
  tally-unindex e (select doomed db.torrents) db.torrents_fts,
  h e,
  tally-select e doomed db.torrents,
)
