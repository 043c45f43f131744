-- ===== src/Store/Search/Hits.antt =====
-- Which torrents a search takes from the index.
use revolution.Prelude.{
  ℕ, ◌<◌, ◌≡◌, refl, sym, subst, ap, ◌∙◌, Text, text_eq, nat_eq, eq_text, Bool, true, false, ◌&&◌,
  ◌||◌, ◌==◌, Option, none, some, List, [], ◌∷◌, ◌++◌, map, arith, select, Bool-cases, Option-cases,
  inl, inr,
}
use revolution.Store.Table.{find, IsUnique}
use revolution.Store.Db.{Db, TorrentRow, FtsRow, indexed, eq_fts, has_torrent}
use revolution.Store.Torrents.{torrent_key}
use revolution.Store.Torrents.Index.{eq_fts_iff, tally, SameEntries}
use revolution.Store.Torrents.References.{rowid_key}
use revolution.Store.Torrents.Deletion.{took, has_torrent-gone}
use revolution.Store.Consistent.{IsConsistent}
use revolution.Store.FtsQuery.{fts_query}
use revolution.Store.Search.{joined, candidates}

abbrev any_entry : (FtsRow → Bool) → List FtsRow → Bool
any_entry p [] = false
any_entry p (x ∷ xs) = p x || any_entry p xs

any_entry-elim :
    (p : FtsRow → Bool) (xs : List FtsRow)
    → any_entry p xs ≡ true
    → (e : FtsRow) × (p e ≡ true) × (0 < tally e xs)
any_entry-elim p [] h = cc
any_entry-elim p (x ∷ xs) h = elim (Bool-cases (p x)) [
  | inl hit ↦ (x, hit, ground (arith, eq_fts_iff x x))
  | inr miss ↦
      let (e, pe, counted) = any_entry-elim p xs (rw miss at h) in (e, pe, omega (arith, counted))
]

any_entry-intro :
    (p : FtsRow → Bool) (xs : List FtsRow) (e : FtsRow)
    → p e ≡ true
    → 0 < tally e xs
    → any_entry p xs ≡ true
any_entry-intro p [] e pe h = absurd (omega arith)
any_entry-intro p (x ∷ xs) e pe h = elim (Bool-cases (eq_fts x e)) [
  | inl same ↦ ground (arith, ap p ((eq_fts_iff x e).0 same), pe)
  | inr other ↦
      let more : 0 < tally e xs = ground (arith, h, other) in
      ground (arith, any_entry-intro p xs e pe more)
]

any_entry_mono :
    (p : FtsRow → Bool) (xs ys : List FtsRow)
    → SameEntries xs ys
    → any_entry p xs ≡ true
    → any_entry p ys ≡ true
any_entry_mono p xs ys h found =
    let (e, pe, counted) = any_entry-elim p xs found in
    any_entry-intro p ys e pe (omega (arith, h e, counted))

any_entry-same :
    (p : FtsRow → Bool) (xs ys : List FtsRow) → SameEntries xs ys → any_entry p xs ≡ any_entry p ys
any_entry-same p xs ys h =
    ground (arith, any_entry_mono p xs ys h, any_entry_mono p ys xs (λ e. sym (h e)))

has_torrent-append :
    (j : Text) (xs ys : List TorrentRow)
    → has_torrent j (xs ++ ys) ≡ (has_torrent j xs || has_torrent j ys)
has_torrent-append j [] ys = refl
has_torrent-append j (x ∷ xs) ys = ground (arith, has_torrent-append j xs ys)

-- No row with the rowid, though one row has the id.
other_rowid :
    (j : Text) (n : ℕ) (rows : List TorrentRow) (r : TorrentRow)
    → find torrent_key j rows ≡ some r
    → find rowid_key n rows ≡ none
    → (r.rowid == n) ≡ false
other_rowid j n [] r h k = cc
other_rowid j n (x ∷ xs) r h k = elim (Bool-cases (eq_text x.id j)) [
  | inl same ↦ ground (arith, h, k, same)
  | inr other ↦ ground (arith, h, k, other, other_rowid j n xs r)
]

abbrev pub hit : (FtsRow → Bool) → Option TorrentRow → Bool
hit m none = false
hit m (some r) = m (indexed r)

module _ (m : FtsRow → Bool) where
  no_entry :
      (n : ℕ) (rows : List TorrentRow)
      → find rowid_key n rows ≡ none
      → any_entry (λ f. m f && n == f.rowid) (map indexed rows) ≡ false
  no_entry n [] h = refl
  no_entry n (x ∷ xs) h = ground (arith, h, no_entry n xs)

  one_entry :
      (j : Text) (rows : List TorrentRow) (r : TorrentRow)
      → find torrent_key j rows ≡ some r
      → IsUnique rowid_key rows
      → any_entry (λ f. m f && r.rowid == f.rowid) (map indexed rows) ≡ m (indexed r)
  one_entry j [] r h u = cc
  one_entry j (x ∷ xs) r h u = elim (Bool-cases (eq_text x.id j)) [
    | inl same ↦
        let here : x ≡ r = cc (rw same at h) in
        subst
          (λ (y : TorrentRow).
            any_entry (λ f. m f && y.rowid == f.rowid) (map indexed (x ∷ xs)) ≡ m (indexed y))
          here (ground (arith, no_entry x.rowid xs u.0))
    | inr other ↦
        let found : find torrent_key j xs ≡ some r = rw other at h in
        ground (arith, other_rowid j x.rowid xs r found u.0, one_entry j xs r found u.1)
  ]

took-miss :
    (m : FtsRow → Bool) (fs : List FtsRow)
    → any_entry (λ f. m f && took (λ (r : TorrentRow). r.rowid == f.rowid) none) fs ≡ false
took-miss m [] = refl
took-miss m (f ∷ fs) = ground (arith, took-miss m fs)

module _ (matches : Text → FtsRow → Bool) (q : Text) where
  has_torrent-joined :
      (j : Text) (fs : List FtsRow) (rows : List TorrentRow)
      → IsUnique torrent_key rows
      → has_torrent j (joined matches q fs rows)
        ≡ any_entry
            (λ f.
              matches q f
              && took (λ (r : TorrentRow). r.rowid == f.rowid) (find torrent_key j rows))
            fs
  unfolding joined
  has_torrent-joined j [] rows u = refl
  has_torrent-joined j (f ∷ fs) rows u = ground (
    arith,
    has_torrent-joined j fs rows u,
    has_torrent-append j (select (λ (r : TorrentRow). r.rowid == f.rowid) rows)
        (joined matches q fs rows),
    has_torrent-gone (λ (r : TorrentRow). r.rowid == f.rowid) j rows u,
  )

  joined-hit :
      (db : Db) (j : Text)
      → IsConsistent db
      → has_torrent j (joined matches q db.torrents_fts db.torrents)
        ≡ hit (matches q) (find torrent_key j db.torrents)
  joined-hit db j c =
      has_torrent-joined j db.torrents_fts db.torrents c.unique_ids
      ∙ elim (Option-cases (find torrent_key j db.torrents)) [
        | inl missing ↦ rw missing (took-miss (matches q) db.torrents_fts)
        | inr (r, found) ↦ rw found (
            any_entry-same _ db.torrents_fts (map indexed db.torrents) c.synced
            ∙ one_entry (matches q) j db.torrents r found c.unique_rowids)
      ]

-- In a consistent catalogue, a search with words takes a torrent exactly if FTS5 matches its query
-- with what the row itself says: no stale index entry adds a torrent, and none is missing.
pub candidates-hit :
    (matches : Text → FtsRow → Bool) (c : ℕ) (cs : Text) (db : Db) (j : Text)
    → IsConsistent db
    → has_torrent j (candidates matches (c ∷ cs) db)
      ≡ hit (matches (fts_query (c ∷ cs))) (find torrent_key j db.torrents)
candidates-hit matches c cs db j k = joined-hit matches (fts_query (c ∷ cs)) db j k
