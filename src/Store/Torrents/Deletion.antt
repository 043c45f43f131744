-- ===== src/Store/Torrents/Deletion.antt =====
-- What `DeleteTorrent` and `DeleteByPubkey` take away, and what they leave.
use revolution.Prelude.{
  ◌+◌, ◌≡◌, refl, ap, ◌∙◌, Text, text_eq, eq_text, eq_text_iff, eq_text_comm, Bool, false, not,
  Option, none, some, List, [], ◌∷◌, arith, if◌then◌else◌, select, Bool-cases, Option-cases, inl,
  inr,
}
use revolution.Store.Table.{find, IsUnique, find-key}
use revolution.Store.Table.Unique.{find-select-none}
use revolution.Store.Db.{Db, TorrentRow, FileRow, has_torrent}
use revolution.Store.Exec.{◌>>=◌, lift, ok, err, not_found, World, query, statement}
use revolution.Store.Torrents.{
  torrent_key, delete_torrent, delete_torrents, delete_by_pubkey, count_by_pubkey, by_pubkey,
  get_torrent, files_of,
}
use revolution.Store.Torrents.Upsert.{NoFault}
use revolution.Store.Torrents.ReadBack.{loaded, load_found, get_torrent_lem}

-- A lookup keeps what it finds only if the row is spared.
abbrev pub spare : (TorrentRow → Bool) → Option TorrentRow → Option TorrentRow
spare doomed none = none
spare doomed (some r) = if doomed r then none else some r

abbrev pub took : (TorrentRow → Bool) → Option TorrentRow → Bool
took doomed none = false
took doomed (some r) = doomed r

module _ (doomed : TorrentRow → Bool) where
  find-spared :
      (j : Text) (t : List TorrentRow)
      → IsUnique torrent_key t
      → find torrent_key j (select (λ r. not (doomed r)) t) ≡ spare doomed (find torrent_key j t)
  find-spared j [] u = refl
  find-spared j (x ∷ xs) u = ground (
    arith,
    u,
    find-spared j xs u.1,
    eq_text_iff x.id j,
    find-select-none torrent_key (λ r. not (doomed r)) x.id xs u.0,
  )

  pub has_torrent-gone :
      (j : Text) (t : List TorrentRow)
      → IsUnique torrent_key t
      → has_torrent j (select doomed t) ≡ took doomed (find torrent_key j t)
  has_torrent-gone j [] u = refl
  has_torrent-gone j (x ∷ xs) u = ground (
    arith,
    u,
    has_torrent-gone j xs u.1,
    eq_text_iff x.id j,
    find-select-none torrent_key doomed x.id xs u.0,
  )

-- The cascade takes the files of exactly the ids that are gone.
files_of-cascade :
    (gone : List TorrentRow) (j : Text) (xs : List FileRow)
    → files_of j (select (λ (f : FileRow). not (has_torrent f.torrent_id gone)) xs)
      ≡ (if has_torrent j gone then [] else files_of j xs)
files_of-cascade gone j [] = ground arith
files_of-cascade gone j (x ∷ xs) = elim (Bool-cases (eq_text x.torrent_id j)) [
  | inl same ↦ ground (
    arith,
    files_of-cascade gone j xs,
    ap (λ (i : Text). has_torrent i gone) ((eq_text_iff x.torrent_id j).0 same),
  )
  | inr other ↦ ground (arith, files_of-cascade gone j xs)
]

-- What is loaded under an id after a deletion: nothing if its row was one of those meant, and
-- otherwise what was there, files included.
pub loaded-delete_torrents :
    (doomed : TorrentRow → Bool) (db : Db) (j : Text)
    → IsUnique torrent_key db.torrents
    → loaded j (delete_torrents doomed db)
      ≡ load_found (spare doomed (find torrent_key j db.torrents)) (files_of j db.torrent_files)
unfolding delete_torrents
loaded-delete_torrents doomed db j u =
    let gone = select doomed db.torrents in
    let now_found = find-spared doomed j db.torrents u in
    let files = files_of-cascade gone j db.torrent_files in
    let lost = has_torrent-gone doomed j db.torrents u in
    elim (Option-cases (find torrent_key j db.torrents)) [
      | inl missing ↦ cc (now_found, ap (spare doomed) missing)
      | inr (r, found) ↦ elim (Bool-cases (doomed r)) [
        | inl hit ↦ ground (arith, now_found, found, hit)
        | inr miss ↦ ground (arith, now_found, found, miss, files, lost)
      ]
    ]

spare-found :
    (id j : Text) (t : List TorrentRow)
    → spare (λ r. eq_text r.id id) (find torrent_key j t)
      ≡ (if eq_text id j then none else find torrent_key j t)
spare-found id j t = elim (Option-cases (find torrent_key j t)) [
  | inl missing ↦ rw missing (ground arith)
  | inr (r, found) ↦ rw found (
      ap (λ k. if eq_text k id then none else some r) (find-key torrent_key j t r found)
      ∙ ap (λ (b : Bool). if b then none else some r) (eq_text_comm j id))
]

-- What is loaded under each id after the deletion of one.
pub loaded-delete_id :
    (id : Text) (db : Db) (j : Text)
    → IsUnique torrent_key db.torrents
    → loaded j (delete_torrents (λ r. eq_text r.id id) db)
      ≡ (if eq_text id j then err not_found else loaded j db)
loaded-delete_id id db j u =
    loaded-delete_torrents (λ r. eq_text r.id id) db j u
    ∙ ap (λ o. load_found o (files_of j db.torrent_files)) (spare-found id j db.torrents)
    ∙ ground arith

-- `DeleteTorrent` where no statement fails.
module _ (id : Text) (w : World) (h : NoFault w) where
  pub delete_torrent-NoFault : NoFault (delete_torrent id w).1
  unfolding delete_torrent statement ◌>>=◌ lift
  delete_torrent-NoFault n = ground (arith, h n, h w.step)

  pub delete_torrent-db : (delete_torrent id w).1.db ≡ delete_torrents (λ r. eq_text r.id id) w.db
  unfolding delete_torrent statement ◌>>=◌ lift
  delete_torrent-db = ground (arith, h w.step)

select-not-select :
    (p : TorrentRow → Bool) (t : List TorrentRow) → select p (select (λ r. not (p r)) t) ≡ []
select-not-select p [] = refl
select-not-select p (x ∷ xs) = ground (arith, select-not-select p xs)

-- `DeleteByPubkey` reports as many torrents as `CountByPubkey` saw before, and none is counted
-- afterwards.
pub delete_by_pubkey_counts :
    (pubkey : Text) (w : World)
    → NoFault w
    → ((delete_by_pubkey pubkey w).0 ≡ (count_by_pubkey pubkey w).0)
      × ((count_by_pubkey pubkey (delete_by_pubkey pubkey w).1).0 ≡ ok 0)
unfolding delete_by_pubkey count_by_pubkey statement query delete_torrents
delete_by_pubkey_counts pubkey w h = (
  ground (arith, h w.step),
  ground (arith, h w.step, h (w.step + 1), select-not-select (by_pubkey pubkey) w.db.torrents),
)

-- With no failing statement, `GetTorrent` after `DeleteByPubkey` finds no torrent of that author,
-- and every torrent of another author as it was, files included.
pub get_torrent-delete_by_pubkey :
    (pubkey : Text) (w : World) (j : Text)
    → NoFault w
    → IsUnique torrent_key w.db.torrents
    → (get_torrent j (delete_by_pubkey pubkey w).1).0
      ≡ load_found
          (spare (by_pubkey pubkey) (find torrent_key j w.db.torrents))
          (files_of j w.db.torrent_files)
unfolding delete_by_pubkey statement
get_torrent-delete_by_pubkey pubkey w j h u =
    get_torrent_lem j (delete_by_pubkey pubkey w).1 (rw (h w.step, delete_by_pubkey) h)
    ∙ rw (h w.step, delete_by_pubkey) (loaded-delete_torrents (by_pubkey pubkey) w.db j u)
