-- ===== src/Store/Torrents/Upsert.antt =====
-- The tables after `UpsertTorrent` (internal/store/torrents.go).
use mathlib.Core.List.{append-nil, append_assoc}
use revolution.Prelude.{
  ℕ, ◌+◌, ◌≡◌, refl, sym, ap, ◌∙◌, ℤ, Text, text_eq, eq_text_refl, true, false, List, [], ◌∷◌, ◌++◌,
  map, Bool-cases, inl, inr,
}
use revolution.Store.Db.{Db, Torrent, TorrentFile, FileRow, has_torrent, next_rowid}
use revolution.Store.Exec.{ok, err, sql_error, World, advance, ◌>>=◌, statement, pure}
use revolution.Store.Exec.Atomic.{
  AllOrNothing, transaction-AllOrNothing, transaction_total, transaction_fails,
}
use revolution.Store.Torrents.{upsert_row, purge_files, insert_files, upsert_body, upsert_torrent}
use revolution.Store.Torrents.References.{has_torrent-upsert}

abbrev pub file_row : Text → TorrentFile → FileRow
file_row id f = record { torrent_id = id; path = f.path; size_bytes = f.size_bytes }

-- The catalogue with the torrent and its files in place of what it had under the id.
abbrev pub write_torrent : Torrent → ℤ → Db → Db
write_torrent t ts db =
    let d = purge_files t.id (upsert_row t ts db) in
    record d { torrent_files = d.torrent_files ++ map (file_row t.id) t.files }

abbrev add_files : Text → List TorrentFile → Db → Db
add_files id fs d = record d { torrent_files = d.torrent_files ++ map (file_row id) fs }

-- What the first file does to the rest of the loop.
module _ (id : Text) (f : TorrentFile) (fs : List TorrentFile) (w : World) where
  insert_files_step :
      w.fails w.step ≡ false
      → has_torrent id w.db.torrents ≡ true
      → insert_files id (f ∷ fs) w
        ≡ insert_files id fs (record (advance w) { db = add_files id (f ∷ []) w.db })
  unfolding insert_files ◌>>=◌ statement
  insert_files_step good known = rw (good, known)

  insert_files_fault :
      w.fails w.step ≡ true → insert_files id (f ∷ fs) w ≡ (err sql_error, advance w)
  unfolding insert_files ◌>>=◌ statement
  insert_files_fault bad = rw bad

add_files_again :
    (id : Text) (f : TorrentFile) (fs : List TorrentFile) (d : Db)
    → add_files id fs (add_files id (f ∷ []) d) ≡ add_files id (f ∷ fs) d
add_files_again id f fs d = simp append_assoc

-- A run of `insert_files` that returns has added the files.
insert_files_ok :
    (id : Text) (fs : List TorrentFile) (w : World)
    → has_torrent id w.db.torrents ≡ true
    → (insert_files id fs w).0 ≡ ok tt
    → (insert_files id fs w).1.db ≡ add_files id fs w.db
insert_files_ok id [] w h e = unfold insert_files pure in simp append-nil
insert_files_ok id (f ∷ fs) w h e = elim (Bool-cases (w.fails w.step)) [
  | inl bad ↦ cc (insert_files_fault id f fs w bad, e)
  | inr good ↦
      let w' = record (advance w) { db = add_files id (f ∷ []) w.db } in
      let step = insert_files_step id f fs w good h in
      rw step
        (insert_files_ok id fs w' h (ap (λ r. r.0) (sym step) ∙ e) ∙ add_files_again id f fs w.db)
]

-- No statement fails from here on.
abbrev pub NoFault : World → Type 0
NoFault w = (n : ℕ) → w.fails n ≡ false

insert_files_total :
    (id : Text) (fs : List TorrentFile) (w : World)
    → has_torrent id w.db.torrents ≡ true
    → NoFault w
    → (insert_files id fs w).0 ≡ ok tt
insert_files_total id [] w h n = unfold insert_files pure in refl
insert_files_total id (f ∷ fs) w h n =
    rw (insert_files_step id f fs w (n w.step) h)
      (insert_files_total id fs (record (advance w) { db = add_files id (f ∷ []) w.db }) h n)

pub known_after_upsert :
    (t : Torrent) (ts : ℤ) (db : Db) → has_torrent t.id (upsert_row t ts db).torrents ≡ true
unfolding upsert_row
known_after_upsert t ts db =
    has_torrent-upsert t ts (next_rowid db.torrents) t.id db.torrents ∙ rw eq_text_refl

-- The world before the loop over the files.
abbrev before_files : Torrent → World → World
before_files t w = record w {
  db = purge_files t.id (upsert_row t (w.clock w.step) w.db);
  step = w.step + 1 + 1;
}

module _ (t : Torrent) (w : World) where
  upsert_body_step :
      w.fails w.step ≡ false
      → w.fails (w.step + 1) ≡ false
      → upsert_body t w ≡ insert_files t.id t.files (before_files t w)
  unfolding upsert_body ◌>>=◌ statement
  upsert_body_step g h = rw (g, h)

  upsert_body_fault : w.fails w.step ≡ true → upsert_body t w ≡ (err sql_error, advance w)
  unfolding upsert_body ◌>>=◌ statement
  upsert_body_fault bad = rw bad

  upsert_body_later_fault :
      w.fails w.step ≡ false → w.fails (w.step + 1) ≡ true → (upsert_body t w).0 ≡ err sql_error
  unfolding upsert_body ◌>>=◌ statement
  upsert_body_later_fault good bad = rw (good, bad)

  upsert_body_ok :
      (upsert_body t w).0 ≡ ok tt → (upsert_body t w).1.db ≡ write_torrent t (w.clock w.step) w.db
  upsert_body_ok e = elim (Bool-cases (w.fails w.step)) [
    | inl bad ↦ cc (upsert_body_fault bad, e)
    | inr good ↦ elim (Bool-cases (w.fails (w.step + 1))) [
      | inl bad ↦ cc (upsert_body_later_fault good bad, e)
      | inr good' ↦
          let step = upsert_body_step good good' in
          rw step (
            insert_files_ok t.id t.files (before_files t w)
              (known_after_upsert t (w.clock w.step) w.db) (ap (λ r. r.0) (sym step) ∙ e))
    ]
  ]

  upsert_body_total : NoFault w → (upsert_body t w).0 ≡ ok tt
  upsert_body_total n = rw (upsert_body_step (n w.step) (n (w.step + 1))) (
      insert_files_total t.id t.files (before_files t w)
        (known_after_upsert t (w.clock w.step) w.db) n)

insert_files_fails :
    (id : Text) (fs : List TorrentFile) (w : World) (n : ℕ)
    → has_torrent id w.db.torrents ≡ true
    → NoFault w
    → (insert_files id fs w).1.fails n ≡ false
insert_files_fails id [] w n k h = unfold insert_files pure in h n
insert_files_fails id (f ∷ fs) w n k h =
    rw (insert_files_step id f fs w (h w.step) k)
      (insert_files_fails id fs (record (advance w) { db = add_files id (f ∷ []) w.db }) n k h)

upsert_body_fails :
    (t : Torrent) (w : World) (n : ℕ) → NoFault w → (upsert_body t w).1.fails n ≡ false
upsert_body_fails t w n h = rw (upsert_body_step t w (h w.step) (h (w.step + 1))) (
    insert_files_fails t.id t.files (before_files t w) n
      (known_after_upsert t (w.clock w.step) w.db) h)

-- `UpsertTorrent` writes the torrent's row, the index entry and all the files with the time of the
-- call, or it fails and leaves the tables as they were.
pub upsert_torrent-AllOrNothing :
    (t : Torrent) (w : World)
    → AllOrNothing w.db (write_torrent t (w.clock (w.step + 1)) w.db) (upsert_torrent t w)
unfolding upsert_torrent
upsert_torrent-AllOrNothing t w =
    transaction-AllOrNothing (upsert_body t) w (write_torrent t (w.clock (w.step + 1)) w.db)
      (upsert_body_ok t (advance w))

-- `UpsertTorrent` succeeds where no statement fails: the foreign key refuses none of its files.
pub upsert_torrent_total : (t : Torrent) (w : World) → NoFault w → (upsert_torrent t w).0 ≡ ok tt
unfolding upsert_torrent
upsert_torrent_total t w n =
    transaction_total (upsert_body t) w (n w.step) (upsert_body_total t (advance w) n)
      (upsert_body_fails t (advance w) _ n)

pub upsert_torrent-NoFault : (t : Torrent) (w : World) → NoFault w → NoFault (upsert_torrent t w).1
unfolding upsert_torrent
upsert_torrent-NoFault t w h n =
    transaction_fails (upsert_body t) w n (h w.step) (h n) (upsert_body_fails t (advance w) n h)

-- With no failing statement the tables are those of `write_torrent`.
pub upsert_torrent_db :
    (t : Torrent) (w : World)
    → NoFault w
    → (upsert_torrent t w).1.db ≡ write_torrent t (w.clock (w.step + 1)) w.db
upsert_torrent_db t w h = elim (upsert_torrent-AllOrNothing t w) [
  | inl done ↦ done.1
  | inr (e, failed, _) ↦ cc (upsert_torrent_total t w h, failed)
]
