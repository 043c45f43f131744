-- ===== src/Cli/Torrent/Edited.antt =====
-- What `torrent edit` changes of a torrent (internal/cli/torrent.go).
use revolution.Prelude.{
  ◌+◌, ◌≡◌, refl, ap, sym, ◌∙◌, Text, text_eq, eq_text, eq_text_iff, is_empty, if◌then◌else◌,
  Option-cases, Bool-cases, inl, inr,
}
use revolution.Store.Table.{find}
use revolution.Store.Db.{Db, Torrent}
use revolution.Store.Exec.{
  Error, Result, ok, err, World, M, pure, ◌>>=◌, ◌>>◌, Result-cases, continue, >>=-ok, >>=-err,
  query,
}
use revolution.Store.Torrents.{torrent_key, get_torrent, update_torrent_fields}
use revolution.Store.Torrents.Upsert.{NoFault}
use revolution.Store.Torrents.ReadBack.{loaded, get_torrent_lem}
use revolution.Store.Torrents.Retitled.{retitled, loaded-edit_torrent, update_torrent_fields-db}
use revolution.Cli.Terminal.{Message, torrent_updated}
use revolution.Cli.Torrent.{or_old, edit_given}

-- The torrent with the values that are given, and its own for those that are empty.
abbrev pub edited : Text → Text → Result Torrent → Result Torrent
edited title category (ok t) = ok (record t {
  title = if is_empty title then t.title else title;
  category = if is_empty category then t.category else category;
})
edited title category (err e) = err e

-- `GetTorrent` changes nothing.
module _ (id : Text) (w : World) (h : NoFault w) where
  get_torrent-db : (get_torrent id w).1.db ≡ w.db
  unfolding get_torrent ◌>>=◌ query pure
  get_torrent-db = elim (Option-cases (find torrent_key id w.db.torrents)) [
    | inl missing ↦ rw (h w.step, missing) refl
    | inr (r, found) ↦ rw (h w.step, found, h (w.step + 1)) refl
  ]

  get_torrent-NoFault : NoFault (get_torrent id w).1
  unfolding get_torrent ◌>>=◌ query pure
  get_torrent-NoFault n = elim (Option-cases (find torrent_key id w.db.torrents)) [
    | inl missing ↦ rw (h w.step, missing) (h n)
    | inr (r, found) ↦ rw (h w.step, found, h (w.step + 1)) (h n)
  ]

module _ (id title category : Text) (w : World) (h : NoFault w) where
  abbrev v : World
  v = (get_torrent id w).1

  -- The rest of the command, once the torrent is read.
  abbrev after_read : Torrent → M Message
  after_read t = do
    update_torrent_fields id (or_old title t.title) (or_old category t.category)
    pure torrent_updated

  -- Printing the message changes nothing.
  after_read-world :
      (t : Torrent)
      → (after_read t v).1
        ≡ (update_torrent_fields id (or_old title t.title) (or_old category t.category) v).1
  unfolding ◌>>=◌ pure
  after_read-world t = printed (update_torrent_fields id _ _ v).0 (update_torrent_fields id _ _ v).1
    where
      printed :
          (r : Result (Unit {0})) (u : World) → (continue r (λ x. pure torrent_updated) u).1 ≡ u
      printed (ok x) u = refl
      printed (err e) u = refl

  retitled-edited :
      (t : Torrent) (j : Text) (db : Db)
      → loaded id db ≡ ok t
      → (if eq_text id j
          then retitled (or_old title t.title) (or_old category t.category) (loaded j db)
          else loaded j db)
        ≡ (if eq_text id j then edited title category (loaded j db) else loaded j db)
  retitled-edited t j db there = elim (Bool-cases (eq_text id j)) [
    | inl same ↦
        let held : loaded j db ≡ ok t =
          ap (λ k. loaded k db) (sym ((eq_text_iff id j).0 same)) ∙ there in
        rw same (
          ap (retitled (or_old title t.title) (or_old category t.category)) held
          ∙ sym (ap (edited title category) held))
    | inr other ↦ rw other refl
  ]

  edit_given-found :
      (t : Torrent) (j : Text)
      → (get_torrent id w).0 ≡ ok t
      → loaded j (edit_given id title category w).1.db
        ≡ (if eq_text id j then edited title category (loaded j w.db) else loaded j w.db)
  unfolding edit_given
  edit_given-found t j there =
      let new_title = or_old title t.title in
      let new_category = or_old category t.category in
      ap (λ r. loaded j r.1.db) (>>=-ok (get_torrent id) after_read w t there)
      ∙ ap (λ (u : World). loaded j u.db) (after_read-world t)
      ∙ ap (loaded j)
          (update_torrent_fields-db id new_title new_category v (get_torrent-NoFault id w h))
      ∙ loaded-edit_torrent id new_title new_category (v.clock v.step) v.db j
      ∙ ap
          (λ (d : Db).
            if eq_text id j then retitled new_title new_category (loaded j d) else loaded j d)
          (get_torrent-db id w h)
      ∙ retitled-edited t j w.db (sym (get_torrent_lem id w h) ∙ there)

  edit_given-missing :
      (e : Error) → (get_torrent id w).0 ≡ err e → (edit_given id title category w).1.db ≡ w.db
  unfolding edit_given
  edit_given-missing e missing =
      ap (λ r. r.1.db) (>>=-err (get_torrent id) after_read w e missing) ∙ get_torrent-db id w h

  -- What the tables hold under each id after `torrent edit id`, where no statement fails: under `id`
  -- the same torrent with the title and the category that are given, and its own for those that are
  -- not, or nothing as before; under every other id what they held.
  pub edit_given-edited :
      (j : Text)
      → loaded j (edit_given id title category w).1.db
        ≡ (if eq_text id j then edited title category (loaded j w.db) else loaded j w.db)
  edit_given-edited j = elim (Result-cases (get_torrent id w).0) [
    | inl (t, there) ↦ edit_given-found t j there
    | inr (e, missing) ↦
        ap (loaded j) (edit_given-missing e missing) ∙ elim (Bool-cases (eq_text id j)) [
          | inl same ↦
              let held : loaded j w.db ≡ err e =
                ap (λ k. loaded k w.db) (sym ((eq_text_iff id j).0 same))
                ∙ sym (get_torrent_lem id w h)
                ∙ missing in
              rw same (held ∙ sym (ap (edited title category) held))
          | inr other ↦ rw other refl
        ]
  ]
