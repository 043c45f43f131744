-- ===== src/Cli/Purge/Effect.antt =====
-- What `purge` takes from the tables (internal/cli/purge.go).
use revolution.Prelude.{
  ℕ, ◌+◌, ◌≡◌, refl, sym, text_eq, Bool, true, false, ◌||◌, ◌==◌, ==_iff, length, select,
  if◌then◌else◌, Bool-cases, inl, inr,
}
use revolution.Store.Db.{Db, Followed}
use revolution.Store.Exec.{World, advance, pure, ◌>>=◌, statement, query}
use revolution.Store.Torrents.{by_pubkey, count_by_pubkey, delete_by_pubkey, delete_torrents}
use revolution.Store.Torrents.Upsert.{NoFault}
use revolution.Store.Torrents.Missing.{delete_torrents_none}
use revolution.Cli.Terminal.{Setup}
use revolution.Cli.Purge.{confirmed, purge_all, purge_asked, ask, purge_counted, purge_account}

module _ (s : Setup) (f : Followed) where
  purge_all-db :
      (v : World)
      → v.fails v.step ≡ false
      → (purge_all s f v).1.db ≡ delete_torrents (by_pubkey f.pubkey) v.db
  unfolding delete_by_pubkey ◌>>=◌ pure statement
  purge_all-db v h = rw h refl

  purge_asked-db :
      (count : ℕ) (v : World)
      → v.fails v.step ≡ false
      → (purge_asked s f count v).1.db ≡ delete_torrents (by_pubkey f.pubkey) v.db
  unfolding delete_by_pubkey ◌>>=◌ pure statement
  purge_asked-db count v h = rw h refl

  ask-db :
      (count : ℕ) (v : World)
      → v.fails v.step ≡ false
      → (ask s f count v).1.db
        ≡ (if confirmed s then delete_torrents (by_pubkey f.pubkey) v.db else v.db)
  unfolding pure
  ask-db count v h = elim (Bool-cases (confirmed s)) [
    | inl agreed ↦ rw agreed (purge_asked-db count v h)
    | inr refused ↦ rw refused refl
  ]

  sure-db :
      (sure : Bool) (count : ℕ) (v : World)
      → v.fails v.step ≡ false
      → ((if sure then purge_all s f else ask s f count) v).1.db
        ≡ (if sure || confirmed s then delete_torrents (by_pubkey f.pubkey) v.db else v.db)
  sure-db true count v h = purge_all-db v h
  sure-db false count v h = ask-db count v h

  -- With nothing to delete, deleting changes nothing.
  purge_counted-db :
      (sure : Bool) (v : World)
      → v.fails v.step ≡ false
      → (purge_counted s sure f (length (select (by_pubkey f.pubkey) v.db.torrents)) v).1.db
        ≡ (if sure || confirmed s then delete_torrents (by_pubkey f.pubkey) v.db else v.db)
  unfolding pure
  purge_counted-db sure v h =
      let count = length (select (by_pubkey f.pubkey) v.db.torrents) in
      elim (Bool-cases (count == 0)) [
        | inl nothing ↦ rw nothing (
            sym (
              if_same (sure || confirmed s)
                (delete_torrents_none (by_pubkey f.pubkey) v.db ((==_iff count 0).0 nothing))))
        | inr some_there ↦ rw some_there (sure-db sure count v h)
      ]
    where
      if_same : {x y : Db} (b : Bool) → x ≡ y → (if b then x else y) ≡ y
      if_same true e = e
      if_same false e = refl

  -- Where no statement fails, `purge` leaves the tables without the torrents of the account, their files, counts and
  -- index entries, if --yes is given or the question is answered with "y", and as they were otherwise.
  pub purge_account-db :
      (sure : Bool) (w : World)
      → NoFault w
      → (purge_account s sure f w).1.db
        ≡ (if sure || confirmed s then delete_torrents (by_pubkey f.pubkey) w.db else w.db)
  unfolding purge_account count_by_pubkey ◌>>=◌ query
  purge_account-db sure w h = rw (h w.step) (purge_counted-db sure (advance w) (h (w.step + 1)))
