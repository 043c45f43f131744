-- ===== src/Store/Exec/Atomic.antt =====
-- The two ends of a transaction.
use revolution.Prelude.{ℕ, ◌≡◌, refl, false, ◌⊎◌, inl, inr, Bool-cases, arith}
use revolution.Store.Db.{Db}
use revolution.Store.Exec.{
  Error, Result, ok, err, sql_error, World, M, advance, commit_or_rollback, transaction,
}

-- The two ways in which an action on the tables `before` can end.
abbrev pub AllOrNothing : Db → Db → Result (Unit {0}) × World → Type 0
AllOrNothing before written r =
    ((r.0 ≡ ok tt) × (r.1.db ≡ written)) ⊎ ((e : Error) × (r.0 ≡ err e) × (r.1.db ≡ before))

commit-AllOrNothing :
    (before written : Db) (r : Result (Unit {0})) (w : World)
    → (r ≡ ok tt → w.db ≡ written)
    → AllOrNothing before written (commit_or_rollback before (r, w))
commit-AllOrNothing before written (ok u) w h = elim (Bool-cases (w.fails w.step)) [
  | inl bad ↦ inr (sql_error, rw (bad, commit_or_rollback), rw (bad, commit_or_rollback))
  | inr good ↦ inl (rw (good, commit_or_rollback), rw (good, commit_or_rollback) (h refl))
]
commit-AllOrNothing before written (err e) w h = inr (e, refl, refl)

pub transaction-AllOrNothing :
    (m : M (Unit {0})) (w : World) (written : Db)
    → ((m (advance w)).0 ≡ ok tt → (m (advance w)).1.db ≡ written)
    → AllOrNothing w.db written (transaction m w)
unfolding transaction
transaction-AllOrNothing m w written h = elim (Bool-cases (w.fails w.step)) [
  | inl bad ↦ inr (sql_error, rw (bad, transaction), rw (bad, transaction))
  | inr good ↦
      rw (good, transaction)
        (commit-AllOrNothing w.db written (m (advance w)).0 (m (advance w)).1 h)
]

pub transaction_total :
    (m : M (Unit {0})) (w : World)
    → w.fails w.step ≡ false
    → (m (advance w)).0 ≡ ok tt
    → (m (advance w)).1.fails (m (advance w)).1.step ≡ false
    → (transaction m w).0 ≡ ok tt
unfolding transaction
transaction_total m w g h c =
    rw (g, transaction) (rw (h, commit_or_rollback) (rw (c, commit_or_rollback)))

pub transaction_fails :
    (m : M (Unit {0})) (w : World) (n : ℕ)
    → w.fails w.step ≡ false
    → w.fails n ≡ false
    → (m (advance w)).1.fails n ≡ false
    → (transaction m w).1.fails n ≡ false
unfolding transaction
transaction_fails m w n g h k = rw (g, transaction) (go (m (advance w)).0 (m (advance w)).1 k)
  where
    go :
        (r : Result (Unit {0})) (v : World)
        → v.fails n ≡ false
        → (commit_or_rollback w.db (r, v)).1.fails n ≡ false
    go (ok u) v h' = ground arith
    go (err e) v h' = h'
