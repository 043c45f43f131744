-- ===== src/Store/Exec/Keeps.antt =====
-- Invariants of the catalogue: one rule for each way in which a method is built.
use revolution.Prelude.{Bool, true, false, Bool-cases, inl, inr, arith}
use revolution.Store.Db.{Db}
use revolution.Store.Exec.{
  Error, Result, ok, err, World, M, advance, pure, raise, lift, settle, run_if, statement, query,
  continue, ◌>>=◌, try, now, commit_or_rollback, transaction,
}

-- `m` keeps `P` of the tables, whether it returns or fails.
pub record Keeps {A : Type 0} (P : Db → Type 0) (m : M A) : Type 0 where
  pub at : (w : World) → P w.db → P (m w).1.db

-- The tables that a statement leaves when it succeeds.
abbrev pub Leaves : {A : Type 0} → (Db → Type 0) → Result (A × Db) → Type 0
Leaves P (ok (a, d)) = P d
Leaves P (err e) = Unit

module _ {A : Type 0} {P : Db → Type 0} where
  pub Keeps-pure : (a : A) → Keeps P (pure a)
  unfolding pure
  Keeps-pure a = record { at = λ w h. h }

  pub Keeps-lift : (r : Result A) → Keeps P (lift r)
  unfolding lift
  Keeps-lift r = record { at = λ w h. h }

  pub Keeps-raise : (e : Error) → Keeps P (raise {A = A} e)
  unfolding raise
  Keeps-raise e = record { at = λ w h. h }

  pub Keeps-query : (f : Db → Result A) → Keeps P (query f)
  unfolding query
  Keeps-query f = record { at = λ w h. ground arith }

  run_if-Keeps :
      (b : Bool) (f : Db → Result (A × Db)) (w : World)
      → ((d : Db) → P d → Leaves P (f d))
      → P w.db
      → P (run_if b f w).1.db
  run_if-Keeps true f w k h = h
  run_if-Keeps false f w k h = go (f w.db) (k w.db h)
    where
      go : (r : Result (A × Db)) → Leaves P r → P (settle r w).1.db
      go (ok (a, d)) l = l
      go (err e) l = h

  pub Keeps-statement :
      (f : Db → Result (A × Db)) → ((d : Db) → P d → Leaves P (f d)) → Keeps P (statement f)
  unfolding statement
  Keeps-statement f k = record { at = λ w h. run_if-Keeps (w.fails w.step) f (advance w) k h }

commit_or_rollback-Keeps :
    (P : Db → Type 0) (before : Db) (r : Result (Unit {0})) (w : World)
    → P before
    → P w.db
    → P (commit_or_rollback before (r, w)).1.db
commit_or_rollback-Keeps P before (ok u) w b h = ground arith
commit_or_rollback-Keeps P before (err e) w b h = b

module _ {P : Db → Type 0} where
  pub Keeps-now : Keeps P now
  unfolding now
  Keeps-now = record { at = λ w h. h }

  pub Keeps-transaction : (m : M (Unit {0})) → Keeps P m → Keeps P (transaction m)
  unfolding transaction
  Keeps-transaction m k = record {
    at = λ w h. elim (Bool-cases (w.fails w.step)) [
      | inl e ↦ rw (e, transaction) h
      | inr e ↦
          rw (e, transaction)
            (commit_or_rollback-Keeps P w.db (m (advance w)).0 (m (advance w)).1 h
              (k.at (advance w) h))
    ];
  }

module _ {A B : Type 0} {P : Db → Type 0} where
  continue-Keeps :
      (r : Result A) (f : A → M B) (w : World)
      → ((a : A) → Keeps P (f a))
      → P w.db
      → P (continue r f w).1.db
  continue-Keeps (ok a) f w k h = (k a).at w h
  continue-Keeps (err e) f w k h = h

  pub Keeps-bind :
      (m : M A) (f : A → M B) → Keeps P m → ((a : A) → Keeps P (f a)) → Keeps P (m >>= f)
  unfolding ◌>>=◌
  Keeps-bind m f km kf = record { at = λ w h. continue-Keeps (m w).0 f (m w).1 kf (km.at w h) }

  pub Keeps-try :
      (m : M A) (f : Result A → M B)
      → Keeps P m
      → ((r : Result A) → Keeps P (f r))
      → Keeps P (try m f)
  unfolding try
  Keeps-try m f km kf = record { at = λ w h. (kf (m w).0).at (m w).1 (km.at w h) }

pub ruleset keeps_rules = (
  Keeps-pure, Keeps-raise, Keeps-lift, Keeps-query, Keeps-now, Keeps-transaction, Keeps-bind,
  Keeps-try,
)
