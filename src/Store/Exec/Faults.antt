-- ===== src/Store/Exec/Faults.antt =====
-- Actions do not change which statements fail (internal/store/store.go): one rule for each way in
-- which a method is built.
use revolution.Prelude.{◌≡◌, refl, ◌∙◌, Bool, true, false, Bool-cases, inl, inr}
use revolution.Store.Db.{Db}
use revolution.Store.Exec.{
  Result, ok, err, World, M, advance, lift, pure, settle, run_if, statement, continue, ◌>>=◌, now,
  commit_or_rollback, transaction,
}

pub record KeepsFaults {A : Type 0} (m : M A) : Type 0 where
  pub at : (w : World) → (m w).1.fails ≡ w.fails

module _ {A : Type 0} where
  pub KeepsFaults-pure : (a : A) → KeepsFaults (pure a)
  unfolding pure
  KeepsFaults-pure a = record { at = λ w. refl }

  pub KeepsFaults-lift : (r : Result A) → KeepsFaults (lift r)
  unfolding lift
  KeepsFaults-lift r = record { at = λ w. refl }

  run_if-fails :
      (b : Bool) (f : Db → Result (A × Db)) (w : World) → (run_if b f w).1.fails ≡ w.fails
  run_if-fails true f w = refl
  run_if-fails false f w = go (f w.db)
    where
      go : (r : Result (A × Db)) → (settle r w).1.fails ≡ w.fails
      go (ok (a, d)) = refl
      go (err e) = refl

  pub KeepsFaults-statement : (f : Db → Result (A × Db)) → KeepsFaults (statement f)
  unfolding statement
  KeepsFaults-statement f = record { at = λ w. run_if-fails (w.fails w.step) f (advance w) }

pub KeepsFaults-now : KeepsFaults now
unfolding now
KeepsFaults-now = record { at = λ w. refl }

module _ {A B : Type 0} where
  continue-fails :
      (r : Result A) (f : A → M B) (w : World)
      → ((a : A) → KeepsFaults (f a))
      → (continue r f w).1.fails ≡ w.fails
  continue-fails (ok a) f w h = (h a).at w
  continue-fails (err e) f w h = refl

  pub KeepsFaults-bind :
      (m : M A) (f : A → M B)
      → KeepsFaults m
      → ((a : A) → KeepsFaults (f a))
      → KeepsFaults (m >>= f)
  unfolding ◌>>=◌
  KeepsFaults-bind m f km kf = record { at = λ w. continue-fails (m w).0 f (m w).1 kf ∙ km.at w }

commit_or_rollback-fails :
    (before : Db) (r : Result (Unit {0})) (w : World)
    → (commit_or_rollback before (r, w)).1.fails ≡ w.fails
commit_or_rollback-fails before (ok u) w = elim (Bool-cases (w.fails w.step)) [
  | inl bad ↦ rw (bad, commit_or_rollback) refl
  | inr good ↦ rw (good, commit_or_rollback) refl
]
commit_or_rollback-fails before (err e) w = refl

pub KeepsFaults-transaction : (m : M (Unit {0})) → KeepsFaults m → KeepsFaults (transaction m)
unfolding transaction
KeepsFaults-transaction m k = record {
  at = λ w. elim (Bool-cases (w.fails w.step)) [
    | inl bad ↦ rw (bad, transaction) refl
    | inr good ↦
        rw (good, transaction)
          (commit_or_rollback-fails w.db (m (advance w)).0 (m (advance w)).1 ∙ k.at (advance w))
  ];
}

pub ruleset faults_rules = (
  KeepsFaults-pure, KeepsFaults-lift, KeepsFaults-statement, KeepsFaults-now, KeepsFaults-bind,
  KeepsFaults-transaction,
)
