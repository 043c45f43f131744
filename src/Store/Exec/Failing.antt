-- ===== src/Store/Exec/Failing.antt =====
-- Actions that leave the tables as they were where they fail: one rule for each way in which they
-- are built.
use revolution.Prelude.{
  ℕ, ◌≡◌, refl, ◌∙◌, ap, Bool, true, false, ◌⊎◌, inl, inr, ◌==◌, if◌then◌else◌, Bool-cases, ==_iff,
}
use revolution.Store.Db.{Db}
use revolution.Store.Exec.{
  Result, ok, err, World, M, advance, pure, lift, settle, run_if, statement, continue, ◌>>=◌,
}
use revolution.Store.Exec.Keeps.{Keeps}
use revolution.Store.Torrents.{require_rows}

-- An action that changes nothing.
abbrev pub Reads : {A : Type 0} → M A → Type 0
Reads m = (before : Db) → Keeps (λ d. d ≡ before) m

-- A value, or the tables as they were.
abbrev pub ValueOrSame : {A : Type 0} → World → Result A × World → Type 0
ValueOrSame {A = A} w r = ((a : A) × (r.0 ≡ ok a)) ⊎ (r.1.db ≡ w.db)

pub record FailsClean {A : Type 0} (m : M A) : Type 0 where
  pub at : (w : World) → ValueOrSame w (m w)

module _ {A : Type 0} where
  pub FailsClean-Reads : (m : M A) → Reads m → FailsClean m
  FailsClean-Reads m h = record { at = λ w. inr ((h w.db).at w refl) }

  run_if-ValueOrSame :
      (b : Bool) (f : Db → Result (A × Db)) (w : World) → ValueOrSame w (run_if b f w)
  run_if-ValueOrSame true f w = inr refl
  run_if-ValueOrSame false f w = go (f w.db)
    where
      go : (r : Result (A × Db)) → ValueOrSame w (settle r w)
      go (ok (a, d)) = inl (a, refl)
      go (err e) = inr refl

  pub FailsClean-statement : (f : Db → Result (A × Db)) → FailsClean (statement f)
  unfolding statement
  FailsClean-statement f = record { at = λ w. run_if-ValueOrSame (w.fails w.step) f (advance w) }

module _ {A B : Type 0} where
  continue-ValueOrSame :
      (r : Result A) (f : A → M B) (w : World)
      → ((a : A) → FailsClean (f a))
      → ValueOrSame w (continue r f w)
  continue-ValueOrSame (ok a) f w h = (h a).at w
  continue-ValueOrSame (err e) f w h = inr refl

  pub FailsClean-bind :
      (m : M A) (f : A → M B) → Reads m → ((a : A) → FailsClean (f a)) → FailsClean (m >>= f)
  unfolding ◌>>=◌
  FailsClean-bind m f r h = record {
    at = λ w.
        let same : (m w).1.db ≡ w.db = (r w.db).at w refl in
        elim (continue-ValueOrSame (m w).0 f (m w).1 h) [
          | inl done ↦ inl done
          | inr kept ↦ inr (kept ∙ same)
        ];
  }

  -- What follows cannot fail.
  pub FailsClean-map : (m : M A) (g : A → B) → FailsClean m → FailsClean (m >>= λ a. pure (g a))
  unfolding ◌>>=◌ pure
  FailsClean-map m g h = record {
    at = λ w. elim (h.at w) [
      | inl (a, done) ↦
          inl (g a, ap (λ (r : Result A). (continue r (λ x v. (ok (g x), v)) (m w).1).0) done)
      | inr same ↦ inr (kept (m w).0 (m w).1 ∙ same)
    ];
  }
    where
      kept : (r : Result A) (v : World) → (continue r (λ x u. (ok (g x), u)) v).1.db ≡ v.db
      kept (ok a) v = refl
      kept (err e) v = refl

-- A statement that must affect a row, and changes nothing if it affects none.
pub FailsClean-require_rows :
    (count : Db → ℕ) (g : Db → Db)
    → ((d : Db) → count d ≡ 0 → g d ≡ d)
    → FailsClean (statement (λ db. ok (count db, g db)) >>= λ n. lift (require_rows n))
unfolding ◌>>=◌ statement lift
FailsClean-require_rows count g h = record {
  at = λ w. elim (Bool-cases (w.fails w.step)) [
    | inl bad ↦ inr (rw bad refl)
    | inr good ↦ elim (Bool-cases (count w.db == 0)) [
      | inl none_there ↦ inr (rw good (h w.db ((==_iff (count w.db) 0).0 none_there)))
      | inr some_there ↦ inl (tt, rw (good, some_there) refl)
    ]
  ];
}

pub FailsClean-if :
    {A : Type 0} (b : Bool) (m n : M A)
    → FailsClean m
    → FailsClean n
    → FailsClean (if b then m else n)
FailsClean-if true m n hm hn = hm
FailsClean-if false m n hm hn = hn
