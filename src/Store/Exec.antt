-- ===== src/Store/Exec.antt =====
-- internal/store/store.go, `Store`: the methods as actions on the catalogue.
-- `World` is the catalogue with what SQLite and the clock will answer: statement number `step`
-- fails if `fails step`, and `now()` reads `clock step` there. A method returns its result beside
-- the world that it leaves, also where it fails.
pub mod Keeps
pub mod Atomic
pub mod Failing
pub mod Faults
use revolution.Prelude.{ℕ, ◌+◌, ℤ, Bool, true, false, ◌≡◌, refl, ap, ◌⊎◌, inl, inr}
use revolution.Store.Db.{Db}

pub data Error : Type 0 where
  -- ErrNotFound
  not_found : Error
  -- a statement that SQLite refuses or cannot run
  sql_error : Error
  -- an error that the caller makes of its own arguments or configuration
  invalid_key no_relay usage bad_url bad_path : Error
  -- an option that the command line does not read, or `-h`
  bad_flag flag_help unknown_command : Error
  -- the configuration file, or another file, that cannot be read or written
  bad_config io_error : Error
  -- the process of the server
  already_running not_running bad_process not_stopped : Error

pub data Result {ℓ} (A : Type ℓ) : Type ℓ where
  ok : A → Result A
  err : Error → Result A

pub Result-cases :
    {A : Type 0} (r : Result A) → ((a : A) × (r ≡ ok a)) ⊎ ((e : Error) × (r ≡ err e))
Result-cases (ok a) = inl (a, refl)
Result-cases (err e) = inr (e, refl)

pub record World : Type 0 where
  pub db : Db
  pub clock : ℕ → ℤ
  pub fails : ℕ → Bool
  pub step : ℕ

abbrev pub M : Type 0 → Type 0
M A = World → Result A × World

abbrev pub advance : World → World
advance w = record w { step = w.step + 1 }

module _ {A : Type 0} where
  unfoldable pub pure : A → M A
  pure a w = (ok a, w)

  unfoldable pub raise : Error → M A
  raise e w = (err e, w)

  unfoldable pub lift : Result A → M A
  lift r w = (r, w)

  -- An error of the statement itself leaves the tables as they were.
  abbrev pub settle : Result (A × Db) → World → Result A × World
  settle (ok (a, d)) w = (ok a, record w { db = d })
  settle (err e) w = (err e, w)

  -- One statement, which SQLite runs whole or not at all.
  abbrev pub run_if : Bool → (Db → Result (A × Db)) → World → Result A × World
  run_if true f w = (err sql_error, w)
  run_if false f w = settle (f w.db) w

  unfoldable pub statement : (Db → Result (A × Db)) → M A
  statement f w = run_if (w.fails w.step) f (advance w)

  abbrev pub answer_if : Bool → (Db → Result A) → World → Result A × World
  answer_if true f w = (err sql_error, w)
  answer_if false f w = (f w.db, w)

  -- A statement that only reads.
  unfoldable pub query : (Db → Result A) → M A
  query f w = answer_if (w.fails w.step) f (advance w)

-- `func now() int64`
unfoldable pub now : M ℤ
now w = (ok (w.clock w.step), w)

module _ {A B : Type 0} where
  abbrev pub continue : Result A → (A → M B) → M B
  continue (ok a) f w = f a w
  continue (err e) f w = (err e, w)

  infixl 5 ◌>>=◌ ◌>>◌
  -- Opening this opens `pure`, `raise`, `lift` and `now` too.
  unfoldable pub ◌>>=◌ : M A → (A → M B) → M B
  unfolding pure raise lift now
  ◌>>=◌ m f w = continue (m w).0 f (m w).1

  abbrev pub ◌>>◌ : M A → M B → M B
  m >> n = m >>= λ _. n

  -- `if err := …; err == nil { … } else { … }`: the handler sees the result.
  unfoldable pub try : M A → (Result A → M B) → M B
  try m h w = h (m w).0 (m w).1

-- What a chain does once the result of its first part is known.
module _ {A B : Type 0} (m : M A) (f : A → M B) (w : World) where
  pub >>=-ok : (a : A) → (m w).0 ≡ ok a → (m >>= f) w ≡ f a (m w).1
  unfolding ◌>>=◌
  >>=-ok a h = ap (λ (r : Result A). continue r f (m w).1) h

  pub >>=-err : (e : Error) → (m w).0 ≡ err e → (m >>= f) w ≡ (err e, (m w).1)
  unfolding ◌>>=◌
  >>=-err e h = ap (λ (r : Result A). continue r f (m w).1) h

-- `tx, err := db.Begin(); defer tx.Rollback(); …; tx.Commit()`: a failure puts the tables back.
abbrev pub commit_or_rollback : Db → Result (Unit {0}) × World → Result (Unit {0}) × World
commit_or_rollback before (ok _, w) = elim (w.fails w.step) [
  | true ↦ (err sql_error, record w { db = before; step = w.step + 1 })
  | false ↦ (ok tt, advance w)
]
commit_or_rollback before (err e, w) = (err e, record w { db = before })

unfoldable pub transaction : M (Unit {0}) → M (Unit {0})
transaction body w = elim (w.fails w.step) [
  | true ↦ (err sql_error, advance w)
  | false ↦ commit_or_rollback w.db (body (advance w))
]
