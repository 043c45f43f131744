-- ===== src/Web/RateLimit/Run.antt =====
-- A limiter with its requests and the rounds of `gc` between them, in the order in which they hold the mutex.
use native.Mathlib.Nat.{le_trans}
use revolution.Prelude.{
  ℕ, ◌+◌, ◌-◌, ◌*◌, ◌/◌, ◌≤◌, ◌≡◌, refl, ap, ◌∙◌, Text, eq_text, eq_text_iff, Bool, false, ◌&&◌,
  Option, some, List, [], ◌∷◌, if◌then◌else◌, arith, Bool-cases, inl, inr,
}
use revolution.Web.RateLimit.{Bucket, Limiter, serve, allow, new_limiter, gc, keep_recent}
use revolution.Web.RateLimit.Bound.{
  IsKept, IsKept-later, one_if, potential, most, most_mono, potential_mono, Fits, serve-IsKept,
  serve-potential, serve-most, keep_recent-IsKept, keep_recent-potential,
}

pub data Turn : Type 0 where
  -- the address and the time
  request : Text → ℕ → Turn
  collect : ℕ → Turn

abbrev pub time_of : Turn → ℕ
time_of (request ip t) = t
time_of (collect t) = t

-- Each turn is at or after the one before, and none is after `end`.
abbrev pub InOrder : ℕ → ℕ → List Turn → Type 0
InOrder from end [] = from ≤ end
InOrder from end (u ∷ us) = (from ≤ time_of u) × InOrder (time_of u) end us

abbrev pub turn : Turn → Limiter → Limiter
turn (request ip t) l = (allow t ip l).0
turn (collect t) l = gc t l

unfoldable pub run : Limiter → List Turn → Limiter
run l [] = l
run l (u ∷ us) = run (turn u l) us

-- Whether a turn is a request of `j` that passes.
abbrev pub passes : Text → Turn → Limiter → Bool
passes j (request ip t) l = eq_text ip j && (allow t ip l).1
passes j (collect t) l = false

-- How many requests of the address `j` pass.
unfoldable pub run_count : Text → Limiter → List Turn → ℕ
run_count j l [] = 0
run_count j l (u ∷ us) = one_if (passes j u l) + run_count j (turn u l) us

InOrder-le : (from end : ℕ) (us : List Turn) → InOrder from end us → from ≤ end
InOrder-le from end [] h = h
InOrder-le from end (u ∷ us) h = omega (arith, h.0, InOrder-le (time_of u) end us h.1)

-- What a turn does to the bucket of `j`.
abbrev bucket_turn : ℕ → ℕ → Text → Turn → Option Bucket → Option Bucket
bucket_turn rate every j (request ip t) o =
    if eq_text ip j then some (serve rate every t o).0 else o
bucket_turn rate every j (collect t) o = keep_recent t o

abbrev bucket_passes : ℕ → ℕ → Text → Turn → Option Bucket → Bool
bucket_passes rate every j (request ip t) o = eq_text ip j && (serve rate every t o).1
bucket_passes rate every j (collect t) o = false

module _ (j : Text) (l : Limiter) where
  turn-bucket : (u : Turn) → (turn u l).buckets j ≡ bucket_turn l.rate l.every j u (l.buckets j)
  unfolding allow gc
  turn-bucket (request ip t) = elim (Bool-cases (eq_text ip j)) [
    | inl same ↦ rw same (
        ap (λ (k : Text). some (serve l.rate l.every t (l.buckets k)).0)
          ((eq_text_iff ip j).0 same))
    | inr other ↦ rw other refl
  ]
  turn-bucket (collect t) = refl

  turn-passes : (u : Turn) → passes j u l ≡ bucket_passes l.rate l.every j u (l.buckets j)
  unfolding allow
  turn-passes (request ip t) = elim (Bool-cases (eq_text ip j)) [
    | inl same ↦
        rw same
          (ap (λ (k : Text). (serve l.rate l.every t (l.buckets k)).1) ((eq_text_iff ip j).0 same))
    | inr other ↦ rw other refl
  ]
  turn-passes (collect t) = refl

turn-rate : (u : Turn) (l : Limiter) → ((turn u l).rate ≡ l.rate) × ((turn u l).every ≡ l.every)
unfolding allow gc
turn-rate (request ip t) l = (refl, refl)
turn-rate (collect t) l = (refl, refl)

module _ (rate every end : ℕ) (fits : Fits rate every end) (j : Text) where
  turn-IsKept :
      (u : Turn) (o : Option Bucket)
      → time_of u ≤ end
      → IsKept rate (time_of u) o
      → IsKept rate (time_of u) (bucket_turn rate every j u o)
  turn-IsKept (request ip t) o h kept = elim (Bool-cases (eq_text ip j)) [
    | inl same ↦ rw same (serve-IsKept rate every end fits.0 fits.1 fits.2 fits.3 t h o kept)
    | inr other ↦ rw other kept
  ]
  turn-IsKept (collect t) o h kept =
      keep_recent-IsKept rate every end fits.0 fits.1 fits.2 fits.3 t h o kept

  turn-potential :
      (u : Turn) (now later : ℕ) (o : Option Bucket)
      → now ≤ time_of u
      → time_of u ≤ end
      → IsKept rate (time_of u) o
      → later ≤ potential rate every end (time_of u) (bucket_turn rate every j u o)
      → one_if (bucket_passes rate every j u o) + later ≤ potential rate every end now o
  turn-potential (request ip t) now later o lo hi kept rest = elim (Bool-cases (eq_text ip j)) [
    | inl same ↦ rw same (
        serve-potential rate every end fits.0 fits.1 fits.2 fits.3 t hi now later o lo kept
          (rw same at rest))
    | inr other ↦
        let rest' : later ≤ potential rate every end t o = rw other at rest in
        rw other (omega (arith, rest', potential_mono rate every end now t o fits.1 lo))
  ]
  turn-potential (collect t) now later o lo hi kept rest =
      omega (
        arith,
        rest,
        keep_recent-potential rate every end fits.0 fits.1 fits.2 fits.3 t hi now o lo,
      )

module _ (rate every end : ℕ) (fits : Fits rate every end) (j : Text) where
  turn-most :
      (u : Turn) (later : ℕ) (o : Option Bucket)
      → time_of u ≤ end
      → IsKept rate (time_of u) o
      → later ≤ potential rate every end (time_of u) (bucket_turn rate every j u o)
      → later ≤ most rate every end (time_of u)
      → one_if (bucket_passes rate every j u o) + later ≤ most rate every end (time_of u)
  turn-most (request ip t) later o hi kept rest all = elim (Bool-cases (eq_text ip j)) [
    | inl same ↦
        rw same (
          serve-most rate every end fits.0 fits.1 fits.2 fits.3 t hi later o kept (rw same at rest))
    | inr other ↦ rw other (omega (arith, all))
  ]
  turn-most (collect t) later o hi kept rest all = omega (arith, all)

-- Every bucket is as `allow` leaves it.
pub record IsBounded (now : ℕ) (l : Limiter) : Type 0 where
  pub at_ip : (ip : Text) → IsKept l.rate now (l.buckets ip)

module _ (end : ℕ) where
  abbrev pub FitsLimiter : Limiter → Type 0
  FitsLimiter l = Fits l.rate l.every end

  turn-Fits : (u : Turn) (l : Limiter) → FitsLimiter l → FitsLimiter (turn u l)
  turn-Fits u l fits = rw ((turn-rate u l).0, (turn-rate u l).1) fits

  turn-IsBounded :
      (u : Turn) (l : Limiter) (now : ℕ)
      → FitsLimiter l
      → now ≤ time_of u
      → time_of u ≤ end
      → IsBounded now l
      → IsBounded (time_of u) (turn u l)
  turn-IsBounded u l now fits lo hi h = record {
    at_ip = λ j.
        rw ((turn-rate u l).0, turn-bucket j l u)
          (turn-IsKept l.rate l.every end fits j u (l.buckets j) hi
            (IsKept-later l.rate now (time_of u) (l.buckets j) lo (h.at_ip j)));
  }

  -- What passes of a run is no more than what may.
  run_count-potential :
      (j : Text) (us : List Turn) (l : Limiter) (now : ℕ)
      → FitsLimiter l
      → InOrder now end us
      → IsBounded now l
      → run_count j l us ≤ potential l.rate l.every end now (l.buckets j)
  unfolding run_count
  run_count-potential j [] l now fits order h = omega arith
  run_count-potential j (u ∷ us) l now fits order h =
      let t = time_of u in
      let hi = InOrder-le t end us order.1 in
      let later = run_count j (turn u l) us in
      let rest =
        run_count-potential j us (turn u l) t (turn-Fits u l fits) order.1
          (turn-IsBounded u l now fits order.0 hi h) in
      let rest' : later
          ≤ potential l.rate l.every end t (bucket_turn l.rate l.every j u (l.buckets j)) =
        rw ((turn-rate u l).0, (turn-rate u l).1, turn-bucket j l u) at rest in
      rw (turn-passes j l u) (
        turn-potential l.rate l.every end fits j u now later (l.buckets j) order.0 hi
          (IsKept-later l.rate now t (l.buckets j) order.0 (h.at_ip j)) rest')

  run_count-most :
      (j : Text) (us : List Turn) (l : Limiter) (now : ℕ)
      → FitsLimiter l
      → InOrder now end us
      → IsBounded now l
      → run_count j l us ≤ most l.rate l.every end now
  unfolding run_count
  run_count-most j [] l now fits order h = omega arith
  run_count-most j (u ∷ us) l now fits order h =
      let t = time_of u in
      let hi = InOrder-le t end us order.1 in
      let later = run_count j (turn u l) us in
      let bounded = turn-IsBounded u l now fits order.0 hi h in
      let rest = run_count-potential j us (turn u l) t (turn-Fits u l fits) order.1 bounded in
      let rest' : later
          ≤ potential l.rate l.every end t (bucket_turn l.rate l.every j u (l.buckets j)) =
        rw ((turn-rate u l).0, (turn-rate u l).1, turn-bucket j l u) at rest in
      let all = run_count-most j us (turn u l) t (turn-Fits u l fits) order.1 bounded in
      let all' : later ≤ most l.rate l.every end t =
        rw ((turn-rate u l).0, (turn-rate u l).1) at all in
      le_trans
        (rw (turn-passes j l u) (
          turn-most l.rate l.every end fits j u later (l.buckets j) hi
            (IsKept-later l.rate now t (l.buckets j) order.0 (h.at_ip j)) rest' all'))
        (most_mono l.rate l.every end now t fits.1 order.0)

-- The numbers and the buckets of a limiter after a run that ends at `now` at the latest.
run_kept :
    (us : List Turn) (l : Limiter) (from now end : ℕ)
    → now ≤ end
    → FitsLimiter end l
    → InOrder from now us
    → IsBounded from l
    → ((run l us).rate ≡ l.rate) × ((run l us).every ≡ l.every) × IsBounded now (run l us)
unfolding run
run_kept [] l from now end hi fits order h = (
  refl,
  refl,
  record { at_ip = λ j. IsKept-later l.rate from now (l.buckets j) order (h.at_ip j) },
)
run_kept (u ∷ us) l from now end hi fits order h =
    let below : time_of u ≤ end = omega (arith, InOrder-le (time_of u) now us order.1, hi) in
    let bounded = turn-IsBounded end u l from fits order.0 below h in
    let (rate, every, kept) =
      run_kept us (turn u l) (time_of u) now end hi (turn-Fits end u l fits) order.1 bounded in
    (rate ∙ (turn-rate u l).0, every ∙ (turn-rate u l).1, kept)

-- In any window from `start` to `end`, after any requests of any addresses and any rounds of `gc`, a limiter lets pass at most `rate`
-- requests of an address, and `rate` more for each full period of the window and one period that began before it, if times do not go
-- back, the period is at most the ten minutes after which `gc` takes a bucket, and the refills up to `end` fit in an `int`.
pub new_limiter-bound :
    (rate every start end : ℕ) (j : Text) (before window : List Turn)
    → Fits rate every end
    → InOrder 0 start before
    → InOrder start end window
    → run_count j (run (new_limiter rate every) before) window
      ≤ rate + rate * ((end - start) / every + 1)
unfolding new_limiter run
new_limiter-bound rate every start end j before window fits past now =
    let fresh = new_limiter rate every in
    let (same_rate, same_every, bounded) =
      run_kept before fresh 0 start end (InOrder-le start end window now) fits past
        (record { at_ip = λ ip. tt }) in
    let all =
      run_count-most end j window (run fresh before) start (rw (same_rate, same_every) fits) now
        bounded in
    rw (same_rate, same_every) at all
