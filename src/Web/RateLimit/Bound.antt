-- ===== src/Web/RateLimit/Bound.antt =====
-- One bucket of a limiter, where its `int` does not overflow.
use native.Mathlib.Nat.{le_trans, le-div_iff_mul-le, div-mul-le_self}
use revolution.Prelude.{
  ℕ, ◌+◌, ◌-◌, ◌*◌, ◌/◌, ◌%◌, ◌^◌, ◌≤◌, ◌<◌, ◌≡◌, refl, ◌∙◌, ap, word_mod, Bool, true, false,
  Option, none, some, ltb, leb, ◌==◌, if◌then◌else◌, arith, Bool-cases, inl, inr,
}
use revolution.Web.RateLimit.{Bucket, refilled, spend, serve, keep_recent, idle_limit}

div-add-le : (a b e : ℕ) → 0 < e → a / e + b / e ≤ (a + b) / e
div-add-le a b e h =
    (le-div_iff_mul-le h).1 (omega (arith, div-mul-le_self a e, div-mul-le_self b e))

mul_mono : (r x y : ℕ) → x ≤ y → r * x ≤ r * y
mul_mono r x y h = grind arith

div_mono : (a b e : ℕ) → 0 < e → a ≤ b → a / e ≤ b / e
div_mono a b e h k =
    let sum : a + (b - a) ≡ b = omega arith in omega (arith, rw sum at (div-add-le a (b - a) e h))

-- A full period is one more refill.
div_period : (a b e : ℕ) → 0 < e → a + e ≤ b → a / e + 1 ≤ b / e
div_period a b e h k =
    (le-div_iff_mul-le h).1 (omega (arith, div-mul-le_self a e, div_step (a / e) e))
  where
    div_step : (q d : ℕ) → (q + 1) * d ≡ q * d + d
    div_step q d = grind arith

div_next : (b e : ℕ) → 0 < e → (b + e) / e ≤ b / e + 1
div_next b e h = elim (Bool-cases (leb (b / e + 2) ((b + e) / e))) [
  | inl more ↦
      let two : (b / e + 2) * e ≡ (b / e + 1) * e + e = grind arith in
      let whole : (b / e + 2) * e ≤ b + e = (le-div_iff_mul-le h).0 (ground (arith, more)) in
      let next : b / e + 1 ≤ b / e = (le-div_iff_mul-le h).1 (omega (arith, two, whole)) in
      absurd (omega (arith, next))
  | inr fewer ↦ ground (arith, fewer)
]

div_small : (a e : ℕ) → a < e → a / e ≤ 0
div_small a e h = elim (Bool-cases (leb 1 (a / e))) [
  | inl one ↦
      let comm : a / e * e ≡ e * (a / e) = grind arith in
      let whole : e * 1 ≤ e * (a / e) = mul_mono e 1 (a / e) (ground (arith, one)) in
      absurd (omega (arith, h, comm, whole, div-mul-le_self a e))
  | inr nothing ↦ ground (arith, nothing)
]

-- Less than a period away.
div_within : (a b e : ℕ) → 0 < e → a ≤ b + e → a / e ≤ b / e + 1
div_within a b e h k = omega (arith, div_mono a (b + e) e h k, div_next b e h)

-- The refill and the cap without the wrap-around.
abbrev filled : ℕ → ℕ → ℕ → Bucket → Bucket
filled rate every now b =
    let refill = (now - b.last_seen) / every in
    if ltb 0 refill
    then record {
      tokens = if ltb rate (b.tokens + refill * rate) then rate else b.tokens + refill * rate;
      last_seen = now;
    }
    else b

abbrev spent : Bucket → Bucket × Bool
spent b = if b.tokens == 0 then (b, false) else (record b { tokens = b.tokens - 1 }, true)

refilled-filled :
    (rate every now : ℕ) (b : Bucket)
    → b.tokens + (now - b.last_seen) / every * rate < 2 ^ 63
    → refilled rate every now b ≡ filled rate every now b
refilled-filled rate every now b h = ground (arith, h)

spend-spent : (b : Bucket) → b.tokens < 2 ^ 63 → spend b ≡ spent b
spend-spent b h = ground (arith, h)

-- What a bucket may still let pass up to `end`.
abbrev allowance : ℕ → ℕ → ℕ → Bucket → ℕ
allowance rate every end b = b.tokens + rate * ((end - b.last_seen) / every)

-- A request comes through whenever a full period has passed since its bucket was last filled, for a bucket of at most `rate` tokens,
-- as `allow` leaves them, as long as the refill fits in an `int`.
pub serve_after_period :
    (rate every now : ℕ) (b : Bucket)
    → 0 < rate
    → 0 < every
    → b.tokens ≤ rate
    → b.last_seen + every ≤ now
    → rate + rate * ((now - b.last_seen) / every) < 2 ^ 63
    → (serve rate every now (some b)).1 ≡ true
unfolding serve
serve_after_period rate every now b hr he held h fits =
    let refill = (now - b.last_seen) / every in
    let due : 0 < refill = (le-div_iff_mul-le he).1 (omega arith) in
    let comm : refill * rate ≡ rate * refill = grind arith in
    let at_least : rate * 1 ≤ rate * refill = mul_mono rate 1 refill due in
    let full = filled rate every now b in
    let held_full : full.tokens ≤ rate = ground (arith, held) in
    rw
      (
        refilled-filled rate every now b (omega (arith, comm, held, fits)),
        spend-spent full (omega (arith, held_full, fits)),
      )
      (ground (arith, due, at_least, comm, hr))

-- A bucket as `allow` leaves it, at a time.
abbrev pub IsKept : ℕ → ℕ → Option Bucket → Type 0
IsKept rate now none = Unit
IsKept rate now (some b) = (b.tokens ≤ rate) × (b.last_seen ≤ now)

pub IsKept-later :
    (rate now later : ℕ) (o : Option Bucket) → now ≤ later → IsKept rate now o → IsKept rate later o
IsKept-later rate now later none h k = tt
IsKept-later rate now later (some b) h k = (k.0, omega (arith, h, k.1))

abbrev pub one_if : Bool → ℕ
one_if b = if b then 1 else 0

-- What may still pass up to `end` from a time on.
abbrev pub potential : ℕ → ℕ → ℕ → ℕ → Option Bucket → ℕ
potential rate every end now none = rate + rate * ((end - now) / every)
potential rate every end now (some b) = allowance rate every end b

-- What may pass from a time on, whatever the bucket was before it.
abbrev pub most : ℕ → ℕ → ℕ → ℕ → ℕ
most rate every end now = rate + rate * ((end - now) / every + 1)

-- What a limiter is used with: positive numbers, a period within the idle time of `gc`, and refills that fit in an `int` up to `end`.
abbrev pub Fits : ℕ → ℕ → ℕ → Type 0
Fits rate every end =
    (0 < rate) × (0 < every) × (every ≤ idle_limit) × (rate + rate * (end / every) < 2 ^ 63)

pub most_mono :
    (rate every end now later : ℕ)
    → 0 < every
    → now ≤ later
    → most rate every end later ≤ most rate every end now
most_mono rate every end now later he h =
    let fewer = div_mono (end - later) (end - now) every he (omega (arith, h)) in
    omega (
      arith,
      mul_mono rate ((end - later) / every + 1) ((end - now) / every + 1) (omega (arith, fewer)),
    )

pub potential_mono :
    (rate every end now later : ℕ) (o : Option Bucket)
    → 0 < every
    → now ≤ later
    → potential rate every end later o ≤ potential rate every end now o
potential_mono rate every end now later none he h =
    let fewer = div_mono (end - later) (end - now) every he (omega (arith, h)) in
    omega (arith, mul_mono rate ((end - later) / every) ((end - now) / every) fewer)
potential_mono rate every end now later (some b) he h = omega arith

module _ (rate every end : ℕ) (hr : 0 < rate) (he : 0 < every) (idle : every ≤ idle_limit)
    (fits : rate + rate * (end / every) < 2 ^ 63) where
  module _ (t : ℕ) (before : t ≤ end) where
    serve-none : serve rate every t none ≡ (record { tokens = rate - 1; last_seen = t }, true)
    unfolding serve
    serve-none =
        let small : (rate + (word_mod - 1)) % word_mod ≡ rate - 1 = omega (arith, hr, fits) in
        rw small refl

    module _ (b : Bucket) (kept : IsKept rate t (some b)) where
      refill_small : b.tokens + (t - b.last_seen) / every * rate < 2 ^ 63
      refill_small =
          let fewer : (t - b.last_seen) / every ≤ end / every =
            div_mono (t - b.last_seen) end every he (omega arith) in
          let less = mul_mono rate ((t - b.last_seen) / every) (end / every) fewer in
          let comm : (t - b.last_seen) / every * rate ≡ rate * ((t - b.last_seen) / every) =
            grind arith in
          omega (arith, comm, less, kept.0, fits)

      filled-IsKept : IsKept rate t (some (filled rate every t b))
      filled-IsKept = (ground (arith, kept.0), ground (arith, kept.1))

      serve-some : serve rate every t (some b) ≡ spent (filled rate every t b)
      unfolding serve
      serve-some =
          ap spend (refilled-filled rate every t b refill_small)
          ∙ spend-spent (filled rate every t b) (omega (arith, filled-IsKept.0, fits))

      -- The refills up to `t` and those after it are no more than all.
      refills :
          (t - b.last_seen) / every * rate + rate * ((end - t) / every)
          ≤ rate * ((end - b.last_seen) / every)
      refills =
          let sum : (t - b.last_seen) + (end - t) ≡ end - b.last_seen = omega (arith, kept.1) in
          omega (
            arith,
            mul_mono rate ((t - b.last_seen) / every + (end - t) / every)
                ((end - b.last_seen) / every)
                (rw sum at (div-add-le (t - b.last_seen) (end - t) every he)),
          )

      allowance-filled :
          allowance rate every end (filled rate every t b) ≤ allowance rate every end b
      allowance-filled = ground (arith, refills)

      -- The cap: however long the bucket was idle, it holds no more than `rate` now.
      filled-most : allowance rate every end (filled rate every t b) ≤ most rate every end t
      filled-most = elim (Bool-cases (leb every (t - b.last_seen))) [
        | inl due ↦
            let refill : 0 < (t - b.last_seen) / every =
              (le-div_iff_mul-le he).1 (ground (arith, due)) in
            ground (
              arith,
              refill,
              kept.0,
              mul_mono rate ((end - t) / every) ((end - t) / every + 1) (omega arith),
            )
        | inr early ↦
            let next : (end - b.last_seen) / every ≤ (end - t) / every + 1 =
              div_within (end - b.last_seen) (end - t) every he
                (omega (arith, before, kept.1, early_lt early)) in
            let none_yet : (t - b.last_seen) / every ≤ 0 =
              div_small (t - b.last_seen) every (early_lt early) in
            ground (
              arith,
              none_yet,
              kept.0,
              mul_mono rate ((end - b.last_seen) / every) ((end - t) / every + 1) next,
            )
      ]
        where
          early_lt : leb every (t - b.last_seen) ≡ false → t - b.last_seen < every
          early_lt e = ground (arith, e)

      passed-spent :
          (c : Bucket) (later : ℕ)
          → later ≤ allowance rate every end (spent c).0
          → one_if (spent c).1 + later ≤ allowance rate every end c
      passed-spent c later h = ground (arith, h)

    pub serve-IsKept :
        (o : Option Bucket) → IsKept rate t o → IsKept rate t (some (serve rate every t o).0)
    serve-IsKept none kept = rw serve-none (omega arith, omega arith)
    serve-IsKept (some b) kept =
        let full = filled-IsKept b kept in
        rw (serve-some b kept) (ground (arith, full.0), ground (arith, full.1))

    -- A request takes what passes from what may.
    pub serve-potential :
        (now later : ℕ) (o : Option Bucket)
        → now ≤ t
        → IsKept rate t o
        → later ≤ potential rate every end t (some (serve rate every t o).0)
        → one_if (serve rate every t o).1 + later ≤ potential rate every end now o
    serve-potential now later none h kept rest =
        let rest' : later ≤ (rate - 1) + rate * ((end - t) / every) = rw serve-none at rest in
        let fewer = div_mono (end - t) (end - now) every he (omega (arith, h)) in
        rw serve-none
          (omega (arith, rest', hr, mul_mono rate ((end - t) / every) ((end - now) / every) fewer))
    serve-potential now later (some b) h kept rest =
        let full = filled rate every t b in
        let rest' : later ≤ allowance rate every end (spent full).0 =
          rw (serve-some b kept) at rest in
        rw (serve-some b kept)
          (le_trans (passed-spent b kept full later rest') (allowance-filled b kept))

    pub serve-most :
        (later : ℕ) (o : Option Bucket)
        → IsKept rate t o
        → later ≤ potential rate every end t (some (serve rate every t o).0)
        → one_if (serve rate every t o).1 + later ≤ most rate every end t
    serve-most later none kept rest = omega (
      arith,
      serve-potential t later none (omega arith) kept rest,
      mul_mono rate ((end - t) / every) ((end - t) / every + 1) (omega arith),
    )
    serve-most later (some b) kept rest =
        let full = filled rate every t b in
        let rest' : later ≤ allowance rate every end (spent full).0 =
          rw (serve-some b kept) at rest in
        rw (serve-some b kept)
          (le_trans (passed-spent b kept full later rest') (filled-most b kept))

    -- A round of `gc` takes a bucket that would be full again, if it takes it.
    pub keep_recent-IsKept : (o : Option Bucket) → IsKept rate t o → IsKept rate t (keep_recent t o)
    keep_recent-IsKept none kept = tt
    keep_recent-IsKept (some b) kept = elim (Bool-cases (ltb idle_limit (t - b.last_seen))) [
      | inl old ↦ rw old tt
      | inr recent ↦ rw recent kept
    ]

    pub keep_recent-potential :
        (now : ℕ) (o : Option Bucket)
        → now ≤ t
        → potential rate every end t (keep_recent t o) ≤ potential rate every end now o
    keep_recent-potential now none h = potential_mono rate every end now t none he h
    keep_recent-potential now (some b) h = elim (Bool-cases (ltb idle_limit (t - b.last_seen))) [
      | inl old ↦
          let past : idle_limit < t - b.last_seen = ground (arith, old) in
          let more : (end - t) / every + 1 ≤ (end - b.last_seen) / every =
            div_period (end - t) (end - b.last_seen) every he (omega (arith, past, idle, before)) in
          rw old (
            omega (
              arith,
              mul_mono rate ((end - t) / every + 1) ((end - b.last_seen) / every) more,
              mul_next rate ((end - t) / every),
            ))
      | inr recent ↦ rw recent (omega arith)
    ]
      where
        mul_next : (r q : ℕ) → r * (q + 1) ≡ r + r * q
        mul_next r q = grind arith
