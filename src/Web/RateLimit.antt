-- ===== src/Web/RateLimit.antt =====
-- internal/web/ratelimit.go: a token bucket for each address. `allow` runs under the mutex, so calls
-- are one after another. Times are nanoseconds of the monotonic clock; `rate` is positive, as
-- internal/web/server.go passes it.
pub mod Bound
pub mod Run
use revolution.Prelude.{
  word_mod, ◌%◌, ◌^◌, leb, not, ◌&&◌, ◌||◌, ℕ, ◌+◌, ◌-◌, ◌*◌, ◌/◌, ◌<◌, Text, eq_text, Bool, true,
  false, Option, none, some, ltb, ◌==◌, if◌then◌else◌,
}

-- `tokens` is an `int`, kept as the 64-bit word of its two's complement.
pub record Bucket : Type 0 where
  pub tokens : ℕ
  pub last_seen : ℕ

pub record Limiter : Type 0 where
  pub buckets : Text → Option Bucket
  pub rate : ℕ
  pub every : ℕ

-- `go l.gc()`: its rounds, and the requests, are turns on the limiter (RateLimit/Run).
unfoldable pub new_limiter : ℕ → ℕ → Limiter
new_limiter rate every = record { buckets = λ ip. none; rate = rate; every = every }

-- l.buckets[ip] = b
abbrev pub put : Limiter → Text → Bucket → Limiter
put l ip b = record l { buckets = λ j. if eq_text ip j then some b else l.buckets j }

abbrev pub is_negative : ℕ → Bool
is_negative tokens = leb (2 ^ 63) tokens

-- `if b.tokens > l.rate { b.tokens = l.rate }`
abbrev pub capped : ℕ → ℕ → ℕ
capped rate tokens = if not (is_negative tokens) && ltb rate tokens then rate else tokens

-- `if refill := int(now.Sub(b.lastSeen) / l.every); refill > 0 { … }`
abbrev pub refilled : ℕ → ℕ → ℕ → Bucket → Bucket
refilled rate every now b =
    let refill = (now - b.last_seen) / every in
    if ltb 0 refill
    then record { tokens = capped rate ((b.tokens + refill * rate) % word_mod); last_seen = now }
    else b

-- `if b.tokens <= 0 { return false }; b.tokens--; return true`
abbrev pub spend : Bucket → Bucket × Bool
spend b =
    if b.tokens == 0 || is_negative b.tokens
    then (b, false)
    else (record b { tokens = b.tokens - 1 }, true)

-- What one request does to the bucket of its address.
unfoldable pub serve : ℕ → ℕ → ℕ → Option Bucket → Bucket × Bool
serve rate every now none =
    (record { tokens = (rate + (word_mod - 1)) % word_mod; last_seen = now }, true)
serve rate every now (some b) = spend (refilled rate every now b)

unfoldable pub allow : ℕ → Text → Limiter → Limiter × Bool
unfolding serve
allow now ip l = let (b, passed) = serve l.rate l.every now (l.buckets ip) in (put l ip b, passed)

-- 10*time.Minute
abbrev pub idle_limit : ℕ
idle_limit = 600000000000

abbrev pub keep_recent : ℕ → Option Bucket → Option Bucket
keep_recent now none = none
keep_recent now (some b) = if ltb idle_limit (now - b.last_seen) then none else some b

-- One round of `gc`.
unfoldable pub gc : ℕ → Limiter → Limiter
gc now l = record l { buckets = λ ip. keep_recent now (l.buckets ip) }
