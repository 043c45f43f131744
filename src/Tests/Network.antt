-- ===== src/Tests/Network.antt =====
-- internal/scrape/scrape.go against a tracker that answers, and internal/web/ratelimit.go.
use revolution.Prelude.{
  ◌+◌, ◌-◌, ◌*◌, ◌/◌, ◌≤◌, ◌≡◌, refl, Text, codes, eq_text, true, some, List, [], ◌∷◌, ◌++◌, arith,
  take,
}
use revolution.Scrape.Wire.{Bytes, put32, put64, get32, get64, decode_hex}
use revolution.Scrape.{Stats, Result, ok, datagram, Conn, connect, raw_hashes, do_scrape}
use revolution.Scrape.Protocol.{Answers, answer, pair_up, do_scrape-answer}
use revolution.Web.RateLimit.{new_limiter, allow, gc, serve}
use revolution.Web.RateLimit.Bound.{serve_after_period}
use revolution.Web.RateLimit.Run.{Turn, request, collect, run, run_count, new_limiter-bound}

abbrev hashes : List Text
hashes =
    codes "aaaaaaaaaaaaaaaaaaaaaaaaaaaaaaaaaaaaaaaa"
    ∷ codes "bbbbbbbbbbbbbbbbbbbbbbbbbbbbbbbbbbbbbbbb"
    ∷ []

abbrev bytes_or_nil : Result Bytes → Bytes
bytes_or_nil (ok b) = b
bytes_or_nil _ = []

abbrev raw : Bytes
raw = bytes_or_nil (raw_hashes hashes)

-- The tracker has counts for the first hash alone.
abbrev counts : List Stats
counts = record { seeders = 3; completed = 70000; leechers = 1 } ∷ []

abbrev tracker : Conn
tracker message = datagram (answer 9 counts)

raw_good : raw_hashes hashes ≡ ok raw
unfolding raw_hashes decode_hex
raw_good = refl

do_scrape-answer_example : do_scrape 9 tracker 77 hashes ≡ ok (pair_up hashes counts [])
do_scrape-answer_example =
    do_scrape-answer 9 77 tracker hashes raw counts (omega arith) raw_good refl (omega arith)
      (omega arith)

-- A reply to `connect` with the id 77.
abbrev hello : Bytes
hello = put32 0 ++ (put32 9 ++ put64 77)

abbrev greeter : Conn
greeter message = datagram hello

greeting : Answers 9 77 (take 16 hello)
unfolding put32 put64 get32 get64
greeting = (omega arith, refl, refl, refl)

greeted : connect 9 greeter ≡ ok 77
unfolding connect put32 put64 get32 get64
greeted = refl

-- Four requests of one address, and one of another.
abbrev alice : Text
alice = codes "10.0.0.1"

abbrev earlier : List Turn
earlier = request alice 10 ∷ collect 15 ∷ []

abbrev requests : List Turn
requests =
    request (codes "10.0.0.2") 20
    ∷ request alice 30
    ∷ request alice 40
    ∷ collect 60
    ∷ request alice 150
    ∷ []

new_limiter-bound_example :
    run_count alice (run (new_limiter 2 100) earlier) requests ≤ 2 + 2 * ((150 - 20) / 100 + 1)
new_limiter-bound_example =
    new_limiter-bound 2 100 20 150 alice earlier requests
      (omega arith, omega arith, omega arith, omega arith) (omega arith, (omega arith, omega arith))
      (omega arith, (omega arith, (omega arith, (omega arith, (omega arith, omega arith)))))

-- The second of the three after the first is refused.
run_count_test : run_count alice (run (new_limiter 2 100) earlier) requests ≡ 2
unfolding run_count run new_limiter allow gc eq_text
run_count_test = refl

serve_after_period_example :
    (serve 2 100 150 (some (record { tokens = 0; last_seen = 10 }))).1 ≡ true
serve_after_period_example =
    serve_after_period 2 100 150 (record { tokens = 0; last_seen = 10 }) (omega arith) (omega arith)
      (omega arith) (omega arith) (omega arith)
