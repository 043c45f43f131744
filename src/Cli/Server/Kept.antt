-- ===== src/Cli/Server/Kept.antt =====
-- The consistency of the catalogue while the server runs (internal/cli/server.go), and its intervals.
use revolution.Prelude.{
  ℕ, Text, ◌==◌, ◌^◌, ◌*◌, ◌+◌, ◌<◌, ◌≡◌, ℤ, pos, negsuc, lt_int, Bool, true, false, Option, none,
  some, List, [], ◌∷◌, arith, if◌then◌else◌,
}
use revolution.Store.Db.{Followed}
use revolution.Store.Exec.{Result, ok, err}
use revolution.Store.Exec.Keeps.{Keeps, Keeps-pure, Keeps-bind, Keeps-try, Keeps-query}
use revolution.Store.Relays.{list_enabled_relay_urls}
use revolution.Store.Accounts.{list_followed}
use revolution.Store.Consistent.{IsConsistent}
use revolution.Ingest.Sync.Kept.{sync_all-Keeps, Keeps-if}
use revolution.Ingest.Live.Cursor.{consume-Keeps}
use revolution.Ingest.Scrape.{Scraper}
use revolution.Ingest.Scrape.Kept.{scrape_once-Keeps}
use revolution.Ingest.Reload.{Subscription, not_started, reload, on_relays, on_followed}
use revolution.Config.{Config}
use revolution.Cli.Terminal.{Setup}
use revolution.Cli.Server.{
  minute, minutes, interval, server_plan, Turn, reconcile_due, scrape_due, refresh_due, live_events,
  turn, turns, run_turns,
}

on_followed-Keeps :
    (sub : Subscription) (relays : List Text) (r : Result (List Followed))
    → Keeps IsConsistent (on_followed sub relays r)
on_followed-Keeps sub relays (ok fs) = Keeps-pure _
on_followed-Keeps sub relays (err e) = Keeps-pure _

on_relays-Keeps :
    (sub : Subscription) (r : Result (List Text)) → Keeps IsConsistent (on_relays sub r)
unfolding list_followed
on_relays-Keeps sub (ok relays) = Keeps-try _ _ (Keeps-query _) (on_followed-Keeps sub relays)
on_relays-Keeps sub (err e) = Keeps-pure _

reload-Keeps : (sub : Subscription) → Keeps IsConsistent (reload sub)
unfolding reload list_enabled_relay_urls list_followed
reload-Keeps sub = Keeps-try _ _ (Keeps-query _) (on_relays-Keeps sub)

module _ (s : Setup) (sc : Scraper) (cfg : Config) where
  turn-Keeps : (t : Turn) (sub : Subscription) → Keeps IsConsistent (turn s sc cfg t sub)
  turn-Keeps reconcile_due sub =
      Keeps-bind _ _ (Keeps-try _ _ (sync_all-Keeps _) (λ r. Keeps-pure tt)) (λ u. Keeps-pure sub)
  turn-Keeps (scrape_due older_than) sub =
      Keeps-bind _ _
        (Keeps-if _ _ _ _ (Keeps-bind _ _ (scrape_once-Keeps sc older_than) (λ n. Keeps-pure tt))
          (Keeps-pure tt))
        (λ u. Keeps-pure sub)
  turn-Keeps refresh_due sub = reload-Keeps sub
  turn-Keeps (live_events evs) sub = Keeps-bind _ _ (consume-Keeps evs) (λ u. Keeps-pure sub)

  turns-Keeps : (ts : List Turn) (sub : Subscription) → Keeps IsConsistent (turns s sc cfg ts sub)
  unfolding turns
  turns-Keeps [] sub = Keeps-pure _
  turns-Keeps (t ∷ ts) sub = Keeps-bind _ _ (turn-Keeps t sub) (turns-Keeps ts)

  pub run_turns-Keeps : (ts : List Turn) → Keeps IsConsistent (run_turns s sc cfg ts)
  unfolding run_turns
  run_turns-Keeps ts = turns-Keeps ts not_started

-- The choice of a default, for any duration.
chosen-positive :
    (d : ℤ) (other : ℕ)
    → 0 < other
    → lt_int (pos 0) (if lt_int (pos 0) d then d else pos other) ≡ true
chosen-positive d other h = ground (arith, h)

interval-positive : (default : ℕ) (n : ℤ) → 0 < default → lt_int (pos 0) (interval default n) ≡ true
unfolding interval
interval-positive default n h = chosen-positive (minutes n) (default * minute) (omega arith)

-- The minutes as they are set, where there are some and their nanoseconds fit.
abbrev pub wanted : ℕ → ℤ → ℕ
wanted default (pos n) = if n == 0 then default else n
wanted default (negsuc n) = default

abbrev pub Fits : ℤ → Type 0
Fits (pos n) = n * minute < 2 ^ 63
Fits (negsuc n) = (n + 1) * minute < 2 ^ 63

interval-wanted :
    (default : ℕ) (n : ℤ) → Fits n → interval default n ≡ pos (wanted default n * minute)
unfolding interval
interval-wanted default (pos n) k = ground (arith, k)
interval-wanted default (negsuc n) k = ground (arith, k)

-- A ticker's interval, if there is one, is positive.
abbrev pub PositiveOr : Option ℤ → Type 0
PositiveOr none = Unit
PositiveOr (some d) = lt_int (pos 0) d ≡ true

chosen_scrape-PositiveOr :
    (enabled : Bool) (d : ℤ)
    → lt_int (pos 0) d ≡ true
    → PositiveOr (if enabled then some d else none)
chosen_scrape-PositiveOr true d h = h
chosen_scrape-PositiveOr false d h = tt

-- Whatever the configuration says, also where the nanoseconds overflow, the intervals of the server's tickers
-- are positive (`time.NewTicker` panics for others).
pub server_plan-positive :
    (cfg : Config)
    → (lt_int (pos 0) (server_plan cfg).live_refresh ≡ true)
      × (lt_int (pos 0) (server_plan cfg).reconcile ≡ true)
      × PositiveOr (server_plan cfg).scrape
unfolding server_plan
server_plan-positive cfg = (
  interval-positive 5 cfg.live_refresh_minutes (omega arith),
  interval-positive 30 cfg.reconcile_interval_minutes (omega arith),
  chosen_scrape-PositiveOr cfg.scrape_enabled _
      (interval-positive 30 cfg.scrape_interval_minutes (omega arith)),
)
