-- ===== src/Cli/Server.antt =====
-- internal/cli/server.go: the intervals of the server's tickers, and what its goroutines do to the
-- catalogue until the signal, as a sequence of turns. The site only reads, and is in Web.
pub mod Kept
use revolution.Prelude.{
  ℕ, ◌*◌, ◌%◌, ℤ, pos, lt_int, word_mod, to_word, of_word, Text, Bool, true, false, Option, none,
  some, List, [], ◌∷◌, if◌then◌else◌,
}
use revolution.Store.Exec.{World, M, pure, ◌>>=◌, ◌>>◌, try}
use revolution.Nostr.Live.{LiveEvent}
use revolution.Config.{Config}
use revolution.Ingest.Sync.{sync_all}
use revolution.Ingest.Live.{consume}
use revolution.Ingest.Reload.{Subscription, not_started, reload}
use revolution.Ingest.Scrape.{Scraper, scrape_once}
use revolution.Cli.Terminal.{Setup, Message, served}

-- time.Minute
abbrev pub minute : ℕ
minute = 60000000000

-- `time.Duration(n) * time.Minute` on `int64`, which wraps.
abbrev pub minutes : ℤ → ℤ
minutes n = of_word (to_word n * minute % word_mod)

-- `if d <= 0 { d = … * time.Minute }`
unfoldable pub interval : ℕ → ℤ → ℤ
interval default n = if lt_int (pos 0) (minutes n) then minutes n else pos (default * minute)

-- What the goroutines are started with, in nanoseconds; no scrape where it is disabled.
pub record Plan : Type 0 where
  pub live_refresh : ℤ
  pub reconcile : ℤ
  pub scrape : Option ℤ

unfoldable pub server_plan : Config → Plan
unfolding interval
server_plan cfg = record {
  live_refresh = interval 5 cfg.live_refresh_minutes;
  reconcile = interval 30 cfg.reconcile_interval_minutes;
  scrape = if cfg.scrape_enabled then some (interval 30 cfg.scrape_interval_minutes) else none;
}

-- A turn of one of the goroutines: of the safety net, of the scrape with the time before which
-- counts are old, of the reload of the subscription, or events of the subscription.
pub data Turn : Type 0 where
  reconcile_due : Turn
  scrape_due : ℤ → Turn
  refresh_due : Turn
  live_events : List LiveEvent → Turn

module _ (s : Setup) (sc : Scraper) (cfg : Config) where
  -- `syncOnce`, which logs an error.
  abbrev pub sync_once : M (Unit {0})
  sync_once = try (sync_all (s.client cfg.request_timeout_seconds)) (λ r. pure tt)

  abbrev pub scrape_if_enabled : ℤ → M (Unit {0})
  scrape_if_enabled older_than =
      if cfg.scrape_enabled then (do n ← scrape_once sc older_than; pure tt) else pure tt

  abbrev pub turn : Turn → Subscription → M Subscription
  turn reconcile_due sub = do sync_once; pure sub
  turn (scrape_due older_than) sub = do scrape_if_enabled older_than; pure sub
  turn refresh_due sub = reload sub
  turn (live_events evs) sub = do consume evs; pure sub

  unfoldable pub turns : List Turn → Subscription → M Message
  turns [] sub = pure served
  turns (t ∷ ts) sub = do next ← turn t sub; turns ts next

  -- `runServer` up to the signal, once the catalogue is open.
  unfoldable pub run_turns : List Turn → M Message
  unfolding turns
  run_turns ts = turns ts not_started
