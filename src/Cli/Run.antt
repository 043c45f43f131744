-- ===== src/Cli/Run.antt =====
-- internal/cli/cli.go, `Run`, with the choice of `cmdStart` (internal/cli/start.go).
pub mod Kept
pub mod Failing
use revolution.Prelude.{
  ℕ, ℤ, Text, text_eq, codes, eq_text, Bool, true, false, Option, none, some, List, [], ◌∷◌,
  if◌then◌else◌,
}
use revolution.Store.Exec.{Error, Result, ok, err, World, M, ◌>>=◌, ◌>>◌}
use revolution.Config.{Config}
use revolution.Ingest.Scrape.{Scraper}
use revolution.Cli.Flags.{FlagSet, bool_flag, Parsed, parse, is_set}
use revolution.Cli.Terminal.{Setup, Message, load_config, open_store}
use revolution.Cli.Follow.{cmd_follow}
use revolution.Cli.Relay.{cmd_relay}
use revolution.Cli.Torrent.{cmd_torrent}
use revolution.Cli.Purge.{cmd_purge}
use revolution.Cli.Fetch.{cmd_fetch, cmd_sync}
use revolution.Cli.Site.{cmd_maintenance, cmd_backup}
use revolution.Cli.Process.{Machine, cmd_stop, start_background}
use revolution.Cli.Server.{Turn, run_turns}

-- The commands that work on the catalogue alone.
pub data OnCatalogue : Type 0 where
  maintenance sync fetch purge follow relay torrent backup : OnCatalogue

pub data Command : Type 0 where
  start stop help : Command
  on_catalogue : OnCatalogue → Command

abbrev pub commands : List (Text × Command)
commands =
    (codes "start", start)
    ∷ (codes "stop", stop)
    ∷ (codes "maintenance", on_catalogue maintenance)
    ∷ (codes "sync", on_catalogue sync)
    ∷ (codes "fetch", on_catalogue fetch)
    ∷ (codes "purge", on_catalogue purge)
    ∷ (codes "follow", on_catalogue follow)
    ∷ (codes "relay", on_catalogue relay)
    ∷ (codes "torrent", on_catalogue torrent)
    ∷ (codes "backup", on_catalogue backup)
    ∷ (codes "help", help)
    ∷ (codes "-h", help)
    ∷ (codes "--help", help)
    ∷ []

abbrev pub command_named : Text → List (Text × Command) → Option Command
command_named name [] = none
command_named name ((n, c) ∷ cs) = if eq_text n name then some c else command_named name cs

-- The process's exit code, and what it shows: a message, an error, or the usage.
pub data Shown : Type 0 where
  message : Message → Shown
  error : Error → Shown
  usage_text : Shown

pub record Exit : Type 0 where
  pub code : ℕ
  pub shown : Shown

abbrev pub exit_of : Result Message → Exit
exit_of (ok m) = record { code = 0; shown = message m }
exit_of (err e) = record { code = 1; shown = error e }

abbrev pub start_flags : FlagSet
start_flags = (codes "foreground", bool_flag) ∷ []

-- The catalogue and the machine, on which the commands work.
abbrev pub State : Type 0
State = World × Machine

abbrev pub on_world : Result Message × World → Machine → Exit × State
on_world (r, w) m = (exit_of r, (w, m))

abbrev pub on_machine : Result Message × Machine → World → Exit × State
on_machine (r, m) w = (exit_of r, (w, m))

module _ (s : Setup) (sc : ℤ → Scraper) (ts : List Turn) where
  -- `runServer`
  unfoldable pub run_server : Config → M Message
  run_server cfg = do open_store s; run_turns s (sc cfg.scrape_timeout_seconds) cfg ts

  abbrev pub start_loaded : Bool → Result Config → State → Exit × State
  start_loaded foreground (err e) st = (exit_of (err e), st)
  start_loaded true (ok cfg) (w, m) = on_world (run_server cfg w) m
  start_loaded false (ok cfg) (w, m) = on_machine (start_background cfg m) w

  abbrev pub start_parsed : Result Parsed → State → Exit × State
  start_parsed (err e) st = (exit_of (err e), st)
  start_parsed (ok p) st = start_loaded (is_set (codes "foreground") p.given) (load_config s) st

  unfoldable pub cmd_start : List Text → State → Exit × State
  unfolding run_server
  cmd_start args st = start_parsed (parse start_flags [] args) st

  abbrev pub cmd_on_catalogue : OnCatalogue → List Text → M Message
  cmd_on_catalogue maintenance args = cmd_maintenance s args
  cmd_on_catalogue sync args = cmd_sync s args
  cmd_on_catalogue fetch args = cmd_fetch s args
  cmd_on_catalogue purge args = cmd_purge s args
  cmd_on_catalogue follow args = cmd_follow s args
  cmd_on_catalogue relay args = cmd_relay s args
  cmd_on_catalogue torrent args = cmd_torrent s args
  cmd_on_catalogue backup args = cmd_backup s args

  abbrev pub run_command : Option Command → List Text → State → Exit × State
  run_command none args st = (record { code = 2; shown = usage_text }, st)
  run_command (some help) args st = (record { code = 0; shown = usage_text }, st)
  run_command (some start) args st = cmd_start args st
  run_command (some stop) args (w, m) = on_machine (cmd_stop m) w
  run_command (some (on_catalogue c)) args (w, m) = on_world (cmd_on_catalogue c args w) m

  unfoldable pub run : List Text → State → Exit × State
  unfolding cmd_start
  run [] st = (record { code = 2; shown = usage_text }, st)
  run (cmd ∷ rest) st = run_command (command_named cmd commands) rest st
