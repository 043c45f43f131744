-- ===== src/Cli/Process/Pidfile.antt =====
-- The pidfile between `start` and `stop` (internal/cli/start.go, internal/cli/stop.go).
use revolution.Prelude.{ℕ, ◌≡◌, ◌<◌, ◌^◌, ◌⊎◌, ℤ, pos, ◌∷◌, Text, true, false, Option, none, some}
use revolution.Store.Exec.{Result, ok, err, already_running, io_error}
use revolution.Nostr.ParseInt.Itoa.{itoa}
use revolution.Config.{Config}
use revolution.Cli.Terminal.{Message, started}
use revolution.Cli.Process.{Machine, read_pid, start_background}

-- What the operating system is documented to do: a new process has a positive id, of an `int`, and is
-- there; a write that succeeds leaves the text.
pub record IsUnix (m : Machine) : Type 0 where
  pub new_process :
      (pid : ℤ)
      → m.spawn ≡ some pid
      → (n : ℕ) × (pid ≡ pos n) × (0 < n) × (n < 2 ^ 63) × (m.alive m.now pid ≡ true)
  pub written : (text : Text) → (m.writes text).0 ≡ true → (m.writes text).1 ≡ some text

abbrev pub at_time : ℕ → Machine → Machine
at_time now m = record m { now = now }

-- A process that `start` has made, with its pidfile, keeps later ones from starting as long as it is there.
abbrev pub Started : Config → Machine → Result Message → Machine → Type 0
Started cfg before r m =
    (pid : ℤ) × (r ≡ ok (started pid cfg.listen_addr))
    × (before.spawn ≡ some pid)
    × (read_pid before ≡ none)
    × (m.children ≡ pid ∷ before.children)
    × (read_pid m ≡ some pid)
    × ((now : ℕ)
        → m.alive now pid ≡ true
        → start_background cfg (at_time now m) ≡ (err already_running, at_time now m))

-- A process without a pidfile that names it for sure.
abbrev pub Orphaned : Machine → Result Message → Machine → Type 0
Orphaned before r m =
    (r ≡ err io_error)
    × ((pid : ℤ) × (before.spawn ≡ some pid)
        × (read_pid before ≡ none)
        × (m.children ≡ pid ∷ before.children)
        × ((before.writes (itoa pid)).0 ≡ false))

-- No process is made: there is one already, or the system refuses to make one.
abbrev pub Refused : Machine → Result Message → Machine → Type 0
Refused before r m =
    (m ≡ before)
    × (((pid : ℤ) × (read_pid before ≡ some pid) × (r ≡ err already_running))
        ⊎ ((before.spawn ≡ none) × (r ≡ err io_error)))

-- The three ways in which `start` can end.
abbrev pub StartedOr : Config → Machine → Result Message × Machine → Type 0
StartedOr cfg before (r, m) = Started cfg before r m ⊎ Orphaned before r m ⊎ Refused before r m

module _ (cfg : Config) (m : Machine) (doc : IsUnix m) where
  -- The machine with a process and a pidfile, at a time.
  abbrev with_file : ℕ → ℤ → Option Text → Machine
  with_file now pid file = record m { now = now; pid_file = file; children = pid ∷ m.children }
