-- ===== src/Cli/Process.antt =====
-- internal/cli/process.go, internal/cli/stop.go and the part of internal/cli/start.go that runs in
-- the background: the process of the server and its pidfile. Times are milliseconds.
pub mod Waiting
pub mod Pidfile
use revolution.Prelude.{
  ℕ, zero, suc, ◌+◌, ◌*◌, ℤ, pos, negsuc, lt_int, Text, eq_text, trim_space, Bool, true, false, not,
  Option, none, some, List, ◌∷◌, ltb, if◌then◌else◌,
}
use revolution.Store.Exec.{
  Result, ok, err, io_error, already_running, not_running, bad_process, not_stopped,
}
use revolution.Nostr.ParseInt.{parse_int}
use revolution.Nostr.ParseInt.Itoa.{itoa}
use revolution.Config.{Config}
use revolution.Cli.Terminal.{Message, started, stopped}

-- The machine that the commands run on.
pub record Machine : Type 0 where
  pub now : ℕ
  -- what `os.ReadFile` gives for the pidfile; nothing for an error
  pub pid_file : Option Text
  -- `kill -0` at a time: whether the process is there
  pub alive : ℕ → ℤ → Bool
  -- how much longer than asked a sleep takes that begins at a time
  pub late : ℕ → ℕ
  -- whether SIGTERM can be sent to the process, which `os.FindProcess` always finds
  pub signals : ℤ → Bool
  -- the binary, the log file and the new process: its id, or nothing where one of them fails
  pub spawn : Option ℤ
  -- the servers that `start` has made
  pub children : List ℤ
  -- `os.WriteFile` on the pidfile: whether it succeeds, and what is in the file then
  pub writes : Text → Bool × Option Text
  -- whether the pidfile can be removed
  pub removes : Bool

abbrev pub live_pid : Machine → Option ℤ → Option ℤ
live_pid m none = none
live_pid m (some pid) =
    if not (lt_int (pos 0) pid) then none else if m.alive m.now pid then some pid else none

abbrev pub pid_in : Machine → Option Text → Option ℤ
pid_in m none = none
pid_in m (some text) = live_pid m (parse_int (trim_space text))

-- `readPid`
unfoldable pub read_pid : Machine → Option ℤ
read_pid m = pid_in m m.pid_file

-- The loop of `waitForExit`, on fuel: whether the process is gone, and the time.
unfoldable pub wait_loop : ℕ → Machine → ℤ → ℕ → ℕ → Bool × ℕ
wait_loop zero m pid deadline now = (not (m.alive now pid), now)
wait_loop (suc fuel) m pid deadline now =
    let rest = wait_loop fuel m pid deadline (now + 100 + m.late now) in
    if ltb now deadline
    then (if m.alive now pid then rest else (true, now))
    else (not (m.alive now pid), now)

-- `waitForExit(pid, 10*time.Second)`, with one turn more than there are sleeps in it.
unfoldable pub wait_for_exit : Machine → ℤ → Bool × ℕ
unfolding wait_loop
wait_for_exit m pid = wait_loop 101 m pid (m.now + 10000) m.now

-- What is left after the wait; the pidfile is removed, or stays where that fails.
abbrev pub after_wait : Machine → Bool × ℕ → Result Message × Machine
after_wait m (gone, now) =
    if gone
    then (ok stopped, record m { now = now; pid_file = if m.removes then none else m.pid_file })
    else (err not_stopped, record m { now = now })

abbrev pub stop_pid : Machine → Option ℤ → Result Message × Machine
stop_pid m none = (err not_running, m)
stop_pid m (some pid) =
    if m.signals pid then after_wait m (wait_for_exit m pid) else (err bad_process, m)

unfoldable pub cmd_stop : Machine → Result Message × Machine
unfolding wait_for_exit read_pid
cmd_stop m = stop_pid m (read_pid m)

-- The new process is there, whether or not its pidfile can be written.
abbrev pub spawned : Config → Machine → Option ℤ → Result Message × Machine
spawned cfg m none = (err io_error, m)
spawned cfg m (some pid) =
    let after = record m { pid_file = (m.writes (itoa pid)).1; children = pid ∷ m.children } in
    if (m.writes (itoa pid)).0
    then (ok (started pid cfg.listen_addr), after)
    else (err io_error, after)

abbrev pub start_beside : Config → Machine → Option ℤ → Result Message × Machine
start_beside cfg m (some pid) = (err already_running, m)
start_beside cfg m none = spawned cfg m m.spawn

-- `cmdStart` without --foreground, once the configuration is loaded.
unfoldable pub start_background : Config → Machine → Result Message × Machine
unfolding read_pid
start_background cfg m = start_beside cfg m (read_pid m)
