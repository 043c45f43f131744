-- ===== src/Cli/Run/Failing.antt =====
-- The catalogue after a command that fails (internal/cli).
mod Commands
use revolution.Prelude.{
  ℕ, ℤ, Text, text_eq, eq_text, ◌≡◌, refl, ap, ◌⊎◌, inl, inr, Bool, true, false, Option, none, some,
  List, [], ◌∷◌,
}
use revolution.Store.Db.{RelayRow, Followed}
use revolution.Store.Exec.{Error, Result, ok, err, World, M, lift, pure, raise}
use revolution.Store.Exec.Keeps.{
  Keeps-pure, Keeps-raise, Keeps-lift, Keeps-try, Keeps-query, Keeps-now, keeps_rules,
}
use revolution.Store.Exec.Failing.{
  Reads, FailsClean, FailsClean-Reads, FailsClean-statement, FailsClean-bind, FailsClean-map,
  FailsClean-require_rows, FailsClean-if,
}
use revolution.Store.Torrents.{
  get_torrent, count_by_pubkey, delete_torrent, update_torrent_fields, delete_by_pubkey,
}
use revolution.Store.Torrents.Missing.{select-not_none, delete_torrents_none, edit_torrent_none}
use revolution.Store.Relays.{add_relay, remove_relay, list_relays}
use revolution.Store.Accounts.{add_followed, remove_followed, find_followed, list_followed}
use revolution.Store.Settings.{set_setting, set_maintenance}
use revolution.Store.Backup.{backup_to}
use revolution.Cli.Terminal.{Setup, Message, open_store, or_resolved, resolve_followed}
use revolution.Cli.Follow.{follow_add, follow_rm, follow_list, cmd_follow}
use revolution.Cli.Relay.{relay_add, relay_rm, relay_list, cmd_relay}
use revolution.Cli.Torrent.{torrent_rm, torrent_edit, edit_given, cmd_torrent}
use revolution.Cli.Purge.{purge_all, ask, purge_account, cmd_purge}
use revolution.Ingest.Sync.Kept.{Keeps-if}
use revolution.Ingest.Scrape.{Scraper}
use revolution.Cli.Server.{Turn}
use revolution.Cli.Run.{
  maintenance, sync, fetch, purge, follow, relay, torrent, backup, Command, start, stop, help,
  on_catalogue, State, Exit, exit_of, on_world, run_command, run, command_named, commands,
}
use revolution.Cli.Process.{Machine}
use revolution.Cli.Site.{cmd_maintenance, cmd_backup}
use revolution.Cli.Run.Failing.Commands.{
  cmd_follow-FailsClean, cmd_relay-FailsClean, cmd_torrent-FailsClean, cmd_purge-FailsClean,
  cmd_maintenance-FailsClean, cmd_backup-FailsClean,
}

-- Commands that write with one statement, or not at all: all but sync, fetch and start.
abbrev pub is_single : Option Command → Bool
is_single none = true
is_single (some start) = false
is_single (some (on_catalogue sync)) = false
is_single (some (on_catalogue fetch)) = false
is_single (some _) = true

-- Exit code 0, or the tables as they were.
abbrev pub DoneOrSame : State → Exit × State → Type 0
DoneOrSame before (e, after) = (e.code ≡ 0) ⊎ (after.0.db ≡ before.0.db)

module _ (s : Setup) (sc : ℤ → Scraper) (ts : List Turn) where
  on_world-DoneOrSame :
      (m : M Message) (w : World) (mc : Machine)
      → FailsClean m
      → DoneOrSame (w, mc) (on_world (m w) mc)
  on_world-DoneOrSame m w mc h = elim (h.at w) [
    | inl (a, done) ↦ inl (ap (λ (r : Result Message). (exit_of r).code) done)
    | inr same ↦ inr same
  ]

  run_command-DoneOrSame :
      (c : Option Command) (args : List Text) (st : State)
      → is_single c ≡ true
      → DoneOrSame st (run_command s sc ts c args st)
  run_command-DoneOrSame none args st h = inr refl
  run_command-DoneOrSame (some help) args st h = inl refl
  run_command-DoneOrSame (some start) args st h = cc
  run_command-DoneOrSame (some stop) args (w, m) h = inr refl
  run_command-DoneOrSame (some (on_catalogue sync)) args st h = cc
  run_command-DoneOrSame (some (on_catalogue fetch)) args st h = cc
  run_command-DoneOrSame (some (on_catalogue maintenance)) args (w, m) h =
      on_world-DoneOrSame _ w m (cmd_maintenance-FailsClean s args)
  run_command-DoneOrSame (some (on_catalogue purge)) args (w, m) h =
      on_world-DoneOrSame _ w m (cmd_purge-FailsClean s args)
  run_command-DoneOrSame (some (on_catalogue follow)) args (w, m) h =
      on_world-DoneOrSame _ w m (cmd_follow-FailsClean s args)
  run_command-DoneOrSame (some (on_catalogue relay)) args (w, m) h =
      on_world-DoneOrSame _ w m (cmd_relay-FailsClean s args)
  run_command-DoneOrSame (some (on_catalogue torrent)) args (w, m) h =
      on_world-DoneOrSame _ w m (cmd_torrent-FailsClean s args)
  run_command-DoneOrSame (some (on_catalogue backup)) args (w, m) h =
      on_world-DoneOrSame _ w m (cmd_backup-FailsClean s args)

  -- Any command line other than one of sync, fetch and start exits with code 0 or leaves every table as it was,
  -- whatever its arguments are and whichever statements fail.
  pub run-DoneOrSame :
      (cmd : Text) (args : List Text) (st : State)
      → is_single (command_named cmd commands) ≡ true
      → DoneOrSame st (run s sc ts (cmd ∷ args) st)
  unfolding run
  run-DoneOrSame cmd args st h = run_command-DoneOrSame (command_named cmd commands) args st h
