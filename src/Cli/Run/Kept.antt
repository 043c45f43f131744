-- ===== src/Cli/Run/Kept.antt =====
-- The consistency of the catalogue over any command line (internal/cli).
use revolution.Prelude.{ℕ, ℤ, Text, Bool, true, false, Option, none, some, List, [], ◌∷◌}
use revolution.Store.Db.{Followed}
use revolution.Store.Exec.{Result, ok, err}
use revolution.Store.Exec.Keeps.{
  Keeps, Keeps-pure, Keeps-raise, Keeps-bind, Keeps-query, keeps_rules,
}
use revolution.Store.Torrents.{get_torrent, count_by_pubkey}
use revolution.Store.Relays.{list_enabled_relay_urls, list_relays}
use revolution.Store.Accounts.{find_followed, list_followed}
use revolution.Store.Backup.{backup_to}
use revolution.Store.Consistent.{IsConsistent}
use revolution.Store.Consistent.Methods.{
  add_followed-Keeps, add_relay-Keeps, delete_by_pubkey-Keeps, delete_torrent-Keeps,
  remove_followed-Keeps, remove_relay-Keeps, set_maintenance-Keeps, update_torrent_fields-Keeps,
}
use revolution.Ingest.Sync.Kept.{Keeps-if, sync_all-Keeps, sync_user-Keeps}
use revolution.Ingest.Scrape.{Scraper}
use revolution.Config.{Config}
use revolution.Cli.Flags.{Parsed}
use revolution.Cli.Terminal.{Setup, open_store, or_resolved, resolve_followed}
use revolution.Cli.Follow.{follow_add, follow_rm, follow_list, cmd_follow}
use revolution.Cli.Relay.{relay_add, relay_rm, relay_list, cmd_relay}
use revolution.Cli.Torrent.{torrent_rm, torrent_edit, edit_given, cmd_torrent}
use revolution.Cli.Purge.{purge_all, ask, purge_account, cmd_purge}
use revolution.Cli.Fetch.{cmd_fetch, cmd_sync}
use revolution.Cli.Site.{cmd_maintenance, cmd_backup}
use revolution.Cli.Server.{Turn}
use revolution.Cli.Server.Kept.{run_turns-Keeps}
use revolution.Cli.Run.{
  OnCatalogue, maintenance, sync, fetch, purge, follow, relay, torrent, backup, Command, start,
  stop, help, on_catalogue, State, run_server, start_loaded, start_parsed, cmd_start,
  cmd_on_catalogue, run_command, run, command_named, commands,
}

module _ (s : Setup) where
  open_store-Keeps : Keeps IsConsistent (open_store s)
  open_store-Keeps = search keeps_rules

  or_resolved-Keeps :
      (name : Text) (r : Result Followed) → Keeps IsConsistent (or_resolved s name r)
  unfolding find_followed
  or_resolved-Keeps name (ok f) = search keeps_rules
  or_resolved-Keeps name (err e) = search keeps_rules

  resolve_followed-Keeps : (name : Text) → Keeps IsConsistent (resolve_followed s name)
  unfolding resolve_followed find_followed
  resolve_followed-Keeps name = search (keeps_rules, or_resolved-Keeps)

  follow_add-Keeps : (args : List Text) → Keeps IsConsistent (follow_add s args)
  unfolding follow_add
  follow_add-Keeps args = search (keeps_rules, add_followed-Keeps)

  follow_rm-Keeps : (args : List Text) → Keeps IsConsistent (follow_rm s args)
  unfolding follow_rm
  follow_rm-Keeps args = search (keeps_rules, resolve_followed-Keeps, remove_followed-Keeps)

  follow_list-Keeps : Keeps IsConsistent (follow_list s)
  unfolding follow_list list_followed
  follow_list-Keeps = search keeps_rules

  cmd_follow-Keeps : (args : List Text) → Keeps IsConsistent (cmd_follow s args)
  unfolding cmd_follow
  cmd_follow-Keeps [] = Keeps-raise _
  cmd_follow-Keeps (sub ∷ args) = Keeps-bind _ _ open_store-Keeps (λ c.
      Keeps-if _ _ _ _ (follow_add-Keeps args) (
        Keeps-if _ _ _ _ (follow_rm-Keeps args)
          (Keeps-if _ _ _ _ (follow_list-Keeps) (Keeps-raise _))))

  relay_add-Keeps : (args : List Text) → Keeps IsConsistent (relay_add s args)
  unfolding relay_add
  relay_add-Keeps args = search (keeps_rules, add_relay-Keeps)

  relay_rm-Keeps : (args : List Text) → Keeps IsConsistent (relay_rm s args)
  unfolding relay_rm
  relay_rm-Keeps args = search (keeps_rules, remove_relay-Keeps)

  relay_list-Keeps : Keeps IsConsistent (relay_list s)
  unfolding relay_list list_relays
  relay_list-Keeps = search keeps_rules

  cmd_relay-Keeps : (args : List Text) → Keeps IsConsistent (cmd_relay s args)
  unfolding cmd_relay
  cmd_relay-Keeps [] = Keeps-raise _
  cmd_relay-Keeps (sub ∷ args) = Keeps-bind _ _ open_store-Keeps (λ c.
      Keeps-if _ _ _ _ (relay_add-Keeps args) (
        Keeps-if _ _ _ _ (relay_rm-Keeps args)
          (Keeps-if _ _ _ _ (relay_list-Keeps) (Keeps-raise _))))

  torrent_edit-Keeps : (args : List Text) → Keeps IsConsistent (torrent_edit args)
  unfolding torrent_edit edit_given get_torrent
  torrent_edit-Keeps [] = Keeps-raise _
  torrent_edit-Keeps (id ∷ args) = search (keeps_rules, update_torrent_fields-Keeps)

  cmd_torrent-Keeps : (args : List Text) → Keeps IsConsistent (cmd_torrent s args)
  unfolding cmd_torrent torrent_rm
  cmd_torrent-Keeps [] = Keeps-raise _
  cmd_torrent-Keeps (sub ∷ args) =
      search (keeps_rules, Keeps-if, open_store-Keeps, delete_torrent-Keeps, torrent_edit-Keeps)

  purge_all-Keeps : (f : Followed) → Keeps IsConsistent (purge_all s f)
  purge_all-Keeps f = Keeps-bind _ _ (delete_by_pubkey-Keeps f.pubkey) (λ n. Keeps-pure _)

  ask-Keeps : (f : Followed) (count : ℕ) → Keeps IsConsistent (ask s f count)
  ask-Keeps f count =
      Keeps-if _ _ _ _ (Keeps-bind _ _ (purge_all-Keeps f) (λ done. Keeps-pure _)) (Keeps-pure _)

  purge_account-Keeps : (sure : Bool) (f : Followed) → Keeps IsConsistent (purge_account s sure f)
  unfolding purge_account count_by_pubkey
  purge_account-Keeps sure f = Keeps-bind _ _ (Keeps-query _) (λ count.
      Keeps-if _ _ _ _ (Keeps-pure _) (Keeps-if _ _ _ _ (purge_all-Keeps f) (ask-Keeps f count)))

  cmd_purge-Keeps : (args : List Text) → Keeps IsConsistent (cmd_purge s args)
  unfolding cmd_purge
  cmd_purge-Keeps args =
      search (keeps_rules, open_store-Keeps, resolve_followed-Keeps, purge_account-Keeps)

  cmd_fetch-Keeps : (args : List Text) → Keeps IsConsistent (cmd_fetch s args)
  unfolding cmd_fetch list_enabled_relay_urls
  cmd_fetch-Keeps args =
      search (keeps_rules, open_store-Keeps, resolve_followed-Keeps, sync_user-Keeps) depth 9

  cmd_sync-Keeps : (args : List Text) → Keeps IsConsistent (cmd_sync s args)
  unfolding cmd_sync
  cmd_sync-Keeps args = search (keeps_rules, open_store-Keeps, sync_all-Keeps)

  cmd_maintenance-Keeps : (args : List Text) → Keeps IsConsistent (cmd_maintenance s args)
  unfolding cmd_maintenance
  cmd_maintenance-Keeps args = search (keeps_rules, open_store-Keeps, set_maintenance-Keeps)

  cmd_backup-Keeps : (args : List Text) → Keeps IsConsistent (cmd_backup s args)
  unfolding cmd_backup backup_to
  cmd_backup-Keeps args = search (keeps_rules, Keeps-if, open_store-Keeps)

module _ (s : Setup) (sc : ℤ → Scraper) (ts : List Turn) where
  run_server-Keeps : (cfg : Config) → Keeps IsConsistent (run_server s sc ts cfg)
  unfolding run_server
  run_server-Keeps cfg = Keeps-bind _ _ (open_store-Keeps s) (λ c. run_turns-Keeps s _ cfg ts)

  -- What a command leaves.
  abbrev IsGood : State → Type 0
  IsGood st = IsConsistent st.0.db

  start_loaded-IsGood :
      (foreground : Bool) (r : Result Config) (st : State)
      → IsGood st
      → IsGood (start_loaded s sc ts foreground r st).1
  start_loaded-IsGood foreground (err e) st h = h
  start_loaded-IsGood true (ok cfg) (w, m) h = (run_server-Keeps cfg).at w h
  start_loaded-IsGood false (ok cfg) (w, m) h = h

  start_parsed-IsGood :
      (r : Result Parsed) (st : State) → IsGood st → IsGood (start_parsed s sc ts r st).1
  start_parsed-IsGood (err e) st h = h
  start_parsed-IsGood (ok p) st h = start_loaded-IsGood _ _ st h

  cmd_on_catalogue-Keeps :
      (c : OnCatalogue) (args : List Text) → Keeps IsConsistent (cmd_on_catalogue s sc ts c args)
  cmd_on_catalogue-Keeps maintenance args = cmd_maintenance-Keeps s args
  cmd_on_catalogue-Keeps sync args = cmd_sync-Keeps s args
  cmd_on_catalogue-Keeps fetch args = cmd_fetch-Keeps s args
  cmd_on_catalogue-Keeps purge args = cmd_purge-Keeps s args
  cmd_on_catalogue-Keeps follow args = cmd_follow-Keeps s args
  cmd_on_catalogue-Keeps relay args = cmd_relay-Keeps s args
  cmd_on_catalogue-Keeps torrent args = cmd_torrent-Keeps s args
  cmd_on_catalogue-Keeps backup args = cmd_backup-Keeps s args

  run_command-IsGood :
      (c : Option Command) (args : List Text) (st : State)
      → IsGood st
      → IsGood (run_command s sc ts c args st).1
  unfolding cmd_start
  run_command-IsGood none args st h = h
  run_command-IsGood (some help) args st h = h
  run_command-IsGood (some start) args st h = start_parsed-IsGood _ st h
  run_command-IsGood (some stop) args (w, m) h = h
  run_command-IsGood (some (on_catalogue c)) args (w, m) h = (cmd_on_catalogue-Keeps c args).at w h

  -- Whatever the command line is, `start --foreground` with any sequence of turns of the server included, and
  -- whichever statements fail, a catalogue that was consistent is consistent when the program ends.
  pub run-IsConsistent :
      (args : List Text) (st : State)
      → IsConsistent st.0.db
      → IsConsistent (run s sc ts args st).1.0.db
  unfolding run
  run-IsConsistent [] st h = h
  run-IsConsistent (cmd ∷ rest) st h = run_command-IsGood (command_named cmd commands) rest st h
