-- ===== src/Tests/Commands.antt =====
-- internal/cli on a catalogue with one torrent and one account.
use revolution.Prelude.{
  ◌≡◌, refl, pos, lt_int, text_eq, codes, eq_text, eq_text_refl, Text, arith, true, false, ◌||◌,
  none, some, List, [], ◌∷◌, if◌then◌else◌,
}
use revolution.Store.Db.{Db, Followed, empty_db}
use revolution.Store.Exec.{ok, ◌>>=◌, now, statement, transaction, err, usage}
use revolution.Store.Relays.{add_relay}
use revolution.Store.Accounts.{add_followed, first_named}
use revolution.Store.Torrents.{upsert_torrent, upsert_body, upsert_row, insert_files}
use revolution.Store.Torrents.ReadBack.{loaded}
use revolution.Store.Consistent.{IsConsistent, empty_db-IsConsistent}
use revolution.Store.Consistent.Calls.{
  add_relay_call, add_followed_call, upsert_torrent_call, after_all, after_all-IsConsistent,
}
use revolution.Ingest.Sync.{Client}
use revolution.Ingest.Scrape.{Scraper}
use revolution.Config.{default_config, load}
use revolution.Cli.Terminal.{Setup, load_config}
use revolution.Cli.Follow.{follow_add}
use revolution.Cli.Follow.Order.{follow_as, follow_add-order}
use revolution.Cli.Torrent.Edited.{edited}
use revolution.Program.Moderation.{purge_line, run-torrent_edit, run-purge}
use revolution.Program.Following.{follow_line, Finds, run-follow_add}
use revolution.Cli.Follow.Named.{NamesOnly}
use revolution.Cli.Purge.Answer.{LowersY, says_yes}
use revolution.Store.Consistent.Catalogue.{unless_by}
use revolution.Cli.Server.{Turn, reconcile_due, scrape_due, refresh_due, live_events, server_plan}
use revolution.Cli.Server.Kept.{PositiveOr, server_plan-positive}
use revolution.Cli.Run.{run, commands, command_named}
use revolution.Cli.Run.Kept.{run-IsConsistent}
use revolution.Cli.Run.Failing.{DoneOrSame, is_single, run-DoneOrSame}
use revolution.Tests.Catalogue.{film, quiet, flaky, quiet-NoFault}
use revolution.Tests.Events.{sample}
use revolution.Tests.Keys.{keys, yaml, files, alice_key, capitals, resolve_capitals}
use revolution.Tests.Processes.{machine}

abbrev client : Client
client = record {
  fetch_torrents = λ relays authors since. film ∷ [];
  fetch_profiles = λ relays authors. [];
}

abbrev pub setup : Setup
setup = record {
  external = sample;
  nip19 = keys;
  yaml = yaml;
  files = files;
  client = λ timeout. client;
  stdin = codes "y";
}

abbrev pub scraper : Scraper
scraper = record {
  scrape = λ tracker hashes. none;
  groups_order = λ groups. groups;
  stats_order = λ stats. stats;
}

abbrev pub day : List Turn
day =
    refresh_due
    ∷ reconcile_due
    ∷ live_events (record { torrent = some film; profile = none } ∷ [])
    ∷ scrape_due (pos 5000)
    ∷ []

abbrev pub library : Db
library =
    (after_all
      (add_relay_call (codes "wss://r.example")
        ∷ add_followed_call (codes "alice") (codes "al")
        ∷ upsert_torrent_call film
        ∷ [])
      (quiet empty_db)).db

pub library-IsConsistent : IsConsistent library
library-IsConsistent =
    after_all-IsConsistent
      (add_relay_call (codes "wss://r.example")
        ∷ add_followed_call (codes "alice") (codes "al")
        ∷ upsert_torrent_call film
        ∷ [])
      (quiet empty_db) empty_db-IsConsistent

run-IsConsistent_example :
    IsConsistent
      (run setup
        (λ timeout. scraper)
        day
        (codes "start" ∷ codes "--foreground" ∷ [])
        (flaky library, machine)).1.0.db
run-IsConsistent_example =
    run-IsConsistent setup (λ timeout. scraper) day (codes "start" ∷ codes "--foreground" ∷ [])
      (flaky library, machine) library-IsConsistent

torrent_is_single : is_single (command_named (codes "torrent") commands) ≡ true
unfolding eq_text
torrent_is_single = refl

run-DoneOrSame_example :
    DoneOrSame
      (quiet library, machine)
      (run setup
        (λ timeout. scraper)
        day
        (codes "torrent" ∷ codes "rm" ∷ codes "t9" ∷ [])
        (quiet library, machine))
run-DoneOrSame_example =
    run-DoneOrSame setup (λ timeout. scraper) day (codes "torrent") (codes "rm" ∷ codes "t9" ∷ [])
      (quiet library, machine) torrent_is_single

server_plan-positive_example :
    (lt_int (pos 0) (server_plan default_config).live_refresh ≡ true)
    × (lt_int (pos 0) (server_plan default_config).reconcile ≡ true)
    × PositiveOr (server_plan default_config).scrape
server_plan-positive_example = server_plan-positive default_config

follow_add-order_example :
    (follow_add setup (codes "alice" ∷ codes "--alias" ∷ codes "al" ∷ []) (quiet library)
      ≡ (err usage, quiet library))
    × (follow_add setup (codes "--alias" ∷ codes "al" ∷ codes "alice" ∷ []) (quiet library)
        ≡ follow_as setup (codes "alice") (codes "al") (quiet library))
follow_add-order_example = follow_add-order setup (codes "alice") (codes "al") (quiet library) refl

abbrev alice : Followed
alice = record {
  pubkey = codes "alice";
  alias = codes "al";
  enabled = true;
  last_synced_at = pos 0;
  created_at = pos 1001;
}

pub loads : load_config setup ≡ ok default_config
unfolding load
loads = refl

run-torrent_edit_example :
    loaded
      (codes "t1")
      (run setup
        (λ timeout. scraper)
        day
        (codes "torrent"
          ∷ codes "edit"
          ∷ codes "t1"
          ∷ codes "--title"
          ∷ codes "-Another-"
          ∷ codes "--category"
          ∷ []
          ∷ [])
        (quiet library, machine)).1.0.db
    ≡ (if eq_text (codes "t1") (codes "t1")
        then edited (codes "-Another-") [] (loaded (codes "t1") library)
        else loaded (codes "t1") library)
run-torrent_edit_example =
    run-torrent_edit setup default_config loads (quiet library) (quiet-NoFault library)
      (λ timeout. scraper) day machine (codes "t1") (codes "-Another-") [] (codes "t1")

named_al : first_named (codes "al") library.followed ≡ some alice
unfolding add_relay add_followed upsert_torrent upsert_body upsert_row insert_files transaction
    statement ◌>>=◌ now eq_text
named_al = refl

sample-LowersY : LowersY sample
sample-LowersY c h = refl

run-purge_example :
    loaded
      (codes "t1")
      (run setup
        (λ timeout. scraper)
        day
        (codes "purge" ∷ purge_line false (codes "al"))
        (quiet library, machine)).1.0.db
    ≡ (if false || says_yes setup.stdin
        then unless_by (codes "alice") (loaded (codes "t1") library)
        else loaded (codes "t1") library)
run-purge_example =
    run-purge setup default_config loads (quiet library) (quiet-NoFault library)
      (λ timeout. scraper) day machine false (codes "al") alice (codes "t1") sample-LowersY
      library-IsConsistent.unique_ids refl named_al

named_itself : (pubkey alias : Text) → (eq_text pubkey alias || eq_text alias alias) ≡ true
named_itself pubkey alias = ground (arith, eq_text_refl alias)

-- No account has the alias.
nobody_bo : NamesOnly alice_key (codes "bo") library.followed
unfolding add_relay add_followed upsert_torrent upsert_body upsert_row insert_files transaction
    statement ◌>>=◌ now eq_text
nobody_bo = (λ e. cc e, tt)

run-follow_add_example : Finds setup alice_key (codes "bo") (codes "bo") (
    run setup
      (λ timeout. scraper)
      day
      (codes "follow" ∷ codes "add" ∷ follow_line (codes "bo") capitals)
      (quiet library, machine))
run-follow_add_example =
    run-follow_add setup default_config loads (quiet library) (quiet-NoFault library) capitals
      (codes "bo") alice_key refl resolve_capitals (λ timeout. scraper) day machine (codes "bo")
      (named_itself alice_key (codes "bo")) nobody_bo
