-- ===== src/Tests/Runs.antt =====
-- internal/ingest on a relay pool with two events, and the smaller tables of internal/store.
use revolution.Prelude.{
  ◌≡◌, refl, ℤ, pos, Text, text_eq, codes, eq_text, true, none, some, List, [], ◌∷◌, max_int, All,
  select,
}
use revolution.Store.Table.{find}
use revolution.Store.Db.{Profile, Followed, empty_db, Db}
use revolution.Store.Consistent.{IsConsistent, empty_db-IsConsistent}
use revolution.Store.Consistent.Calls.{
  add_relay_call, add_followed_call, upsert_torrent_call, after_all, after_all-IsConsistent,
}
use revolution.Store.Accounts.{followed_key, upsert_profile, get_profile}
use revolution.Store.Accounts.Newest.{newest, get_profile-newest}
use revolution.Store.Exec.{ok, query, statement, transaction, ◌>>=◌}
use revolution.Store.Torrents.{upsert_torrent, upsert_body, upsert_row, insert_files}
use revolution.Store.Settings.{ScrapeTarget, torrents_due_for_scrape, upsert_torrent_stats}
use revolution.Store.Settings.Due.{without, torrents_due-upsert_torrent_stats}
use revolution.Store.FtsQuery.{fts_query}
use revolution.Store.FtsQuery.Read.{
  read, between, words, shown, IsWord, flat, is_letter, fts_query-read,
}
use revolution.Nostr.Client.{Pool}
use revolution.Nostr.Live.{LiveEvent}
use revolution.Ingest.Sync.{Client, sync_user, sync_all}
use revolution.Ingest.Sync.Cursor.{CursorAt, sync_all-CursorAt}
use revolution.Ingest.Relays.{relay_client, CaughtUpOr, FetchedAndStored, sync_user-AreFetched}
use revolution.Ingest.Live.{consume_torrent}
use revolution.Ingest.Live.Cursor.{consume_torrent-cursor}
use revolution.Tests.Events.{sample, sample-IsDocumented, small, large}
use revolution.Tests.Catalogue.{film, quiet, flaky, quiet-NoFault}

-- Two relays that send the same event, and one that is forged.
abbrev pool : Pool
pool = record {
  fetch_many = λ relays filter. small ∷ small ∷ large ∷ [];
  subscribe_many = λ relays filter. small ∷ [];
  check_signature = λ e. eq_text e.id (codes "e1");
  unmarshal = λ content. none;
}

abbrev relays : List Text
relays = codes "wss://relay.example" ∷ []

abbrev alice : Followed
alice = record {
  pubkey = codes "alice";
  alias = [];
  enabled = true;
  last_synced_at = pos 100;
  created_at = pos 50;
}

abbrev client : Client
client = relay_client sample pool

abbrev followed_db : Db
followed_db = record empty_db { followed = alice ∷ [] }

-- The tables after a relay and an account are added.
abbrev prepared : Db
prepared =
    (after_all
      (add_relay_call (codes "wss://r.example") ∷ add_followed_call (codes "alice") [] ∷ [])
      (quiet empty_db)).db

prepared-IsConsistent : IsConsistent prepared
prepared-IsConsistent =
    after_all-IsConsistent
      (add_relay_call (codes "wss://r.example") ∷ add_followed_call (codes "alice") [] ∷ [])
      (quiet empty_db) empty_db-IsConsistent

cursor_100 : CursorAt (codes "alice") (pos 100) followed_db
unfolding eq_text
cursor_100 = refl

sync_all-CursorAt_example :
    CursorAt (codes "alice") (pos 100) (sync_all client (flaky followed_db)).1.db
sync_all-CursorAt_example =
    sync_all-CursorAt (codes "alice") (pos 100) client (flaky followed_db) cursor_100

sync_user-AreFetched_example :
    CaughtUpOr sample pool relays alice
      (flaky followed_db)
      (sync_user (relay_client sample pool) relays alice (flaky followed_db))
    × FetchedAndStored sample pool sample-IsDocumented relays alice
        (flaky followed_db)
        (sync_user (relay_client sample pool) relays alice (flaky followed_db))
sync_user-AreFetched_example =
    sync_user-AreFetched sample pool sample-IsDocumented relays alice (flaky followed_db)

abbrev live_events : List LiveEvent
live_events = record { torrent = some film; profile = none } ∷ []

consume_torrent-cursor_example :
    find followed_key (codes "alice") (consume_torrent film (quiet followed_db)).1.db.followed
    ≡ some (record alice { last_synced_at = max_int (pos 100) (pos 900) })
unfolding eq_text
consume_torrent-cursor_example =
    consume_torrent-cursor film alice (quiet followed_db) (quiet-NoFault followed_db) refl

-- Two profiles of one account.
abbrev profile_at : ℤ → Profile
profile_at at = record {
  pubkey = codes "alice";
  name = codes "Al";
  display_name = [];
  picture = [];
  nip05 = [];
  updated_at = at;
}

get_profile-newest_example :
    ((get_profile
        (codes "alice")
        (upsert_profile
          (profile_at (pos 5))
          (upsert_profile (profile_at (pos 8)) (quiet empty_db)).1).1).0
      ≡ newest (profile_at (pos 8)) (get_profile (codes "alice") (quiet empty_db)).0)
    × ((get_profile
          (codes "alice")
          (upsert_profile
            (profile_at (pos 8))
            (upsert_profile (profile_at (pos 5)) (quiet empty_db)).1).1).0
        ≡ newest (profile_at (pos 8)) (get_profile (codes "alice") (quiet empty_db)).0)
get_profile-newest_example =
    get_profile-newest (profile_at (pos 5)) (profile_at (pos 8)) refl refl (quiet empty_db)
      (quiet-NoFault empty_db)

fts_query-read_example :
    (read between (fts_query (codes "a\"b  c*")) ≡ some (shown (words (codes "a\"b  c*"))))
    × All IsWord (words (codes "a\"b  c*"))
    × (flat (words (codes "a\"b  c*")) ≡ select is_letter (codes "a\"b  c*"))
fts_query-read_example = fts_query-read (codes "a\"b  c*")

fts_query_test : fts_query (codes " a\"b  c* ") ≡ codes "\"ab\"* \"c*\"*"
unfolding fts_query
fts_query_test = refl

-- The film with a tracker, which was never asked.
abbrev tracked_db : Db
tracked_db =
    (after_all (upsert_torrent_call (record film { tracker = codes "udp://example.org" }) ∷ [])
      (quiet empty_db)).db

abbrev tracked : List ScrapeTarget
tracked =
    record { torrent_id = codes "t1"; info_hash = codes "ab"; tracker = codes "udp://example.org" }
    ∷ []

tracked-due : (torrents_due_for_scrape (pos 2000) (quiet tracked_db)).0 ≡ ok tracked
unfolding torrents_due_for_scrape query upsert_torrent upsert_body upsert_row insert_files
    transaction statement ◌>>=◌ eq_text
tracked-due = refl

torrents_due-upsert_torrent_stats_example :
    (torrents_due_for_scrape
      (pos 2000)
      (upsert_torrent_stats (codes "t1") (pos 3) (pos 1) (pos 2000) (quiet tracked_db)).1).0
    ≡ ok (without (codes "t1") tracked)
torrents_due-upsert_torrent_stats_example =
    torrents_due-upsert_torrent_stats (codes "t1") (pos 3) (pos 1) (pos 2000) (pos 2000)
      (quiet tracked_db) tracked (quiet-NoFault tracked_db) refl tracked-due
