-- ===== src/Tests/Rounds.antt =====
-- internal/ingest/live.go on tables with one relay and one account, and internal/nostr/client.go on
-- three profile events.
use revolution.Prelude.{
  List, Text, ℤ, eq_text, not, none, ◌≡◌, pos, codes, true, false, [], ◌∷◌, All,
}
use revolution.Store.Db.{Db, empty_db}
use revolution.Store.Exec.{World}
use revolution.Nostr.Nip35.{Event}
use revolution.Nostr.Client.{Pool, latest_loop}
use revolution.Nostr.Client.Newest.{ForgedOr, latest_loop-ForgedOr}

-- One relay and one account.
abbrev tables : Db
tables = record empty_db {
  relays = record { url = codes "wss://r.example"; enabled = true; created_at = pos 1 } ∷ [];
  followed =
      record {
        pubkey = codes "ab";
        alias = [];
        enabled = true;
        last_synced_at = pos 0;
        created_at = pos 1;
      }
      ∷ [];
}

abbrev steady : World
steady = record { db = tables; clock = λ n. pos n; fails = λ n. false; step = 0 }

-- Two profile events of one account, and one that is forged.
abbrev profile_event : Text → ℤ → Event
profile_event id at = record {
  id = id;
  pubkey = codes "ab";
  kind = 0;
  content = [];
  created_at = at;
  tags = [];
}

abbrev profile_pool : Pool
profile_pool = record {
  fetch_many = λ relays filter. [];
  subscribe_many = λ relays filter. [];
  check_signature = λ e. not (eq_text e.id (codes "f"));
  unmarshal = λ content. none;
}

abbrev profile_events : List Event
profile_events =
    profile_event (codes "a") (pos 9)
    ∷ profile_event (codes "f") (pos 99)
    ∷ profile_event (codes "b") (pos 5)
    ∷ []

latest_loop-ForgedOr_example :
    All
      (λ (c : Event). profile_pool.check_signature c ≡ true)
      (latest_loop profile_pool [] profile_events)
    × All (ForgedOr profile_pool (latest_loop profile_pool [] profile_events)) profile_events
latest_loop-ForgedOr_example = latest_loop-ForgedOr profile_pool profile_events
