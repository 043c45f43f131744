-- ===== src/Ingest/Live.antt =====
-- internal/ingest/live.go, `consumeLive`: what the channel of `Live` brings goes into the catalogue.
pub mod Cursor
use revolution.Prelude.{Option, none, some, List, [], ◌∷◌}
use revolution.Store.Db.{Torrent, Profile}
use revolution.Store.Exec.{Result, ok, err, M, pure, try}
use revolution.Store.Torrents.{upsert_torrent}
use revolution.Store.Accounts.{update_last_synced, upsert_profile}
use revolution.Nostr.Live.{LiveEvent}

-- An error is logged, and nothing more.
abbrev pub logged : M (Unit {0}) → M (Unit {0})
logged m = try m (λ r. pure tt)

-- `if err := UpsertTorrent(…); err != nil { …; continue }; UpdateLastSynced(…)`
abbrev pub then_cursor : Torrent → Result (Unit {0}) → M (Unit {0})
then_cursor t (ok u) = logged (update_last_synced t.pubkey t.published_at)
then_cursor t (err e) = pure tt

unfoldable pub consume_torrent : Torrent → M (Unit {0})
consume_torrent t = try (upsert_torrent t) (then_cursor t)

abbrev pub consume_profile : Option Profile → M (Unit {0})
consume_profile none = pure tt
consume_profile (some p) = logged (upsert_profile p)

abbrev pub consume_event : Option Torrent → Option Profile → M (Unit {0})
consume_event (some t) p = consume_torrent t
consume_event none p = consume_profile p

unfoldable pub consume : List LiveEvent → M (Unit {0})
consume [] = pure tt
consume (ev ∷ evs) = try (consume_event ev.torrent ev.profile) (λ r. consume evs)
