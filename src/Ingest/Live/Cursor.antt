-- ===== src/Ingest/Live/Cursor.antt =====
-- The cursor of an account after a torrent of the live subscription, and the catalogue after a run.
use revolution.Prelude.{
  ◌≡◌, refl, ap, ◌∙◌, text_eq, eq_text_refl, Bool, Option, none, some, List, [], ◌∷◌, max_int,
  if◌then◌else◌,
}
use revolution.Store.Table.{find, map_option, find-update}
use revolution.Store.Db.{Torrent, Profile, Followed}
use revolution.Store.Exec.{Result, ok, err, World, M, pure, try, statement}
use revolution.Store.Exec.Keeps.{Keeps, Keeps-pure, Keeps-try}
use revolution.Store.Torrents.{upsert_torrent}
use revolution.Store.Torrents.Upsert.{NoFault, upsert_torrent_total, upsert_torrent-NoFault}
use revolution.Store.Accounts.{followed_key, mark_synced, update_last_synced}
use revolution.Store.Consistent.{IsConsistent}
use revolution.Store.Consistent.Methods.{
  upsert_torrent-Keeps, update_last_synced-Keeps, upsert_profile-Keeps,
}
use revolution.Ingest.Sync.Complete.{upsert_row-followed, FollowedIs, Keeps-upsert_torrent}
use revolution.Nostr.Live.{LiveEvent}
use revolution.Ingest.Live.{logged, then_cursor, consume_torrent, consume_event, consume}

logged-Keeps : (m : M (Unit {0})) → Keeps IsConsistent m → Keeps IsConsistent (logged m)
logged-Keeps m k = Keeps-try _ _ k (λ r. Keeps-pure tt)

then_cursor-Keeps : (t : Torrent) (r : Result (Unit {0})) → Keeps IsConsistent (then_cursor t r)
then_cursor-Keeps t (ok u) = logged-Keeps _ (update_last_synced-Keeps t.pubkey t.published_at)
then_cursor-Keeps t (err e) = Keeps-pure tt

consume_event-Keeps :
    (t : Option Torrent) (p : Option Profile) → Keeps IsConsistent (consume_event t p)
unfolding consume_torrent
consume_event-Keeps (some t) p = Keeps-try _ _ (upsert_torrent-Keeps t) (then_cursor-Keeps t)
consume_event-Keeps none none = Keeps-pure tt
consume_event-Keeps none (some p) = logged-Keeps _ (upsert_profile-Keeps p)

pub consume-Keeps : (evs : List LiveEvent) → Keeps IsConsistent (consume evs)
unfolding consume
consume-Keeps [] = Keeps-pure tt
consume-Keeps (ev ∷ evs) =
    Keeps-try _ _ (consume_event-Keeps ev.torrent ev.profile) (λ r. consume-Keeps evs)

-- Whatever the subscription brings, and whichever statements fail, a catalogue that was consistent
-- is consistent after it.
pub consume-IsConsistent :
    (evs : List LiveEvent) (w : World) → IsConsistent w.db → IsConsistent (consume evs w).1.db
consume-IsConsistent evs = (consume-Keeps evs).at

upsert_torrent-followed :
    (t : Torrent) (w : World) → (upsert_torrent t w).1.db.followed ≡ w.db.followed
upsert_torrent-followed t w =
    (Keeps-upsert_torrent (FollowedIs w.db.followed) (λ t s d h. upsert_row-followed t s d ∙ h)
        (λ d fs h. h) t).at
      w refl

-- A torrent of the live subscription moves the cursor of its followed author to its own time, if
-- that is later, where no statement fails, whether or not the torrents before it are stored.
pub consume_torrent-cursor :
    (t : Torrent) (f : Followed) (w : World)
    → NoFault w
    → find followed_key t.pubkey w.db.followed ≡ some f
    → find followed_key t.pubkey (consume_torrent t w).1.db.followed
      ≡ some (record f { last_synced_at = max_int f.last_synced_at t.published_at })
unfolding consume_torrent try pure update_last_synced statement
consume_torrent-cursor t f w h found =
    let w' = (upsert_torrent t w).1 in
    let mark = mark_synced t.published_at in
    let same : find followed_key t.pubkey w'.db.followed ≡ some f =
      ap (find followed_key t.pubkey) (upsert_torrent-followed t w) ∙ found in
    rw (upsert_torrent_total t w h) (
      rw (upsert_torrent-NoFault t w h w'.step) (
        find-update followed_key t.pubkey mark t.pubkey w'.db.followed (λ x. refl)
        ∙ ap
            (λ (b : Bool).
              if b
              then map_option mark (find followed_key t.pubkey w'.db.followed)
              else find followed_key t.pubkey w'.db.followed)
            (eq_text_refl t.pubkey)
        ∙ ap (map_option mark) same))
