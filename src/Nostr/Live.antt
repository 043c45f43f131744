-- ===== src/Nostr/Live.antt =====
-- internal/nostr/client.go, `Live`: the events of a lasting subscription, as far as it ran.
use revolution.Prelude.{
  ℤ, negsuc, add64, Text, not, ◌||◌, ◌==◌, Option, none, some, List, [], ◌∷◌, if◌then◌else◌,
}
use revolution.Store.Db.{Torrent, Profile}
use revolution.Nostr.External.{External}
use revolution.Nostr.Nip35.{Event, parse_torrent}
use revolution.Nostr.Tags.{Parse, parsed, refused, panic, ◌>>=◌}
use revolution.Nostr.Client.{
  Pool, Filter, ProfileMeta, no_items, kind_torrent, kind_profile, profile_of,
}

pub record LiveEvent : Type 0 where
  pub torrent : Option Torrent
  pub profile : Option Profile

-- `time.Now().Add(-2 * time.Minute).Unix()`
abbrev pub overlap_start : ℤ → ℤ
overlap_start at = add64 at (negsuc 119)

abbrev pub live_filter : List Text → ℤ → Filter
live_filter authors at = record {
  kinds = kind_torrent ∷ kind_profile ∷ [];
  authors = authors;
  since = some (overlap_start at);
}

abbrev pub live_torrent : Parse Torrent → Parse (Option LiveEvent)
live_torrent (parsed t) = parsed (some (record { torrent = some t; profile = none }))
live_torrent (refused e) = parsed none
live_torrent panic = panic

abbrev pub live_profile : Event → Option ProfileMeta → Option LiveEvent
live_profile e none = none
live_profile e (some m) = some (record { torrent = none; profile = some (profile_of e m) })

abbrev pub send : Option LiveEvent → List LiveEvent → List LiveEvent
send none rest = rest
send (some ev) rest = ev ∷ rest

module _ (x : External) (pool : Pool) where
  -- One turn of the loop: what goes into the channel, if anything.
  unfoldable pub live_event : Event → Parse (Option LiveEvent)
  live_event e =
      if not (pool.check_signature e)
      then parsed none
      else if e.kind == kind_torrent
      then live_torrent (parse_torrent x e)
      else if e.kind == kind_profile
      then parsed (live_profile e (pool.unmarshal e.content))
      else parsed none

  unfoldable pub live_loop : List Event → Parse (List LiveEvent)
  live_loop [] = parsed []
  live_loop (e ∷ es) = do sent ← live_event e; rest ← live_loop es; parsed (send sent rest)

  -- `at` is the time of the call.
  unfoldable pub live : List Text → List Text → ℤ → Parse (List LiveEvent)
  live relays authors at =
      if no_items relays || no_items authors
      then parsed []
      else live_loop (pool.subscribe_many relays (live_filter authors at))
