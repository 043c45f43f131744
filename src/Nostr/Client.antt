-- ===== src/Nostr/Client.antt =====
-- internal/nostr/client.go: from what the relays send to torrents and profiles. The relay pool, the
-- signature check of go-nostr and `json.Unmarshal` are parameters.

pub mod Fetched
pub mod Lossless
pub mod Newest
use revolution.Prelude.{
  ℕ, ℤ, pos, lt_int, Text, codes, eq_text, is_empty, Bool, true, false, not, ◌||◌, ◌==◌, Option,
  none, some, List, [], ◌∷◌, if◌then◌else◌,
}
use revolution.Store.Db.{Torrent, Profile}
use revolution.Nostr.External.{External}
use revolution.Nostr.Nip35.{Event, parse_torrent}
use revolution.Nostr.Tags.{Parse, parsed, refused, panic, ◌>>=◌}

abbrev pub kind_torrent : ℕ
kind_torrent = 2003

abbrev pub kind_profile : ℕ
kind_profile = 0

pub record Filter : Type 0 where
  pub kinds : List ℕ
  pub authors : List Text
  pub since : Option ℤ

pub record ProfileMeta : Type 0 where
  pub name : Text
  pub display_name : Text
  pub picture : Text
  pub nip05 : Text

pub record Pool : Type 0 where
  -- the events that come in before the time is up, in their order
  pub fetch_many : List Text → Filter → List Event
  -- the events of a lasting subscription, up to its end
  pub subscribe_many : List Text → Filter → List Event
  pub check_signature : Event → Bool
  pub unmarshal : Text → Option ProfileMeta

abbrev pub no_items : List Text → Bool
no_items [] = true
no_items (_ ∷ _) = false

abbrev pub seen_before : Text → List Text → Bool
seen_before id [] = false
seen_before id (s ∷ ss) = eq_text s id || seen_before id ss

-- `t, err := ParseTorrent(…); if err != nil { continue }; out = append(out, t)`
abbrev pub collect : Parse Torrent → Parse (List Torrent) → Parse (List Torrent)
collect (parsed t) rest = do ts ← rest; parsed (t ∷ ts)
collect (refused e) rest = rest
collect panic rest = panic

abbrev pub torrent_filter : List Text → ℤ → Filter
torrent_filter authors since = record {
  kinds = kind_torrent ∷ [];
  authors = authors;
  since = if lt_int (pos 0) since then some since else none;
}

module _ (x : External) (pool : Pool) where
  -- The loop over the events, with the ids seen so far.
  unfoldable pub fetch_loop : List Text → List Event → Parse (List Torrent)
  fetch_loop seen [] = parsed []
  fetch_loop seen (e ∷ es) =
      let skip = fetch_loop seen es in
      let rest = fetch_loop (e.id ∷ seen) es in
      if seen_before e.id seen
      then skip
      else if not (pool.check_signature e)
      then rest
      else collect (parse_torrent x e) rest

  unfoldable pub fetch_torrents : List Text → List Text → ℤ → Parse (List Torrent)
  fetch_torrents relays authors since =
      if no_items relays || no_items authors
      then parsed []
      else fetch_loop [] (pool.fetch_many relays (torrent_filter authors since))

-- latest[PubKey] = Event, for the first event of a key or one that is newer than the one held.
abbrev pub keep_latest : Event → List Event → List Event
keep_latest e [] = e ∷ []
keep_latest e (c ∷ cs) =
    if eq_text c.pubkey e.pubkey
    then (if lt_int c.created_at e.created_at then e ∷ cs else c ∷ cs)
    else c ∷ keep_latest e cs

abbrev pub profile_of : Event → ProfileMeta → Profile
profile_of e m = record {
  pubkey = e.pubkey;
  name = m.name;
  display_name = m.display_name;
  picture = m.picture;
  nip05 = m.nip05;
  updated_at = e.created_at;
}

module _ (pool : Pool) where
  unfoldable pub latest_loop : List Event → List Event → List Event
  latest_loop latest [] = latest
  latest_loop latest (e ∷ es) =
      latest_loop (if pool.check_signature e then keep_latest e latest else latest) es

  abbrev pub readable : Event → Option ProfileMeta → List Profile → List Profile
  readable e none rest = rest
  readable e (some m) rest = profile_of e m ∷ rest

  abbrev pub profiles : List Event → List Profile
  profiles [] = []
  profiles (e ∷ es) = readable e (pool.unmarshal e.content) (profiles es)

  unfoldable pub fetch_profiles : List Text → List Text → List Profile
  unfolding latest_loop
  fetch_profiles relays authors =
      if no_items relays || no_items authors
      then []
      else profiles (
          latest_loop [] (
            pool.fetch_many relays
              (record { kinds = kind_profile ∷ []; authors = authors; since = none })))
