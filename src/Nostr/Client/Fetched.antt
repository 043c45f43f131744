-- ===== src/Nostr/Client/Fetched.antt =====
-- The torrents that `FetchTorrents` returns, by the events that the relays sent.
use revolution.Prelude.{
  ◌≡◌, refl, subst, ap, ◌∙◌, ℤ, Text, text_eq, eq_text, eq_text_comm, true, false, none, List, [],
  ◌∷◌, All, arith, Bool-cases, inl, inr, ◌⊎◌,
}
use revolution.Store.Table.{find, IsUnique}
use revolution.Store.Db.{Torrent}
use revolution.Nostr.External.{External, IsDocumented}
use revolution.Nostr.Nip35.{Event, parse_torrent}
use revolution.Nostr.Tags.{Parse, parsed, refused, panic}
use revolution.Nostr.Nip35.Accepted.{parse_torrent-IsAccepted}
use revolution.Nostr.Nip35.Total.{is_panic, parse_torrent_total}
use revolution.Nostr.Client.{Pool, seen_before, collect, fetch_loop, fetch_torrents, torrent_filter}

abbrev pub torrent_id : Torrent → Text
torrent_id t = t.id

collect_total :
    (r : Parse Torrent) (us : List Torrent)
    → is_panic r ≡ false
    → (ts : List Torrent) × (collect r (parsed us) ≡ parsed ts)
collect_total (parsed t) us h = (t ∷ us, refl)
collect_total (refused e) us h = (us, refl)
collect_total panic us h = cc

find-fresh :
    (id : Text) (ts : List Torrent)
    → All (λ (t : Torrent). eq_text id t.id ≡ false) ts
    → find torrent_id id ts ≡ none
find-fresh id [] h = refl
find-fresh id (t ∷ ts) h = ground (arith, h, eq_text_comm id t.id, find-fresh id ts h.1)

module _ (x : External) (pool : Pool) (doc : IsDocumented x) where
  fetch_loop_total :
      (seen : List Text) (es : List Event)
      → (ts : List Torrent) × (fetch_loop x pool seen es ≡ parsed ts)
  unfolding fetch_loop
  fetch_loop_total seen [] = ([], refl)
  fetch_loop_total seen (e ∷ es) = elim (Bool-cases (seen_before e.id seen)) [
    | inl old ↦ rw old (fetch_loop_total seen es)
    | inr unseen ↦
        let (us, rest) = fetch_loop_total (e.id ∷ seen) es in
        elim (Bool-cases (pool.check_signature e)) [
          | inl signed ↦
              rw (unseen, signed)
                (rw rest (collect_total (parse_torrent x e) us (parse_torrent_total x e doc)))
          | inr forged ↦ rw (unseen, forged) (us, rest)
        ]
  ]

  -- Some event of the list is signed and is the torrent.
  abbrev pub ComesFrom : Torrent → List Event → Type 0
  ComesFrom t [] = ⊥
  ComesFrom t (e ∷ es) =
      ((pool.check_signature e ≡ true) × (parse_torrent x e ≡ parsed t)) ⊎ ComesFrom t es

  -- Nothing but signed events that are torrents, and no id twice or among those seen.
  abbrev pub AreFetched : List Text → List Event → List Torrent → Type 0
  AreFetched seen es ts =
      All (λ (t : Torrent). ComesFrom t es × (seen_before t.id seen ≡ false)) ts
      × IsUnique torrent_id ts

  later-AreFetched :
      (e : Event) (seen seen' : List Text) (es : List Event) (ts : List Torrent)
      → ((id : Text) → seen_before id seen' ≡ false → seen_before id seen ≡ false)
      → All (λ (t : Torrent). ComesFrom t es × (seen_before t.id seen' ≡ false)) ts
      → All (λ (t : Torrent). ComesFrom t (e ∷ es) × (seen_before t.id seen ≡ false)) ts
  later-AreFetched e seen seen' es [] k h = tt
  later-AreFetched e seen seen' es (t ∷ ts) k h =
      ((inr h.0.0, k t.id h.0.1), later-AreFetched e seen seen' es ts k h.1)

  fresh :
      (id : Text) (seen : List Text) (es : List Event) (ts : List Torrent)
      → All (λ (t : Torrent). ComesFrom t es × (seen_before t.id (id ∷ seen) ≡ false)) ts
      → All (λ (t : Torrent). eq_text id t.id ≡ false) ts
  fresh id seen es [] h = tt
  fresh id seen es (t ∷ ts) h = (ground (arith, h.0.1), fresh id seen es ts h.1)

  seen_more :
      (id : Text) (seen : List Text) (j : Text)
      → seen_before j (id ∷ seen) ≡ false
      → seen_before j seen ≡ false
  seen_more id seen j h = ground (arith, h)

  collect-AreFetched :
      (e : Event) (seen : List Text) (es : List Event) (r : Parse Torrent)
      (rest : Parse (List Torrent)) (ts : List Torrent)
      → parse_torrent x e ≡ r
      → pool.check_signature e ≡ true
      → seen_before e.id seen ≡ false
      → ((us : List Torrent) → rest ≡ parsed us → AreFetched (e.id ∷ seen) es us)
      → collect r rest ≡ parsed ts
      → AreFetched seen (e ∷ es) ts
  collect-AreFetched e seen es (parsed t) (parsed us) ts here signed unseen k h =
      let same : t ∷ us ≡ ts = cc in
      let f = k us refl in
      let id : t.id ≡ e.id = (parse_torrent-IsAccepted x e t doc here).id in
      subst (AreFetched seen (e ∷ es)) same (
        (
          (inl (signed, here), ap (λ (i : Text). seen_before i seen) id ∙ unseen),
          later-AreFetched e seen (e.id ∷ seen) es us (seen_more e.id seen) f.0,
        ),
        (
          ap (λ (i : Text). find torrent_id i us) id
              ∙ find-fresh e.id us (fresh e.id seen es us f.0),
          f.1,
        ),
      )
  collect-AreFetched e seen es (parsed t) _ ts here signed unseen k h = cc
  collect-AreFetched e seen es (refused r) rest ts here signed unseen k h =
      let f = k ts h in (later-AreFetched e seen (e.id ∷ seen) es ts (seen_more e.id seen) f.0, f.1)
  collect-AreFetched e seen es panic rest ts here signed unseen k h = cc

  fetch_loop-AreFetched :
      (seen : List Text) (es : List Event) (ts : List Torrent)
      → fetch_loop x pool seen es ≡ parsed ts
      → AreFetched seen es ts
  unfolding fetch_loop
  fetch_loop-AreFetched seen [] ts h = subst (AreFetched seen []) (the_same h) (tt, tt)
    where
      the_same : {us : List Torrent} → parsed [] ≡ parsed us → [] ≡ us
      the_same e = cc
  fetch_loop-AreFetched seen (e ∷ es) ts h = elim (Bool-cases (seen_before e.id seen)) [
    | inl old ↦
        let f = fetch_loop-AreFetched seen es ts (rw old at h) in
        (later-AreFetched e seen seen es ts (λ id u. u) f.0, f.1)
    | inr unseen ↦ elim (Bool-cases (pool.check_signature e)) [
      | inl signed ↦
          collect-AreFetched e seen es (parse_torrent x e) (fetch_loop x pool (e.id ∷ seen) es) ts
            refl signed unseen (fetch_loop-AreFetched (e.id ∷ seen) es) (rw (unseen, signed) at h)
      | inr forged ↦
          let f = fetch_loop-AreFetched (e.id ∷ seen) es ts (rw (unseen, forged) at h) in
          (later-AreFetched e seen (e.id ∷ seen) es ts (seen_more e.id seen) f.0, f.1)
    ]
  ]

  -- `FetchTorrents` returns, without a panic, only torrents of the events that the relays sent for
  -- its filter: every torrent is read from a signed one, and no id is there twice, however many
  -- relays sent it.
  pub fetch_torrents-AreFetched :
      (relays authors : List Text) (since : ℤ)
      → (ts : List Torrent) × (fetch_torrents x pool relays authors since ≡ parsed ts)
        × AreFetched [] (pool.fetch_many relays (torrent_filter authors since)) ts
  unfolding fetch_torrents
  fetch_torrents-AreFetched [] authors since = ([], refl, (tt, tt))
  fetch_torrents-AreFetched (r ∷ rs) [] since = ([], refl, (tt, tt))
  fetch_torrents-AreFetched (r ∷ rs) (a ∷ authors) since =
      let es = pool.fetch_many (r ∷ rs) (torrent_filter (a ∷ authors) since) in
      let (ts, total) = fetch_loop_total [] es in (ts, total, fetch_loop-AreFetched [] es ts total)
