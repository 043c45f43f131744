-- ===== src/Nostr/Client/Lossless.antt =====
-- What `FetchTorrents` does not lose of what the relays sent.
use revolution.Prelude.{
  ◌≡◌, refl, sym, ap, ◌∙◌, ℤ, Text, text_eq, eq_text, eq_text_iff, Bool, true, false, ◌||◌, List,
  [], ◌∷◌, All, arith, Bool-cases, inl, inr,
}
use revolution.Store.Db.{Torrent}
use revolution.Nostr.External.{External, IsDocumented}
use revolution.Nostr.Nip35.{Event, parse_torrent}
use revolution.Nostr.Tags.{Parse, parsed, refused, panic}
use revolution.Nostr.Nip35.Accepted.{parse_torrent-IsAccepted}
use revolution.Nostr.Client.{Pool, seen_before, collect, fetch_loop, fetch_torrents, torrent_filter}

abbrev pub sent : Text → List Event → Bool
sent i [] = false
sent i (e ∷ es) = eq_text e.id i || sent i es

abbrev pub has_id : Text → List Torrent → Bool
has_id i [] = false
has_id i (t ∷ ts) = eq_text t.id i || has_id i ts

collect-more :
    (i : Text) (r : Parse Torrent) (rest : Parse (List Torrent)) (ts : List Torrent)
    → collect r rest ≡ parsed ts
    → ((us : List Torrent) → rest ≡ parsed us → has_id i us ≡ true)
    → has_id i ts ≡ true
collect-more i (parsed t) (parsed us) ts h k =
    let same : t ∷ us ≡ ts = cc in ap (has_id i) (sym same) ∙ ground (arith, k us refl)
collect-more i (parsed t) (refused e) ts h k = cc
collect-more i (parsed t) panic ts h k = cc
collect-more i (refused e) rest ts h k = k ts h
collect-more i panic rest ts h k = cc

collect-new :
    (i : Text) (t : Torrent) (rest : Parse (List Torrent)) (ts : List Torrent)
    → collect (parsed t) rest ≡ parsed ts
    → eq_text t.id i ≡ true
    → has_id i ts ≡ true
collect-new i t (parsed us) ts h here =
    let same : t ∷ us ≡ ts = cc in ap (has_id i) (sym same) ∙ ground (arith, here)
collect-new i t (refused e) ts h here = cc
collect-new i t panic ts h here = cc

other-seen :
    (i id : Text) (seen : List Text)
    → seen_before i seen ≡ false
    → seen_before id seen ≡ true
    → eq_text id i ≡ false
other-seen i id seen fresh old = elim (Bool-cases (eq_text id i)) [
  | inl same ↦ cc (ap (λ (k : Text). seen_before k seen) ((eq_text_iff id i).0 same), fresh, old)
  | inr other ↦ other
]

module _ (x : External) (pool : Pool) where
  -- An event that is signed and a torrent, if it has the id.
  abbrev pub IsGood : Text → Event → Type 0
  IsGood i e =
      eq_text e.id i ≡ true
      → (pool.check_signature e ≡ true) × ((t : Torrent) × (parse_torrent x e ≡ parsed t))

module _ (x : External) (pool : Pool) (doc : IsDocumented x) where
  fetch_loop-has_id :
      (i : Text) (seen : List Text) (es : List Event) (ts : List Torrent)
      → fetch_loop x pool seen es ≡ parsed ts
      → seen_before i seen ≡ false
      → sent i es ≡ true
      → All (IsGood x pool i) es
      → has_id i ts ≡ true
  unfolding fetch_loop
  fetch_loop-has_id i seen [] ts h fresh there good = cc
  fetch_loop-has_id i seen (e ∷ es) ts h fresh there good =
      elim (Bool-cases (seen_before e.id seen)) [
        | inl old ↦
            let other = other-seen i e.id seen fresh old in
            fetch_loop-has_id i seen es ts (rw old at h) fresh (rw other at there) good.1
        | inr unseen ↦ elim (Bool-cases (eq_text e.id i)) [
          | inl same ↦
              let (signed, (t, here)) = good.0 same in
              let id = (parse_torrent-IsAccepted x e t doc here).id in
              collect-new i t (fetch_loop x pool (e.id ∷ seen) es) ts
                (rw (unseen, signed, here) at h) (ap (λ (k : Text). eq_text k i) id ∙ same)
          | inr other ↦
              let later = rw other at there in
              let still : seen_before i (e.id ∷ seen) ≡ false = ground (arith, other, fresh) in
              elim (Bool-cases (pool.check_signature e)) [
                | inl signed ↦
                    collect-more i (parse_torrent x e) (fetch_loop x pool (e.id ∷ seen) es) ts
                      (rw (unseen, signed) at h)
                      (λ us k. fetch_loop-has_id i (e.id ∷ seen) es us k still later good.1)
                | inr forged ↦
                    fetch_loop-has_id i (e.id ∷ seen) es ts (rw (unseen, forged) at h) still later
                      good.1
              ]
        ]
      ]

  -- An id all of whose events are signed and torrents is among the torrents that `FetchTorrents` returns.
  pub fetch_torrents-has_id :
      (r a : Text) (rs authors : List Text) (since : ℤ) (ts : List Torrent)
      → fetch_torrents x pool (r ∷ rs) (a ∷ authors) since ≡ parsed ts
      → (i : Text) → sent i (pool.fetch_many (r ∷ rs) (torrent_filter (a ∷ authors) since)) ≡ true
      → All (IsGood x pool i) (pool.fetch_many (r ∷ rs) (torrent_filter (a ∷ authors) since))
      → has_id i ts ≡ true
  unfolding fetch_torrents
  fetch_torrents-has_id r a rs authors since ts h i =
      fetch_loop-has_id i [] (pool.fetch_many (r ∷ rs) (torrent_filter (a ∷ authors) since)) ts h
        refl
