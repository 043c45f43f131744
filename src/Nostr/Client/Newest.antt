-- ===== src/Nostr/Client/Newest.antt =====
-- The profile events that `FetchProfiles` keeps, of those that the relays sent.
use revolution.Prelude.{
  ◌≡◌, sym, subst, ℤ, lt_int, le_int, Text, text_eq, eq_text, eq_text_iff, eq_text_refl, true,
  false, Option, none, some, List, [], ◌∷◌, if◌then◌else◌, All, arith, Bool-cases, ◌⊎◌, inl, inr,
}
use revolution.Store.Table.{find}
use revolution.Nostr.Nip35.{Event}
use revolution.Nostr.Client.{Pool, keep_latest, latest_loop}

abbrev pub event_key : Event → Text
event_key e = e.pubkey

-- The event that stays for a key.
abbrev newer_event : Event → Option Event → Event
newer_event e none = e
newer_event e (some c) = if lt_int c.created_at e.created_at then e else c

find-keep_latest :
    (e : Event) (k : Text) (l : List Event)
    → find event_key k (keep_latest e l) ≡ (
        if eq_text e.pubkey k
        then some (newer_event e (find event_key e.pubkey l))
        else find event_key k l)
find-keep_latest e k [] = ground arith
find-keep_latest e k (c ∷ cs) = ground (
  arith,
  find-keep_latest e k cs,
  eq_text_iff c.pubkey e.pubkey,
  eq_text_iff c.pubkey k,
  eq_text_iff e.pubkey k,
)

-- An event of the key that is not older than `at`.
abbrev pub AsNew : ℤ → Option Event → Type 0
AsNew at none = ⊥
AsNew at (some c) = le_int at c.created_at ≡ true

AsNew-newer :
    (at : ℤ) (e : Event) (o : Option Event) → AsNew at o → AsNew at (some (newer_event e o))
AsNew-newer at e none h = elim h [ ]
AsNew-newer at e (some c) h = ground (arith, h)

AsNew-self : (e : Event) (o : Option Event) → AsNew e.created_at (some (newer_event e o))
AsNew-self e none = ground arith
AsNew-self e (some c) = ground arith

module _ (pool : Pool) where
  -- What a signed or a forged event does to the events held.
  abbrev after_event : Event → List Event → List Event
  after_event e l = if pool.check_signature e then keep_latest e l else l

  AsNew-after :
      (at : ℤ) (k : Text) (e : Event) (l : List Event)
      → AsNew at (find event_key k l)
      → AsNew at (find event_key k (after_event e l))
  AsNew-after at k e l h = elim (Bool-cases (pool.check_signature e)) [
    | inl signed ↦ rw signed (
        subst (AsNew at) (sym (find-keep_latest e k l)) (elim (Bool-cases (eq_text e.pubkey k)) [
          | inl same ↦ rw same (
              AsNew-newer at e (find event_key e.pubkey l) (
                subst (λ (j : Text). AsNew at (find event_key j l))
                  (sym ((eq_text_iff e.pubkey k).0 same)) h))
          | inr other ↦ rw other h
        ]))
    | inr forged ↦ rw forged h
  ]

  AsNew-latest_loop :
      (at : ℤ) (k : Text) (es l : List Event)
      → AsNew at (find event_key k l)
      → AsNew at (find event_key k (latest_loop pool l es))
  unfolding latest_loop
  AsNew-latest_loop at k [] l h = h
  AsNew-latest_loop at k (e ∷ es) l h =
      AsNew-latest_loop at k es (after_event e l) (AsNew-after at k e l h)

  AsNew-own :
      (e : Event) (l : List Event)
      → pool.check_signature e ≡ true
      → AsNew e.created_at (find event_key e.pubkey (after_event e l))
  AsNew-own e l signed = rw signed (
      subst (AsNew e.created_at) (sym (find-keep_latest e e.pubkey l))
        (rw (eq_text_refl e.pubkey) (AsNew-self e (find event_key e.pubkey l))))

  latest_loop-AsNew :
      (es l : List Event)
      → All
          (λ (e : Event).
            pool.check_signature e ≡ true
            → AsNew e.created_at (find event_key e.pubkey (latest_loop pool l es)))
          es
  unfolding latest_loop
  latest_loop-AsNew [] l = tt
  latest_loop-AsNew (e ∷ es) l = (
    (λ signed. AsNew-latest_loop e.created_at e.pubkey es (after_event e l) (AsNew-own e l signed)),
    latest_loop-AsNew es (after_event e l),
  )

  keep_latest-signed :
      (e : Event) (l : List Event)
      → pool.check_signature e ≡ true
      → All (λ (c : Event). pool.check_signature c ≡ true) l
      → All (λ (c : Event). pool.check_signature c ≡ true) (keep_latest e l)
  keep_latest-signed e [] signed h = (signed, tt)
  keep_latest-signed e (c ∷ cs) signed h =
      ground (arith, signed, h, keep_latest-signed e cs signed h.1)

  latest_loop-signed :
      (es l : List Event)
      → All (λ (c : Event). pool.check_signature c ≡ true) l
      → All (λ (c : Event). pool.check_signature c ≡ true) (latest_loop pool l es)
  unfolding latest_loop
  latest_loop-signed [] l h = h
  latest_loop-signed (e ∷ es) l h = elim (Bool-cases (pool.check_signature e)) [
    | inl signed ↦
        rw signed (latest_loop-signed es (keep_latest e l) (keep_latest-signed e l signed h))
    | inr forged ↦ rw forged (latest_loop-signed es l h)
  ]

  abbrev pub ForgedOr : List Event → Event → Type 0
  ForgedOr held e =
      (pool.check_signature e ≡ false) ⊎ AsNew e.created_at (find event_key e.pubkey held)

  All-ForgedOr :
      (held es : List Event)
      → All
          (λ (e : Event).
            pool.check_signature e ≡ true → AsNew e.created_at (find event_key e.pubkey held))
          es
      → All (ForgedOr held) es
  All-ForgedOr held [] h = tt
  All-ForgedOr held (e ∷ es) h = (
    elim (Bool-cases (pool.check_signature e)) [
      | inl signed ↦ inr (h.0 signed)
      | inr forged ↦ inl forged
    ],
    All-ForgedOr held es h.1,
  )

  -- Of the events that the relays sent, `FetchProfiles` holds signed ones alone, and for the key of
  -- each that is not forged an event that is as new or newer, in whatever order they came.
  pub latest_loop-ForgedOr :
      (es : List Event)
      → All (λ (c : Event). pool.check_signature c ≡ true) (latest_loop pool [] es)
        × All (ForgedOr (latest_loop pool [] es)) es
  latest_loop-ForgedOr es = (
    latest_loop-signed es [] tt,
    All-ForgedOr (latest_loop pool [] es) es (latest_loop-AsNew es []),
  )
