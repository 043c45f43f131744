-- ===== src/Ingest/Reload/Tracks.antt =====
-- The subscription after a round, against the tables.
use revolution.Prelude.{
  ◌≡◌, map, select, Text, is_empty, false, ◌||◌, ◌==◌, List, [], ◌∷◌, ◌++◌, All, if◌then◌else◌, ◌⊎◌,
}
use revolution.Store.Order.{sort_by}
use revolution.Store.Db.{Db, RelayRow}
use revolution.Store.Relays.{older}
use revolution.Ingest.Reload.{Subscription, not_started, text_lt, key, enabled_authors, open_on}

abbrev Plain : Text → Type 0
Plain s = All (λ c. (c == b',' || c == b'|') ≡ false) s

-- A URL or a key that is not empty and has no comma and no bar.
abbrev pub IsPart : Text → Type 0
IsPart s = (is_empty s ≡ false) × Plain s

-- Reading a key back.
abbrev before_bar : Text → Text
before_bar [] = []
before_bar (c ∷ cs) = if c == b'|' then [] else c ∷ before_bar cs

abbrev after_bar : Text → Text
after_bar [] = []
after_bar (c ∷ cs) = if c == b'|' then cs else after_bar cs

abbrev close : Text → List Text
close [] = []
close (c ∷ cs) = (c ∷ cs) ∷ []

abbrev split : Text → Text → List Text
split part [] = close part
split part (c ∷ cs) = if c == b',' then part ∷ split [] cs else split (part ++ c ∷ []) cs

abbrev NoBar : Text → Type 0
NoBar s = All (λ c. (c == b'|') ≡ false) s

-- Nothing is open before the first round, and then what the last key says.
abbrev pub IsTracking : Subscription → Type 0
IsTracking s =
    (s ≡ not_started)
    ⊎ ((relays : List Text) × (authors : List Text) × All IsPart relays
        × All IsPart authors
        × (s.last_key ≡ key relays authors)
        × (s.current ≡ open_on relays authors))

module _ (relays authors : List Text) (hr : All IsPart relays) (ha : All IsPart authors) where
  abbrev Opened : Subscription → Type 0
  Opened s = (s.current ≡ open_on relays authors) × IsTracking s

abbrev pub wanted_relays : Db → List Text
wanted_relays db =
    sort_by text_lt (
      map (λ (r : RelayRow). r.url)
        (sort_by older (select (λ (r : RelayRow). r.enabled) db.relays)))

abbrev pub wanted_authors : Db → List Text
wanted_authors db =
    sort_by text_lt (enabled_authors (sort_by revolution.Store.Accounts.older db.followed))
