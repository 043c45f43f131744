-- ===== src/Ingest/Reload.antt =====
-- internal/ingest/live.go, `LiveSync`: each round of `reload` reads the relays and the accounts
-- again, and opens the subscription anew if they have changed. `Subscription` is what the closure
-- keeps between rounds; a subscription is given by its relays and authors.
pub mod Tracks
use revolution.Prelude.{
  ℕ, Text, eq_text, Bool, true, false, ◌||◌, ◌&&◌, ◌==◌, ltb, Option, none, some, List, [], ◌∷◌,
  ◌++◌, map, select, if◌then◌else◌,
}
use revolution.Store.Order.{sort_by}
use revolution.Store.Db.{Followed}
use revolution.Store.Exec.{Result, ok, err, M, pure, try}
use revolution.Store.Relays.{list_enabled_relay_urls}
use revolution.Store.Accounts.{list_followed}

pub record Subscription : Type 0 where
  pub last_key : Text
  pub current : Option (List Text × List Text)

abbrev pub not_started : Subscription
not_started = record { last_key = []; current = none }

-- `a < b` on strings, as `sort.Strings` compares them.
unfoldable pub text_lt : Text → Text → Bool
text_lt [] [] = false
text_lt [] (_ ∷ _) = true
text_lt (_ ∷ _) [] = false
text_lt (a ∷ as_) (b ∷ bs) = ltb a b || a == b && text_lt as_ bs

-- `strings.Join(items, ",")`
abbrev pub join : List Text → Text
join [] = []
join (x ∷ []) = x
join (x ∷ y ∷ ys) = x ++ b',' ∷ join (y ∷ ys)

abbrev pub key : List Text → List Text → Text
key relays authors = join relays ++ b'|' ∷ join authors

abbrev pub enabled_authors : List Followed → List Text
enabled_authors fs = map (λ (f : Followed). f.pubkey) (select (λ (f : Followed). f.enabled) fs)

-- `if len(relays) == 0 || len(authors) == 0 { return }; …; go consumeLive(…)`
abbrev pub open_on : List Text → List Text → Option (List Text × List Text)
open_on [] authors = none
open_on (r ∷ rs) [] = none
open_on (r ∷ rs) (a ∷ authors) = some (r ∷ rs, a ∷ authors)

unfoldable pub resubscribe : List Text → List Text → Subscription → Subscription
resubscribe relays authors s =
    if eq_text (key relays authors) s.last_key
    then s
    else record { last_key = key relays authors; current = open_on relays authors }

abbrev pub on_followed : Subscription → List Text → Result (List Followed) → M Subscription
on_followed s relays (err e) = pure s
on_followed s relays (ok fs) =
    pure (resubscribe (sort_by text_lt relays) (sort_by text_lt (enabled_authors fs)) s)

abbrev pub on_relays : Subscription → Result (List Text) → M Subscription
on_relays s (err e) = pure s
on_relays s (ok relays) = try list_followed (on_followed s relays)

unfoldable pub reload : Subscription → M Subscription
reload s = try list_enabled_relay_urls (on_relays s)
