-- ===== src/Store/Relays.antt =====
-- internal/store/relays.go
use revolution.Prelude.{ℤ, Text, text_eq, Bool, true, List, map, select, lt_int}
use revolution.Store.Table.{upsert, delete, affected}
use revolution.Store.Order.{sort_by}
use revolution.Store.Db.{RelayRow}
use revolution.Store.Exec.{ok, M, lift, statement, query, ◌>>=◌, now}
use revolution.Store.Torrents.{require_rows}

pub record Relay : Type 0 where
  pub url : Text
  pub enabled : Bool

abbrev pub relay_key : RelayRow → Text
relay_key r = r.url

abbrev pub new_relay : Text → ℤ → RelayRow
new_relay url ts = record { url = url; enabled = true; created_at = ts }

unfoldable pub add_relay : Text → M (Unit {0})
add_relay url = do
  ts ← now
  statement (λ db. ok (
    tt,
    record db {
      relays = upsert relay_key (new_relay url ts) (λ r. record r { enabled = true }) db.relays;
    },
  ))

unfoldable pub remove_relay : Text → M (Unit {0})
remove_relay url = do
  n ← statement (λ db.
      ok (affected relay_key url db.relays, record db { relays = delete relay_key url db.relays }))
  lift (require_rows n)

-- ORDER BY created_at
abbrev pub older : RelayRow → RelayRow → Bool
older a b = lt_int a.created_at b.created_at

unfoldable pub list_relays : M (List Relay)
list_relays = query (λ db.
    ok (
      map (λ (r : RelayRow). record { url = r.url; enabled = r.enabled })
        (sort_by older db.relays)))

unfoldable pub list_enabled_relay_urls : M (List Text)
list_enabled_relay_urls = query (λ db. ok (
    map (λ (r : RelayRow). r.url) (sort_by older (select (λ (r : RelayRow). r.enabled) db.relays))))
