-- ===== src/Store/Accounts.antt =====
-- internal/store/followed.go and internal/store/profiles.go
pub mod Newest
use revolution.Prelude.{
  ℤ, pos, Text, text_eq, eq_text, Bool, true, ◌||◌, Option, none, some, List, [], ◌∷◌, lt_int,
  le_int, max_int, if◌then◌else◌,
}
use revolution.Store.Table.{find, upsert, update, delete, affected}
use revolution.Store.Order.{sort_by}
use revolution.Store.Db.{Db, Followed, Profile}
use revolution.Store.Exec.{ok, M, lift, statement, query, ◌>>=◌, now}
use revolution.Store.Torrents.{require_rows, or_not_found}

abbrev pub followed_key : Followed → Text
followed_key f = f.pubkey

abbrev pub new_followed : Text → Text → ℤ → Followed
new_followed pubkey alias ts = record {
  pubkey = pubkey;
  alias = alias;
  enabled = true;
  last_synced_at = pos 0;
  created_at = ts;
}

unfoldable pub add_followed : Text → Text → M (Unit {0})
add_followed pubkey alias = do
  ts ← now
  statement (λ db. ok (
    tt,
    record db {
      followed =
          upsert followed_key (new_followed pubkey alias ts)
            (λ f. record f { alias = alias; enabled = true }) db.followed;
    },
  ))

unfoldable pub remove_followed : Text → M (Unit {0})
remove_followed pubkey = do
  n ← statement (λ db. ok (
    affected followed_key pubkey db.followed,
    record db { followed = delete followed_key pubkey db.followed },
  ))
  lift (require_rows n)

-- ORDER BY created_at
abbrev pub older : Followed → Followed → Bool
older a b = lt_int a.created_at b.created_at

unfoldable pub list_followed : M (List Followed)
list_followed = query (λ db. ok (sort_by older db.followed))

-- WHERE pubkey = ? OR alias = ?, of which `QueryRow` reads the first row.
abbrev pub first_named : Text → List Followed → Option Followed
first_named name [] = none
first_named name (f ∷ fs) =
    if eq_text f.pubkey name || eq_text f.alias name then some f else first_named name fs

unfoldable pub find_followed : Text → M Followed
find_followed name = query (λ db. or_not_found (first_named name db.followed))

abbrev pub mark_synced : ℤ → Followed → Followed
mark_synced ts f = record f { last_synced_at = max_int f.last_synced_at ts }

abbrev pub synced_db : Text → ℤ → Db → Db
synced_db pubkey ts db = record db {
  followed = update followed_key pubkey (mark_synced ts) db.followed;
}

unfoldable pub update_last_synced : Text → ℤ → M (Unit {0})
update_last_synced pubkey ts = statement (λ db. ok (tt, synced_db pubkey ts db))

abbrev pub profile_key : Profile → Text
profile_key p = p.pubkey

-- DO UPDATE … WHERE excluded.updated_at >= profiles.updated_at
abbrev pub merge_profile : Profile → Profile → Profile
merge_profile p old =
    if le_int old.updated_at p.updated_at
    then record old {
      name = p.name;
      display_name = p.display_name;
      picture = p.picture;
      nip05 = p.nip05;
      updated_at = p.updated_at;
    }
    else old

abbrev pub profile_db : Profile → Db → Db
profile_db p db = record db { profiles = upsert profile_key p (merge_profile p) db.profiles }

unfoldable pub upsert_profile : Profile → M (Unit {0})
upsert_profile p = statement (λ db. ok (tt, profile_db p db))

unfoldable pub get_profile : Text → M Profile
get_profile pubkey = query (λ db. or_not_found (find profile_key pubkey db.profiles))
