-- ===== src/Store/Consistent/Catalogue/Others.antt =====
-- The methods of `Store` that write no torrent leave what is loaded under every id.
use revolution.Prelude.{◌≡◌, refl, ◌∙◌, ℤ, Text, text_eq, Bool, true, false, arith, if◌then◌else◌}
use revolution.Store.Db.{Torrent, Profile}
use revolution.Store.Exec.{Result, World, M}
use revolution.Store.Exec.Keeps.{Keeps, Keeps-statement, Keeps-bind, Keeps-now, Keeps-lift}
use revolution.Store.Torrents.ReadBack.{loaded}
use revolution.Store.Relays.{add_relay, remove_relay}
use revolution.Store.Accounts.{add_followed, remove_followed, update_last_synced, upsert_profile}
use revolution.Store.Settings.{set_setting, set_maintenance, upsert_torrent_stats}

-- The other calls: what is loaded stays, whether they return or fail.
abbrev pub Stays : {A : Type 0} → M A → Type 0
Stays m = (j : Text) (r : Result Torrent) → Keeps (λ d. loaded j d ≡ r) m

whichever : {A : Type 0} (b : Bool) (x : A) → x ≡ (if b then x else x)
whichever true x = refl
whichever false x = refl

pub add_relay-Stays : (url : Text) → Stays (add_relay url)
unfolding add_relay
add_relay-Stays url j r = Keeps-bind _ _ Keeps-now (λ ts. Keeps-statement _ (λ d h. h))

pub add_followed-Stays : (pubkey alias : Text) → Stays (add_followed pubkey alias)
unfolding add_followed
add_followed-Stays pubkey alias j r = Keeps-bind _ _ Keeps-now (λ ts. Keeps-statement _ (λ d h. h))

pub set_setting-Stays : (key value : Text) → Stays (set_setting key value)
unfolding set_setting
set_setting-Stays key value j r = Keeps-statement _ (λ d h. h)

pub upsert_torrent_stats-Stays : (id : Text) (s l at : ℤ) → Stays (upsert_torrent_stats id s l at)
unfolding upsert_torrent_stats
upsert_torrent_stats-Stays id s l at j r = Keeps-statement _ (λ d h. ground arith)

pub remove_relay-Stays : (url : Text) → Stays (remove_relay url)
unfolding remove_relay
remove_relay-Stays url j r = Keeps-bind _ _ (Keeps-statement _ (λ d h. h)) (λ n. Keeps-lift _)

pub remove_followed-Stays : (pubkey : Text) → Stays (remove_followed pubkey)
unfolding remove_followed
remove_followed-Stays pubkey j r = Keeps-bind _ _ (Keeps-statement _ (λ d h. h)) (λ n. Keeps-lift _)

pub update_last_synced-Stays : (pubkey : Text) (ts : ℤ) → Stays (update_last_synced pubkey ts)
unfolding update_last_synced
update_last_synced-Stays pubkey ts j r = Keeps-statement _ (λ d h. h)

pub upsert_profile-Stays : (p : Profile) → Stays (upsert_profile p)
unfolding upsert_profile
upsert_profile-Stays p j r = Keeps-statement _ (λ d h. h)

pub set_maintenance-Stays : (on : Bool) → Stays (set_maintenance on)
unfolding set_maintenance
set_maintenance-Stays on = set_setting-Stays _ _

pub Stays-world :
    {A : Type 0} (m : M A) (b : Bool) (w : World) (j : Text)
    → Stays m
    → loaded j (m w).1.db ≡ (if b then loaded j w.db else loaded j w.db)
Stays-world m b w j s = (s j (loaded j w.db)).at w refl ∙ whichever b (loaded j w.db)
