-- ===== src/Store/Settings/Maintenance.antt =====
-- Settings written and read (internal/store/settings.go).
use revolution.Prelude.{
  ◌+◌, ◌≡◌, refl, ap, ◌∙◌, Text, text_eq, eq_text, codes, Bool, true, false, some, if◌then◌else◌,
  arith,
}
use revolution.Store.Table.{find, find-upsert}
use revolution.Store.Db.{Db, SettingRow}
use revolution.Store.Exec.{ok, World, statement, query, pure, try}
use revolution.Store.Torrents.Upsert.{NoFault}
use revolution.Store.Settings.{
  setting_key, value_of, get_setting, put_setting, set_setting, is_maintenance, set_maintenance,
  is_one, setting_maintenance,
}

value_of-put_setting :
    (key value j : Text) (db : Db)
    → value_of (find setting_key j (put_setting key value db).settings)
      ≡ (if eq_text key j then some value else value_of (find setting_key j db.settings))
value_of-put_setting key value j db =
    ap value_of (
      find-upsert setting_key (record { key = key; value = value })
        (λ (s : SettingRow). record s { value = value }) j db.settings (λ x. refl))
    ∙ ground arith

-- With no failing statement, `GetSetting` after `SetSetting` returns the value that was written for
-- its key, and what it returned before for every other key.
pub get_setting-set_setting :
    (key value j : Text) (w : World)
    → NoFault w
    → (get_setting j (set_setting key value w).1).0
      ≡ (if eq_text key j then ok value else (get_setting j w).0)
unfolding get_setting set_setting statement query
get_setting-set_setting key value j w h =
    ground (arith, h w.step, h (w.step + 1), value_of-put_setting key value j w.db)

-- `IsMaintenance` after `SetMaintenance on` is `on`, where no statement fails.
pub is_maintenance-set_maintenance :
    (on : Bool) (w : World) → NoFault w → (is_maintenance (set_maintenance on w).1).0 ≡ ok on
unfolding is_maintenance set_maintenance try pure eq_text
is_maintenance-set_maintenance true w h =
    ap (λ r. ok (is_one r)) (get_setting-set_setting setting_maintenance (codes "1") _ w h)
is_maintenance-set_maintenance false w h =
    ap (λ r. ok (is_one r)) (get_setting-set_setting setting_maintenance (codes "0") _ w h)
