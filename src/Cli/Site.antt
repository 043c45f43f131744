-- ===== src/Cli/Site.antt =====
-- internal/cli/maintenance.go and internal/cli/backup.go
use revolution.Prelude.{Text, codes, eq_text, Bool, true, false, List, [], ◌∷◌, if◌then◌else◌}
use revolution.Store.Exec.{Result, ok, err, M, pure, lift, usage, ◌>>=◌, ◌>>◌}
use revolution.Store.Settings.{set_maintenance}
use revolution.Store.Backup.{backup_to}
use revolution.Cli.Terminal.{Setup, Message, maintenance_is, backed_up, only_argument, open_store}

abbrev pub on_or_off : List Text → Result Bool
on_or_off (a ∷ []) =
    if eq_text a (codes "on")
    then ok true
    else if eq_text a (codes "off")
    then ok false
    else err usage
on_or_off _ = err usage

module _ (s : Setup) where
  unfoldable pub cmd_maintenance : List Text → M Message
  cmd_maintenance args = do
    on ← lift (on_or_off args)
    open_store s
    set_maintenance on
    pure (maintenance_is on)

  unfoldable pub cmd_backup : List Text → M Message
  cmd_backup args = do
    path ← lift (only_argument args)
    open_store s
    copy ← backup_to path
    pure (backed_up path copy)
