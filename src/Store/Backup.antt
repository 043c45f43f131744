-- ===== src/Store/Backup.antt =====
-- internal/store/backup.go
use revolution.Prelude.{Text, is_empty, if◌then◌else◌}
use revolution.Store.Db.{Db}
use revolution.Store.Exec.{ok, M, raise, query, bad_path}

-- `BackupTo`: its value is what the new file holds. VACUUM INTO takes it from one snapshot, and
-- fails as any statement does, for instance where the file is there already.
unfoldable pub backup_to : Text → M Db
backup_to path = if is_empty path then raise bad_path else query (λ db. ok db)
