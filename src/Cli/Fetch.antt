-- ===== src/Cli/Fetch.antt =====
-- internal/cli/fetch.go and internal/cli/sync.go
use revolution.Prelude.{Text, codes, List, [], ◌∷◌}
use revolution.Store.Exec.{Result, ok, err, M, pure, lift, no_relay, ◌>>=◌}
use revolution.Store.Relays.{list_enabled_relay_urls}
use revolution.Ingest.Sync.{sync_user, sync_all}
use revolution.Cli.Flags.{FlagSet, text_flag, parse, value_of}
use revolution.Cli.Terminal.{
  Setup, Message, synced_user, synced_all, open_store, resolve_followed, display_followed,
}
use revolution.Cli.Purge.{required}

abbrev pub fetch_flags : FlagSet
fetch_flags = (codes "user", text_flag) ∷ []

-- `if len(relays) == 0 { return … }`
abbrev pub some_relays : List Text → Result (List Text)
some_relays [] = err no_relay
some_relays (r ∷ rs) = ok (r ∷ rs)

module _ (s : Setup) where
  unfoldable pub cmd_fetch : List Text → M Message
  cmd_fetch args = do
    p ← lift (parse fetch_flags [] args)
    user ← lift (required (value_of (codes "user") p.given))
    cfg ← open_store s
    f ← resolve_followed s user
    urls ← list_enabled_relay_urls
    relays ← lift (some_relays urls)
    n ← sync_user (s.client cfg.request_timeout_seconds) relays f
    pure (synced_user n (display_followed s f))

  unfoldable pub cmd_sync : List Text → M Message
  cmd_sync args = do
    cfg ← open_store s
    n ← sync_all (s.client cfg.request_timeout_seconds)
    pure (synced_all n)
