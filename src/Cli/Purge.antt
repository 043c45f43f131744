-- ===== src/Cli/Purge.antt =====
-- internal/cli/purge.go
pub mod Effect
pub mod Answer
use revolution.Prelude.{
  ℕ, Text, codes, eq_text, is_empty, trim_space, Bool, List, [], ◌∷◌, ◌==◌, if◌then◌else◌,
}
use revolution.Store.Db.{Followed}
use revolution.Store.Exec.{Result, ok, err, M, pure, raise, lift, usage, ◌>>=◌, ◌>>◌}
use revolution.Store.Torrents.{count_by_pubkey, delete_by_pubkey}
use revolution.Nostr.External.{to_lower}
use revolution.Cli.Flags.{FlagSet, text_flag, bool_flag, Parsed, parse, value_of, is_set}
use revolution.Cli.Terminal.{
  Setup, Message, asked, nothing_to_purge, cancelled, purged, open_store, resolve_followed,
  display_followed,
}

abbrev pub purge_flags : FlagSet
purge_flags = (codes "user", text_flag) ∷ (codes "yes", bool_flag) ∷ []

-- `if *user == "" { return … }`
abbrev pub required : Text → Result Text
required user = if is_empty user then err usage else ok user

module _ (s : Setup) where
  abbrev pub confirmed : Bool
  confirmed = eq_text (to_lower s.external (trim_space s.stdin)) (codes "y")

  abbrev pub purge_all : Followed → M Message
  purge_all f = do n ← delete_by_pubkey f.pubkey; pure (purged n (display_followed s f))

  abbrev pub purge_asked : Followed → ℕ → M Message
  purge_asked f count = do done ← purge_all f; pure (asked count (display_followed s f) done)

  abbrev pub ask : Followed → ℕ → M Message
  ask f count =
      if confirmed then purge_asked f count else pure (asked count (display_followed s f) cancelled)

  abbrev pub purge_counted : Bool → Followed → ℕ → M Message
  purge_counted sure f count =
      if count == 0
      then pure (nothing_to_purge (display_followed s f))
      else if sure
      then purge_all f
      else ask f count

  unfoldable pub purge_account : Bool → Followed → M Message
  purge_account sure f = do count ← count_by_pubkey f.pubkey; purge_counted sure f count

  unfoldable pub cmd_purge : List Text → M Message
  unfolding purge_account
  cmd_purge args = do
    p ← lift (parse purge_flags [] args)
    user ← lift (required (value_of (codes "user") p.given))
    open_store s
    f ← resolve_followed s user
    purge_account (is_set (codes "yes") p.given) f
