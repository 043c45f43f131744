-- ===== src/Cli/Relay.antt =====
-- internal/cli/relay.go
use revolution.Prelude.{
  Text, codes, eq_text, is_empty, ◌||◌, Option, none, some, List, [], ◌∷◌, if◌then◌else◌,
}
use revolution.Store.Exec.{
  Result, ok, err, M, pure, raise, lift, usage, bad_url, unknown_command, ◌>>=◌, ◌>>◌,
}
use revolution.Store.Relays.{Relay, add_relay, remove_relay, list_relays}
use revolution.Nostr.External.{Url}
use revolution.Cli.Terminal.{
  Setup, Message, relays, no_relays, relay_added, relay_removed, only_argument, open_store,
}

abbrev pub check_url : Option Url → Result (Unit {0})
check_url none = err bad_url
check_url (some u) =
    if is_empty u.host
    then err bad_url
    else if eq_text u.scheme (codes "ws") || eq_text u.scheme (codes "wss")
    then ok tt
    else err bad_url

abbrev pub show_relays : List Relay → Message
show_relays [] = no_relays
show_relays (r ∷ rs) = relays (r ∷ rs)

module _ (s : Setup) where
  unfoldable pub validate_relay_url : Text → Result (Unit {0})
  validate_relay_url url = check_url (s.external.parse_url url)

  unfoldable pub relay_add : List Text → M Message
  relay_add args = do
    url ← lift (only_argument args)
    lift (validate_relay_url url)
    add_relay url
    pure (relay_added url)

  unfoldable pub relay_rm : List Text → M Message
  relay_rm args = do url ← lift (only_argument args); remove_relay url; pure (relay_removed url)

  unfoldable pub relay_list : M Message
  relay_list = do rs ← list_relays; pure (show_relays rs)

  abbrev pub relay_sub : Text → List Text → M Message
  relay_sub sub args =
      if eq_text sub (codes "add")
      then relay_add args
      else if eq_text sub (codes "rm")
      then relay_rm args
      else if eq_text sub (codes "list")
      then relay_list
      else raise unknown_command

  unfoldable pub cmd_relay : List Text → M Message
  unfolding relay_add relay_rm relay_list validate_relay_url
  cmd_relay [] = raise usage
  cmd_relay (sub ∷ args) = do open_store s; relay_sub sub args
