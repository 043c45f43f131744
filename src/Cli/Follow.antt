-- ===== src/Cli/Follow.antt =====
-- internal/cli/follow.go
pub mod Order
pub mod Named
use revolution.Prelude.{Text, codes, eq_text, is_empty, List, [], ◌∷◌, map, if◌then◌else◌}
use revolution.Store.Db.{Followed}
use revolution.Store.Exec.{M, pure, raise, lift, usage, unknown_command, ◌>>=◌, ◌>>◌}
use revolution.Store.Accounts.{add_followed, remove_followed, list_followed}
use revolution.Nostr.Keys.{resolve_pubkey, encode_npub}
use revolution.Cli.Flags.{FlagSet, text_flag, parse, value_of}
use revolution.Cli.Terminal.{
  Setup, Message, AccountLine, accounts, no_accounts, now_followed, not_followed, only_argument,
  open_store, resolve_followed, display_followed,
}

abbrev pub follow_flags : FlagSet
follow_flags = (codes "alias", text_flag) ∷ []

module _ (s : Setup) where
  unfoldable pub follow_add : List Text → M Message
  follow_add args = do
    p ← lift (parse follow_flags [] args)
    key ← lift (only_argument p.args)
    hex ← lift (resolve_pubkey s.nip19 s.external key)
    add_followed hex (value_of (codes "alias") p.given)
    pure (now_followed hex)

  unfoldable pub follow_rm : List Text → M Message
  follow_rm args = do
    name ← lift (only_argument args)
    f ← resolve_followed s name
    remove_followed f.pubkey
    pure (not_followed (display_followed s f))

  abbrev pub account_line : Followed → AccountLine
  account_line f = record {
    npub = encode_npub s.nip19 f.pubkey;
    alias = if is_empty f.alias then codes "—" else f.alias;
    active = f.enabled;
  }

  abbrev pub show_accounts : List Followed → Message
  show_accounts [] = no_accounts
  show_accounts (f ∷ fs) = accounts (map account_line (f ∷ fs))

  unfoldable pub follow_list : M Message
  follow_list = do fs ← list_followed; pure (show_accounts fs)

  abbrev pub follow_sub : Text → List Text → M Message
  follow_sub sub args =
      if eq_text sub (codes "add")
      then follow_add args
      else if eq_text sub (codes "rm")
      then follow_rm args
      else if eq_text sub (codes "list")
      then follow_list
      else raise unknown_command

  unfoldable pub cmd_follow : List Text → M Message
  unfolding follow_add follow_rm follow_list
  cmd_follow [] = raise usage
  cmd_follow (sub ∷ args) = do open_store s; follow_sub sub args
