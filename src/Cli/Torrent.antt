-- ===== src/Cli/Torrent.antt =====
-- internal/cli/torrent.go
pub mod Edited
use revolution.Prelude.{Text, codes, eq_text, is_empty, List, [], ◌∷◌, if◌then◌else◌}
use revolution.Store.Exec.{M, pure, raise, lift, usage, unknown_command, ◌>>=◌, ◌>>◌}
use revolution.Store.Torrents.{get_torrent, delete_torrent, update_torrent_fields}
use revolution.Cli.Flags.{FlagSet, text_flag, parse, value_of}
use revolution.Cli.Terminal.{
  Setup, Message, torrent_deleted, torrent_updated, only_argument, open_store,
}

abbrev pub edit_flags : FlagSet
edit_flags = (codes "title", text_flag) ∷ (codes "category", text_flag) ∷ []

-- `if *title != "" { newTitle = *title }`
abbrev pub or_old : Text → Text → Text
or_old new old = if is_empty new then old else new

unfoldable pub torrent_rm : List Text → M Message
torrent_rm args = do id ← lift (only_argument args); delete_torrent id; pure torrent_deleted

unfoldable pub edit_given : Text → Text → Text → M Message
edit_given id title category = do
  t ← get_torrent id
  update_torrent_fields id (or_old title t.title) (or_old category t.category)
  pure torrent_updated

unfoldable pub torrent_edit : List Text → M Message
unfolding edit_given
torrent_edit [] = raise usage
torrent_edit (id ∷ args) = do
  p ← lift (parse edit_flags [] args)
  edit_given id (value_of (codes "title") p.given) (value_of (codes "category") p.given)

abbrev pub torrent_sub : Text → List Text → M Message
torrent_sub sub args =
    if eq_text sub (codes "rm")
    then torrent_rm args
    else if eq_text sub (codes "edit")
    then torrent_edit args
    else raise unknown_command

unfoldable pub cmd_torrent : Setup → List Text → M Message
unfolding torrent_rm torrent_edit
cmd_torrent s [] = raise usage
cmd_torrent s (sub ∷ args) = do open_store s; torrent_sub sub args
