-- ===== src/Cli/Run/Failing/Commands.antt =====
-- The commands that write with one statement, or not at all (internal/cli).
use revolution.Prelude.{ℕ, Text, text_eq, eq_text, ap, Bool, List, [], ◌∷◌}
use revolution.Store.Db.{RelayRow, Followed}
use revolution.Store.Exec.{Error, Result, ok, err, lift, pure, raise}
use revolution.Store.Exec.Keeps.{
  Keeps-pure, Keeps-raise, Keeps-lift, Keeps-try, Keeps-query, Keeps-now, keeps_rules,
}
use revolution.Store.Exec.Failing.{
  Reads, FailsClean, FailsClean-Reads, FailsClean-statement, FailsClean-bind, FailsClean-map,
  FailsClean-require_rows, FailsClean-if,
}
use revolution.Store.Torrents.{
  get_torrent, count_by_pubkey, delete_torrent, update_torrent_fields, delete_by_pubkey,
}
use revolution.Store.Torrents.Missing.{select-not_none, delete_torrents_none, edit_torrent_none}
use revolution.Store.Relays.{add_relay, remove_relay, list_relays}
use revolution.Store.Accounts.{add_followed, remove_followed, find_followed, list_followed}
use revolution.Store.Settings.{set_setting, set_maintenance}
use revolution.Store.Backup.{backup_to}
use revolution.Cli.Terminal.{Setup, Message, open_store, or_resolved, resolve_followed}
use revolution.Cli.Follow.{follow_add, follow_rm, follow_list, cmd_follow}
use revolution.Cli.Relay.{relay_add, relay_rm, relay_list, cmd_relay}
use revolution.Cli.Torrent.{torrent_rm, torrent_edit, edit_given, cmd_torrent}
use revolution.Cli.Purge.{purge_all, ask, purge_account, cmd_purge}
use revolution.Ingest.Sync.Kept.{Keeps-if}
use revolution.Cli.Site.{cmd_maintenance, cmd_backup}

-- The methods of `Store` that these commands write with.
delete_torrent-FailsClean : (id : Text) → FailsClean (delete_torrent id)
unfolding delete_torrent
delete_torrent-FailsClean id =
    FailsClean-require_rows _ _ (λ d h. delete_torrents_none (λ r. eq_text r.id id) d h)

update_torrent_fields-FailsClean :
    (id title category : Text) → FailsClean (update_torrent_fields id title category)
unfolding update_torrent_fields
update_torrent_fields-FailsClean id title category =
    FailsClean-bind _ _ (λ b. Keeps-now)
      (λ ts. FailsClean-require_rows _ _ (λ d h. edit_torrent_none id title category ts d h))

remove_relay-FailsClean : (url : Text) → FailsClean (remove_relay url)
unfolding remove_relay
remove_relay-FailsClean url = FailsClean-require_rows _ _ (λ d h.
    ap (λ rs. record d { relays = rs })
      (select-not_none (λ (r : RelayRow). eq_text r.url url) d.relays h))

remove_followed-FailsClean : (pubkey : Text) → FailsClean (remove_followed pubkey)
unfolding remove_followed
remove_followed-FailsClean pubkey = FailsClean-require_rows _ _ (λ d h.
    ap (λ fs. record d { followed = fs })
      (select-not_none (λ (f : Followed). eq_text f.pubkey pubkey) d.followed h))

add_relay-FailsClean : (url : Text) → FailsClean (add_relay url)
unfolding add_relay
add_relay-FailsClean url = FailsClean-bind _ _ (λ b. Keeps-now) (λ ts. FailsClean-statement _)

add_followed-FailsClean : (pubkey alias : Text) → FailsClean (add_followed pubkey alias)
unfolding add_followed
add_followed-FailsClean pubkey alias =
    FailsClean-bind _ _ (λ b. Keeps-now) (λ ts. FailsClean-statement _)

set_maintenance-FailsClean : (on : Bool) → FailsClean (set_maintenance on)
unfolding set_maintenance set_setting
set_maintenance-FailsClean on = FailsClean-statement _

delete_by_pubkey-FailsClean : (pubkey : Text) → FailsClean (delete_by_pubkey pubkey)
unfolding delete_by_pubkey
delete_by_pubkey-FailsClean pubkey = FailsClean-statement _

ruleset clean_rules = (FailsClean-map, FailsClean-bind)

module _ (s : Setup) where
  open_store-Reads : Reads (open_store s)
  open_store-Reads b = search keeps_rules

  or_resolved-Reads : (name : Text) (r : Result Followed) → Reads (or_resolved s name r)
  unfolding find_followed
  or_resolved-Reads name (ok f) b = search keeps_rules
  or_resolved-Reads name (err e) b = search keeps_rules

  resolve_followed-Reads : (name : Text) → Reads (resolve_followed s name)
  unfolding resolve_followed find_followed
  resolve_followed-Reads name b = Keeps-try _ _ (Keeps-query _) (λ r. or_resolved-Reads name r b)

  lift-Reads : {A : Type 0} (r : Result A) → Reads (lift r)
  lift-Reads r b = Keeps-lift r

  raise-FailsClean : (e : Error) → FailsClean {A = Message} (raise e)
  raise-FailsClean e = FailsClean-Reads _ (λ b. Keeps-raise e)

  follow_add-FailsClean : (args : List Text) → FailsClean (follow_add s args)
  unfolding follow_add
  follow_add-FailsClean args = search (clean_rules, lift-Reads, add_followed-FailsClean)

  follow_rm-FailsClean : (args : List Text) → FailsClean (follow_rm s args)
  unfolding follow_rm
  follow_rm-FailsClean args =
      search (clean_rules, lift-Reads, resolve_followed-Reads, remove_followed-FailsClean)

  follow_list-FailsClean : FailsClean (follow_list s)
  unfolding follow_list list_followed
  follow_list-FailsClean = FailsClean-Reads _ (λ b. search keeps_rules)

  pub cmd_follow-FailsClean : (args : List Text) → FailsClean (cmd_follow s args)
  unfolding cmd_follow
  cmd_follow-FailsClean [] = raise-FailsClean _
  cmd_follow-FailsClean (sub ∷ args) = FailsClean-bind _ _ open_store-Reads (λ c.
      FailsClean-if _ _ _ (follow_add-FailsClean args) (
        FailsClean-if _ _ _ (follow_rm-FailsClean args)
          (FailsClean-if _ _ _ follow_list-FailsClean (raise-FailsClean _))))

  relay_add-FailsClean : (args : List Text) → FailsClean (relay_add s args)
  unfolding relay_add
  relay_add-FailsClean args = search (clean_rules, lift-Reads, add_relay-FailsClean)

  relay_rm-FailsClean : (args : List Text) → FailsClean (relay_rm s args)
  unfolding relay_rm
  relay_rm-FailsClean args = search (clean_rules, lift-Reads, remove_relay-FailsClean)

  relay_list-FailsClean : FailsClean (relay_list s)
  unfolding relay_list list_relays
  relay_list-FailsClean = FailsClean-Reads _ (λ b. search keeps_rules)

  pub cmd_relay-FailsClean : (args : List Text) → FailsClean (cmd_relay s args)
  unfolding cmd_relay
  cmd_relay-FailsClean [] = raise-FailsClean _
  cmd_relay-FailsClean (sub ∷ args) = FailsClean-bind _ _ open_store-Reads (λ c.
      FailsClean-if _ _ _ (relay_add-FailsClean args) (
        FailsClean-if _ _ _ (relay_rm-FailsClean args)
          (FailsClean-if _ _ _ relay_list-FailsClean (raise-FailsClean _))))

  torrent_rm-FailsClean : (args : List Text) → FailsClean (torrent_rm args)
  unfolding torrent_rm
  torrent_rm-FailsClean args = search (clean_rules, lift-Reads, delete_torrent-FailsClean)

  get_torrent-Reads : (id : Text) → Reads (get_torrent id)
  unfolding get_torrent
  get_torrent-Reads id b = search keeps_rules

  torrent_edit-FailsClean : (args : List Text) → FailsClean (torrent_edit args)
  unfolding torrent_edit edit_given
  torrent_edit-FailsClean [] = raise-FailsClean _
  torrent_edit-FailsClean (id ∷ args) =
      search (clean_rules, lift-Reads, get_torrent-Reads, update_torrent_fields-FailsClean)

  pub cmd_torrent-FailsClean : (args : List Text) → FailsClean (cmd_torrent s args)
  unfolding cmd_torrent
  cmd_torrent-FailsClean [] = raise-FailsClean _
  cmd_torrent-FailsClean (sub ∷ args) = FailsClean-bind _ _ open_store-Reads (λ c.
      FailsClean-if _ _ _ (torrent_rm-FailsClean args)
        (FailsClean-if _ _ _ (torrent_edit-FailsClean args) (raise-FailsClean _)))

  pure-FailsClean : (m : Message) → FailsClean (pure m)
  pure-FailsClean m = FailsClean-Reads _ (λ b. Keeps-pure m)

  purge_all-FailsClean : (f : Followed) → FailsClean (purge_all s f)
  purge_all-FailsClean f = FailsClean-map _ _ (delete_by_pubkey-FailsClean f.pubkey)

  ask-FailsClean : (f : Followed) (count : ℕ) → FailsClean (ask s f count)
  ask-FailsClean f count =
      FailsClean-if _ _ _ (FailsClean-map _ _ (purge_all-FailsClean f)) (pure-FailsClean _)

  purge_account-FailsClean : (sure : Bool) (f : Followed) → FailsClean (purge_account s sure f)
  unfolding purge_account count_by_pubkey
  purge_account-FailsClean sure f =
      FailsClean-bind _ _ (λ b. Keeps-query _)
        (λ count.
          FailsClean-if _ _ _ (pure-FailsClean _)
            (FailsClean-if _ _ _ (purge_all-FailsClean f) (ask-FailsClean f count)))

  pub cmd_purge-FailsClean : (args : List Text) → FailsClean (cmd_purge s args)
  unfolding cmd_purge
  cmd_purge-FailsClean args =
      search
        (
          clean_rules, lift-Reads, open_store-Reads, resolve_followed-Reads,
          purge_account-FailsClean,
        )
        depth 8

  pub cmd_maintenance-FailsClean : (args : List Text) → FailsClean (cmd_maintenance s args)
  unfolding cmd_maintenance
  cmd_maintenance-FailsClean args =
      search (clean_rules, lift-Reads, open_store-Reads, set_maintenance-FailsClean)

  pub cmd_backup-FailsClean : (args : List Text) → FailsClean (cmd_backup s args)
  unfolding cmd_backup backup_to
  cmd_backup-FailsClean args = FailsClean-Reads _ (λ b. search (keeps_rules, Keeps-if))
