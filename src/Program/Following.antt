-- ===== src/Program/Following.antt =====
-- `revolution follow add`, as it is typed, and whom the other commands then find (internal/cli).
use revolution.Prelude.{
  ◌+◌, ◌≡◌, refl, ap, subst, sym, ◌∙◌, ℤ, Text, text_eq, codes, eq_text, true, ◌||◌, List, [], ◌∷◌,
}
use revolution.Store.Db.{Followed}
use revolution.Store.Exec.{Result, ok, World, advance, ◌>>=◌, lift, pure, continue, statement, now}
use revolution.Store.Torrents.Upsert.{NoFault}
use revolution.Store.Accounts.{add_followed}
use revolution.Nostr.Keys.{resolve_pubkey}
use revolution.Config.{Config}
use revolution.Ingest.Scrape.{Scraper}
use revolution.Cli.Terminal.{Setup, Message, load_config, resolve_followed, now_followed}
use revolution.Cli.Follow.{follow_add, cmd_follow}
use revolution.Cli.Follow.Order.{is_plain, follow_as, follow_add-order}
use revolution.Cli.Follow.Named.{
  NamesOnly, FollowedAs, put_followed, first_named-put_followed, resolve_followed-found,
}
use revolution.Cli.Process.{Machine}
use revolution.Cli.Server.{Turn}
use revolution.Cli.Run.{run, on_world, Exit, State}
use revolution.Program.Moderation.{open_store_ok}

abbrev pub follow_line : Text → Text → List Text
follow_line alias key = codes "--alias" ∷ alias ∷ key ∷ []

-- Exit code 0, and the account of the key under the alias is what the name finds.
abbrev pub Finds : Setup → Text → Text → Text → Exit × State → Type 0
Finds s hex alias name (e, st) =
    (e.code ≡ 0)
    × ((f : Followed) × ((resolve_followed s name st.0).0 ≡ ok f) × FollowedAs hex alias f)

module _ (s : Setup) (cfg : Config) (loads : load_config s ≡ ok cfg) (w : World) (h : NoFault w)
    (key alias hex : Text) (plain : is_plain key ≡ true)
    (resolved : resolve_pubkey s.nip19 s.external key ≡ ok hex) where
  abbrev followed_world : World
  followed_world = record w {
    db = record w.db { followed = put_followed hex alias (w.clock (w.step + 1)) w.db.followed };
    step = w.step + 1 + 1;
  }

  follow_as_ok : follow_as s key alias (advance w) ≡ (ok (now_followed hex), followed_world)
  unfolding ◌>>=◌ lift pure add_followed now statement
  follow_as_ok = rw (resolved, h (w.step + 1)) refl

  cmd_follow-add :
      cmd_follow s (codes "add" ∷ follow_line alias key) w ≡ (ok (now_followed hex), followed_world)
  unfolding cmd_follow ◌>>=◌ eq_text
  cmd_follow-add =
      ap
        (λ (r : Result Config × World).
          continue r.0 (λ c. follow_add s (follow_line alias key)) r.1)
        (open_store_ok s cfg loads w h)
      ∙ (follow_add-order s key alias (advance w) plain).1
      ∙ follow_as_ok

  module _ (sc : ℤ → Scraper) (ts : List Turn) (m : Machine) (name : Text) where
    -- `revolution follow add --alias ALIAS KEY`, where the configuration loads, no statement fails and `ResolvePubkey`
    -- accepts KEY, which does not begin with "-", exits with 0, and then the key it resolved to and the alias, each of them if no
    -- other account has it for its key or its alias, find the account, with this key and alias and active,
    -- for the other commands.
    pub run-follow_add :
        (eq_text hex name || eq_text alias name) ≡ true
        → NamesOnly hex name w.db.followed
        → Finds s hex alias name
            (run s sc ts (codes "follow" ∷ codes "add" ∷ follow_line alias key) (w, m))
    unfolding run eq_text
    run-follow_add named only =
        let (f, found, is) =
          first_named-put_followed hex alias name (w.clock (w.step + 1)) named w.db.followed only in
        subst (λ (r : Result Message × World). Finds s hex alias name (on_world r m))
          (sym cmd_follow-add)
          (
            refl,
            (
              f,
              ap (λ r. r.0)
                  (resolve_followed-found s name f followed_world (h (w.step + 1 + 1)) found),
              is,
            ),
          )
