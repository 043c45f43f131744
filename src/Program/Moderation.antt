-- ===== src/Program/Moderation.antt =====
-- `revolution torrent edit` and `revolution purge`, as they are typed (internal/cli).
use revolution.Prelude.{
  Bool-cases, inl, inr, ◌+◌, ◌≡◌, refl, ap, ◌∙◌, ℤ, Text, text_eq, codes, eq_text, is_empty, Bool,
  true, false, ◌||◌, some, List, [], ◌∷◌, if◌then◌else◌,
}
use revolution.Store.Db.{Followed}
use revolution.Store.Exec.{Result, ok, World, M, advance, ◌>>=◌, lift, query, pure, continue}
use revolution.Store.Torrents.{torrent_key, by_pubkey, delete_torrents}
use revolution.Store.Table.{IsUnique}
use revolution.Store.Torrents.Deletion.{loaded-delete_torrents}
use revolution.Store.Consistent.Catalogue.{unless_by}
use revolution.Store.Consistent.Catalogue.Torrents.{spare-unless_by}
use revolution.Cli.Purge.Answer.{LowersY, says_yes, confirmed-says_yes}
use revolution.Store.Torrents.Upsert.{NoFault}
use revolution.Store.Torrents.ReadBack.{loaded}
use revolution.Store.Accounts.{first_named}
use revolution.Config.{Config}
use revolution.Ingest.Scrape.{Scraper}
use revolution.Cli.Flags.{parse}
use revolution.Cli.Terminal.{Setup, Message, load_config, open_store, resolve_followed}
use revolution.Cli.Follow.Named.{resolve_followed-found}
use revolution.Cli.Torrent.{edit_given, torrent_edit, cmd_torrent}
use revolution.Cli.Torrent.Edited.{edited, edit_given-edited}
use revolution.Cli.Purge.{confirmed, purge_account, cmd_purge}
use revolution.Cli.Purge.Effect.{purge_account-db}
use revolution.Cli.Process.{Machine}
use revolution.Cli.Server.{Turn}
use revolution.Cli.Run.{run}

-- The options of `purge`.
abbrev pub purge_line : Bool → Text → List Text
purge_line true user = codes "--user" ∷ user ∷ codes "--yes" ∷ []
purge_line false user = codes "--user" ∷ user ∷ []

module _ (s : Setup) (cfg : Config) (loads : load_config s ≡ ok cfg) (w : World)
    (h : NoFault w) where
  pub open_store_ok : open_store s w ≡ (ok cfg, advance w)
  unfolding ◌>>=◌ lift query pure
  open_store_ok = rw (loads, h w.step) refl

  cmd_torrent-edit :
      (id title category : Text)
      → cmd_torrent s
          (codes "edit" ∷ id ∷ codes "--title" ∷ title ∷ codes "--category" ∷ category ∷ [])
          w
        ≡ edit_given id title category (advance w)
  unfolding cmd_torrent ◌>>=◌ torrent_edit parse eq_text lift
  cmd_torrent-edit id title category =
      ap
        (λ (r : Result Config × World).
          continue r.0
            (λ c. torrent_edit (id ∷ codes "--title" ∷ title ∷ codes "--category" ∷ category ∷ []))
            r.1)
        open_store_ok

  -- The command, once its options are read.
  abbrev purge_rest : Bool → Text → M Message
  purge_rest sure user = do c ← open_store s; f ← resolve_followed s user; purge_account s sure f

  cmd_purge-line :
      (sure : Bool) (user : Text)
      → is_empty user ≡ false
      → cmd_purge s (purge_line sure user) w ≡ purge_rest sure user w
  unfolding cmd_purge ◌>>=◌ parse eq_text lift
  cmd_purge-line true user given = rw given refl
  cmd_purge-line false user given = rw given refl

  purge_rest-found :
      (sure : Bool) (user : Text) (f : Followed)
      → first_named user w.db.followed ≡ some f
      → purge_rest sure user w ≡ purge_account s sure f (advance (advance w))
  unfolding ◌>>=◌
  purge_rest-found sure user f found =
      ap
        (λ (r : Result Config × World).
          continue r.0 (λ c. resolve_followed s user >>= purge_account s sure) r.1)
        open_store_ok
      ∙ ap (λ (r : Result Followed × World). continue r.0 (purge_account s sure) r.1)
          (resolve_followed-found s user f (advance w) (h (w.step + 1)) found)

  module _ (sc : ℤ → Scraper) (ts : List Turn) (m : Machine) where
    -- `revolution torrent edit ID --title T --category C`, where the configuration loads and no statement fails, leaves
    -- under the id the torrent that was there with the title and the category that are given and not empty, and all
    -- the rest of it, files included, or nothing if nothing was there; under every other id it leaves what
    -- was there.
    pub run-torrent_edit :
        (id title category j : Text)
        → loaded j
            (run s sc ts
              (codes "torrent"
                ∷ codes "edit"
                ∷ id
                ∷ codes "--title"
                ∷ title
                ∷ codes "--category"
                ∷ category
                ∷ [])
              (w, m)).1.0.db
          ≡ (if eq_text id j then edited title category (loaded j w.db) else loaded j w.db)
    unfolding run eq_text
    run-torrent_edit id title category j =
        ap (λ (r : Result Message × World). loaded j r.1.db) (cmd_torrent-edit id title category)
        ∙ edit_given-edited id title category (advance w) h j

    run_purge-db :
        (sure : Bool) (user : Text) (f : Followed)
        → is_empty user ≡ false
        → first_named user w.db.followed ≡ some f
        → (run s sc ts (codes "purge" ∷ purge_line sure user) (w, m)).1.0.db
          ≡ (if sure || confirmed s then delete_torrents (by_pubkey f.pubkey) w.db else w.db)
    unfolding run eq_text
    run_purge-db sure user f given found =
        ap (λ (r : Result Message × World). r.1.db)
          (cmd_purge-line sure user given ∙ purge_rest-found sure user f found)
        ∙ purge_account-db s f sure (advance (advance w)) h

    -- `revolution purge --user NAME`, with or without --yes, where the configuration loads, no statement fails, ids are unique and NAME
    -- is the key or the alias of a followed account: under each id, the tables then hold nothing if they held a torrent
    -- of that account, and otherwise what they held, if --yes is given or the line that is read is "y" or "Y" with or without blanks
    -- around it; with any other line they hold what they held.
    pub run-purge :
        (sure : Bool) (user : Text) (f : Followed) (j : Text)
        → LowersY s.external
        → IsUnique torrent_key w.db.torrents
        → is_empty user ≡ false
        → first_named user w.db.followed ≡ some f
        → loaded j (run s sc ts (codes "purge" ∷ purge_line sure user) (w, m)).1.0.db
          ≡ (if sure || says_yes s.stdin then unless_by f.pubkey (loaded j w.db) else loaded j w.db)
    run-purge sure user f j y u given found =
        ap (loaded j) (run_purge-db sure user f given found)
        ∙ ap
            (λ (b : Bool).
              loaded j (if sure || b then delete_torrents (by_pubkey f.pubkey) w.db else w.db))
            (confirmed-says_yes s y)
        ∙ elim (Bool-cases (sure || says_yes s.stdin)) [
          | inl done ↦ rw done (
              loaded-delete_torrents (by_pubkey f.pubkey) w.db j u
              ∙ spare-unless_by f.pubkey j w.db)
          | inr kept ↦ rw kept refl
        ]
