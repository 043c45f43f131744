-- ===== src/Cli/Terminal.antt =====
-- internal/cli: what the commands share. Their arguments come from `os.Args`, and what they print
-- is a `Message`, one constructor for each text; where a command fails, only its error is kept.
use revolution.Prelude.{ℕ, ℤ, Text, codes, is_empty, Bool, List, [], ◌∷◌, ◌++◌, if◌then◌else◌}
use revolution.Store.Db.{Db, Followed}
use revolution.Store.Exec.{Result, ok, err, M, pure, lift, query, usage, ◌>>=◌, ◌>>◌, try}
use revolution.Store.Relays.{Relay}
use revolution.Store.Accounts.{find_followed}
use revolution.Nostr.External.{External}
use revolution.Nostr.Keys.{Nip19, resolve_pubkey, encode_npub}
use revolution.Config.{Config, Files, Yaml, load}
use revolution.Ingest.Sync.{Client}

-- One line of `follow list`: the npub, the alias or a dash, and whether it is active.
pub record AccountLine : Type 0 where
  pub npub : Text
  pub alias : Text
  pub active : Bool

pub data Message : Type 0 where
  now_followed not_followed : Text → Message
  no_accounts no_relays : Message
  accounts : List AccountLine → Message
  relay_added relay_removed : Text → Message
  relays : List Relay → Message
  torrent_deleted torrent_updated : Message
  -- how many of which account, and what came of the question
  asked : ℕ → Text → Message → Message
  nothing_to_purge : Text → Message
  cancelled : Message
  purged : ℕ → Text → Message
  synced_user : ℕ → Text → Message
  synced_all : ℕ → Message
  maintenance_is : Bool → Message
  -- the path, and what the file there holds
  backed_up : Text → Db → Message
  -- the process id, and the address of the site
  started : ℤ → Text → Message
  stopped served : Message

-- What the commands take from outside: the libraries, the files, the relays for a time-out in
-- seconds, and the line that is read from the terminal.
pub record Setup : Type 0 where
  pub external : External
  pub nip19 : Nip19
  pub yaml : Yaml
  pub files : Files
  pub client : ℤ → Client
  pub stdin : Text

-- DefaultConfigPath, DefaultPidPath, DefaultLogPath
abbrev pub config_path : Text
config_path = codes "config.yaml"

abbrev pub pid_path : Text
pid_path = codes "revolution.pid"

abbrev pub log_path : Text
log_path = codes "revolution.log"

-- `if fs.NArg() != 1 { return … }`
abbrev pub only_argument : List Text → Result Text
only_argument (a ∷ []) = ok a
only_argument _ = err usage

module _ (s : Setup) where
  abbrev pub load_config : Result Config
  load_config = load s.yaml s.files config_path

  -- `store.Open(cfg.DBPath)`: the schema's statements, which leave tables that are there.
  abbrev pub open_store : M Config
  open_store = do cfg ← lift load_config; query (λ db. ok tt); pure cfg

  abbrev pub or_resolved : Text → Result Followed → M Followed
  or_resolved name (ok f) = pure f
  or_resolved name (err e) = do
    hex ← lift (resolve_pubkey s.nip19 s.external name)
    find_followed hex

  unfoldable pub resolve_followed : Text → M Followed
  resolve_followed name = try (find_followed name) (or_resolved name)

  unfoldable pub display_followed : Followed → Text
  display_followed f =
      let npub = encode_npub s.nip19 f.pubkey in
      if is_empty f.alias then npub else npub ++ codes " (" ++ f.alias ++ codes ")"
