-- ===== src/Lib.antt =====
-- Revolution: a catalogue of torrents fed from Nostr relays, kept in SQLite and served as a site.
--
-- Parts of the program, and the files that model them:
--   Store/*    internal/store. Table and Order are what SQL statements do to a table with a primary
--              key and to an order. Db is the schema of store.go with the triggers of `torrents`
--              (torrents_ai, torrents_ad, torrents_au). Exec is the connection: a method of `Store`
--              takes a World (the tables, the clock, and which statements will fail) to a result and
--              the World it leaves; `transaction` is Begin, Commit and the deferred Rollback.
--              Torrents (torrents.go), Relays (relays.go), Accounts (followed.go, profiles.go) and
--              Settings (settings.go, stats.go) have one definition for each method, FtsQuery and
--              Search are `ftsQuery` and `Search`. Consistent says what holds of the tables between
--              two statements, and Consistent/Catalogue what the methods make of the map from ids to
--              torrents that the tables stand for.
--   Nostr/*    internal/nostr. Nip35 is nip35.go (ParseTorrent, BuildMagnet), with Tags for what it
--              reads of single tags (the URL checks, extractImage),
--              Escape for url.Values.Encode and ParseInt for strconv.ParseInt; Client and Live are
--              client.go (FetchTorrents, FetchProfiles, Live), Keys is keys.go (ResolvePubkey,
--              EncodeNpub).
--   Scrape/*   internal/scrape/scrape.go: the UDP tracker protocol on bytes.
--   Ingest/*   internal/ingest. Sync is ingest.go (SyncUser, SyncAll), Live and Reload are
--              live.go (consumeLive, the reload of LiveSync), Scrape is scrape.go (ScrapeOnce). Sync
--              takes the relay client as an interface, which Relays fills with the model of
--              internal/nostr.
--   Web/*      internal/web: RateLimit and ClientIp are ratelimit.go, Helpers is helpers.go, Markdown
--              is markdown.go, Rss is rss.go; Site, Search, Torrent and Serve are server.go (its types
--              and New, handleSearch, handleTorrent, Handler and withMiddleware).
--   Config     internal/config/config.go (Default, Load, Save).
--   Cli/*      internal/cli. Run is cli.go, Flags is the package flag as the commands use it, Terminal
--              is what they share (resolveFollowed, displayFollowed, the paths); Follow, Relay, Torrent,
--              Purge, Fetch (with sync.go) and Site (maintenance.go, backup.go) are the commands, Process
--              is start.go, stop.go and process.go, Server is server.go.
--   Program/*  command lines as they are typed, with what they do to the catalogue and the site.
--   Prelude/*  numbers, texts, lists and tests shared by all; Tests/* concrete inputs.
--
-- How they interact: SyncUser asks the client for an account's torrents from its cursor on
-- (followed.last_synced_at), stores each in its own transaction, moves the cursor and stores the
-- profile; the live subscription stores single events and moves the same cursor; ScrapeOnce groups
-- the torrents that are due by tracker and stores the counts; all go through the methods of Store. `Run` picks
-- a command by its name: most open the catalogue and call the same methods, start and stop work on the
-- process of the server, whose goroutines are those above beside the site. The site reads through Store
-- and keeps two limiters.
--
-- Numbers: int64 is ℤ with `add64` where the code adds, bytes and 32-bit fields are ℕ with their
-- bounds written out. A string is the list of its code points. `uint32` transaction ids are numbers
-- below 2^32 where that matters. The tokens of a limiter are an int, kept as a 64-bit word that wraps;
-- what holds of the number of requests that pass is stated for periods and rates whose refill fits.
--
-- Parameters (code that is not in the repository): go-nostr's tag searches, relay pool and
-- signature check, url.Parse, the case tables of unicode beyond ASCII, json.Unmarshal, the UDP
-- socket, FTS5's MATCH, the order in which SQLite answers with rows of one time (`Scan`), nip19, YAML,
-- the file system, the processes of the machine, goldmark and bluemonday. What is relied on is in
-- `IsDocumented`: a tag that is found has a value, and no character beyond ASCII has an ASCII capital
-- for its lower case; in `LowersY`: none has the lower case "y"; in `IsNip19`: a key of 64 lower-case
-- hex digits is decoded to what it was encoded from; in `IsUnix`: a new process has a positive id and
-- is there, and a write that succeeds leaves its text in the file.
-- SQLite is modelled where the code's statements use it: primary keys with ON CONFLICT, foreign keys
-- with ON DELETE CASCADE, triggers, the external-content index with its 'delete' command, and rowids
-- above all that are in use. A statement may fail at any step and then leaves the tables as they are.
--
-- Fuel: the batches of a scrape round run on as many rounds as there are targets, and each takes one
-- target at least; humanSize divides at most six times, and a size of 63 bits needs five;
-- waitForExit looks at most 101 times in ten seconds; a number has fewer digits than it counts. Everything
-- else is structural.
--
-- Not modelled: goroutines and tickers other than as sequences of whole turns, signals, the HTTP
-- server and ListenAndServe, template and XML encoding, the texts that are printed other than as
-- constructors (of a command that fails only the error is kept), logging, and time-outs other than as
-- events or replies that do not come: these are printing, glue around the methods above, or code of
-- libraries.
pub mod Prelude
pub mod Nostr
pub mod Scrape
pub mod Store
pub mod Config
pub mod Cli
pub mod Ingest
pub mod Web
pub mod Program
pub mod Tests
