-- ===== src/Config.antt =====
-- internal/config/config.go. The file system and the YAML library are parameters: `Files` reads and
-- writes a file, `Yaml` is `yaml.Marshal` and `yaml.Unmarshal`.
use revolution.Prelude.{ℤ, pos, Text, codes, if◌then◌else◌, Bool, true, Option, none, some}
use revolution.Store.Exec.{Result, ok, err, bad_config, io_error}

pub record Config : Type 0 where
  pub listen_addr : Text
  pub db_path : Text
  pub site_name : Text
  pub live_refresh_minutes : ℤ
  pub reconcile_interval_minutes : ℤ
  pub request_timeout_seconds : ℤ
  pub scrape_enabled : Bool
  pub scrape_interval_minutes : ℤ
  pub scrape_timeout_seconds : ℤ
  pub rss_enabled : Bool
  pub rss_max_items : ℤ
  pub rss_rate_limit_per_minute : ℤ

-- `Default`
abbrev pub default_config : Config
default_config = record {
  listen_addr = codes "127.0.0.1:8420";
  db_path = codes "revolution.db";
  site_name = codes "Revolution";
  live_refresh_minutes = pos 5;
  reconcile_interval_minutes = pos 30;
  request_timeout_seconds = pos 10;
  scrape_enabled = true;
  scrape_interval_minutes = pos 30;
  scrape_timeout_seconds = pos 5;
  rss_enabled = true;
  rss_max_items = pos 50;
  rss_rate_limit_per_minute = pos 12;
}

-- What `os.ReadFile` answers.
pub data Read : Type 0 where
  contents : Text → Read
  not_exist : Read
  read_failed : Read

-- The files: what is at a path, and for a write whether it succeeds and what is then at every path,
-- since several paths may name one file.
pub record Files : Type 0 where
  pub read : Text → Read
  pub write : Text → Text → Bool × (Text → Read)

pub record Yaml : Type 0 where
  -- onto a configuration, whose values stay for the keys that are missing; nothing for an error
  pub unmarshal : Text → Config → Option Config
  pub marshal : Config → Option Text

abbrev pub or_bad_config : Option Config → Result Config
or_bad_config none = err bad_config
or_bad_config (some cfg) = ok cfg

abbrev pub load_read : Yaml → Read → Result Config
load_read yaml (contents text) = or_bad_config (yaml.unmarshal text default_config)
load_read yaml not_exist = ok default_config
load_read yaml read_failed = err io_error

unfoldable pub load : Yaml → Files → Text → Result Config
load yaml fs path = load_read yaml (fs.read path)

-- `os.WriteFile`
abbrev pub write_file : Text → Text → Files → Result (Unit {0}) × Files
write_file path text fs = (
  if (fs.write path text).0 then ok tt else err io_error,
  record fs { read = (fs.write path text).1 },
)

abbrev pub write_marshalled : Text → Files → Option Text → Result (Unit {0}) × Files
write_marshalled path fs none = (err bad_config, fs)
write_marshalled path fs (some text) = write_file path text fs

unfoldable pub save : Yaml → Text → Config → Files → Result (Unit {0}) × Files
save yaml path cfg fs = write_marshalled path fs (yaml.marshal cfg)
