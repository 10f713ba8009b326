-- ===== src/Config.antt =====
-- internal/config/config.go: the configuration's sections, its validation and its reload. A
-- duration is a number of nanoseconds. Reading the file, expanding the environment and parsing
-- YAML are outside: they give the new configuration or an error.
pub mod Reload
pub mod Watch
use grabarr.Common.{
  ℕ, Bool, true, false, ◌&&◌, ◌||◌, List, [], ◌∷◌, ◌++◌, if◌then◌else◌, ℤ, pos, ltb_ℤ, leb_ℤ,
  decimal, Text, codes, ◌=t◌, has_prefix, Error, plain, wrapped, Result, ok, err,
}

abbrev pub Duration : Type 0
Duration = ℕ

pub record SyncConfig : Type 0 where
  pub enabled : Bool
  pub scan_interval : ℤ

pub record ExtractionConfig : Type 0 where
  pub enabled : Bool
  pub cleanup_archives : Bool

pub record WatchedPath : Type 0 where
  pub remote_path : Text
  pub local_path : Text
  pub extensions : List Text
  pub archive_extensions : List Text
  pub exclude_patterns : List Text
  pub auto_download : Bool
  pub recursive : Bool

pub record RemoteConfig : Type 0 where
  pub name : Text
  pub ssh_host : Text
  pub ssh_user : Text
  pub ssh_key_file : Text
  pub watched_paths : List WatchedPath

pub record ServerConfig : Type 0 where
  pub port : ℤ
  pub host : Text
  pub shutdown_timeout : Duration

pub record DownloadsConfig : Type 0 where
  pub local_path : Text
  pub allowed_categories : List Text

pub record SeedboxConfig : Type 0 where
  pub bandwidth_limit_mbps : ℤ
  pub check_interval : Duration

pub record CacheDiskConfig : Type 0 where
  pub path : Text
  pub max_usage_percent : ℤ
  pub check_interval : Duration

pub record GatekeeperRules : Type 0 where
  pub require_filesize_check : Bool

pub record GatekeeperConfig : Type 0 where
  pub seedbox : SeedboxConfig
  pub cache_disk : CacheDiskConfig
  pub rules : GatekeeperRules

pub record JobsConfig : Type 0 where
  pub max_concurrent : ℤ
  pub max_retries : ℤ
  pub cleanup_completed_after : Duration
  pub cleanup_failed_after : Duration

pub record DatabaseConfig : Type 0 where
  pub path : Text

pub record PushoverConfig : Type 0 where
  pub token : Text
  pub user : Text
  pub enabled : Bool
  pub priority : ℤ
  pub retry_interval : Duration
  pub expire_time : Duration

pub record NotificationsConfig : Type 0 where
  pub pushover : PushoverConfig

pub record LoggingConfig : Type 0 where
  pub level : Text
  pub format : Text

pub record Config : Type 0 where
  pub server : ServerConfig
  pub downloads : DownloadsConfig
  pub remotes : List RemoteConfig
  pub gatekeeper : GatekeeperConfig
  pub jobs : JobsConfig
  pub database : DatabaseConfig
  pub notifications : NotificationsConfig
  pub logging : LoggingConfig
  pub sync : SyncConfig
  pub extraction : ExtractionConfig

abbrev is_unset : Text → Bool
is_unset secret = secret =t [] || has_prefix secret (codes "${")

abbrev validate_pushover : PushoverConfig → Result Unit
validate_pushover p =
    if p.enabled
    then if is_unset p.token
      then err (plain (codes "pushover token is required when notifications are enabled"))
      else if is_unset p.user
      then err (plain (codes "pushover user is required when notifications are enabled"))
      else ok tt
    else ok tt

unfoldable pub validate : Config → Result Unit
validate c =
    if leb_ℤ c.server.port (pos 0) || ltb_ℤ (pos 65535) c.server.port
    then err (plain (codes "invalid server port: " ++ decimal c.server.port))
    else if leb_ℤ c.jobs.max_concurrent (pos 0)
    then err (plain (codes "max_concurrent must be greater than 0"))
    else if ltb_ℤ c.jobs.max_retries (pos 0)
    then err (plain (codes "max_retries cannot be negative"))
    else validate_pushover c.notifications.pushover

-- `loadConfig`, from what reading and parsing the file gave. Creating the database's directory is
-- the last step, and its error is an argument too.
unfoldable pub load_config : Result Config → Result Unit → Result Config
unfolding validate
load_config (err e) directories = err e
load_config (ok c) directories = elim (validate c) [
  | err e ↦ err (wrapped (codes "config validation failed") e)
  | ok _ ↦ elim directories [
    | err e ↦ err (wrapped (codes "failed to create directories") e)
    | ok _ ↦ ok c
  ]
]

-- `reload`, from the result of `loadConfig`: the configuration then in force, and the result.
unfoldable pub reload : Result Config → Config → Result Unit × Config
reload (err e) c = (err e, c)
reload (ok new) c = (
  ok tt,
  record c {
    server = new.server;
    remotes = new.remotes;
    gatekeeper = new.gatekeeper;
    jobs = new.jobs;
    database = new.database;
    notifications = new.notifications;
    logging = new.logging;
    sync = new.sync;
    extraction = new.extraction;
  },
)
