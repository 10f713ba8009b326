-- ===== src/Config/Watch.antt =====
-- internal/config/config.go: reading the file, the one load of the program, and the goroutine that
-- watches the file, with the channels of those that wait for changes. Reading the file, the
-- environment, YAML, the creation of a directory and the events of the file system are arguments.

pub mod Laws
use grabarr.Common.{
  ℕ, zero, suc, Bool, true, false, ◌||◌, ◌&&◌, Option, none, some, List, [], ◌∷◌, ◌++◌, map,
  if◌then◌else◌, Text, codes, ◌=t◌, dir, base, Error, wrapped, Result, ok, err,
}
use grabarr.Config.{Config, load_config, reload}

-- What the operating system and the YAML library give: the file of a path, its text with the
-- environment's variables in it, the configuration of a text, and the error of `MkdirAll`.
pub record Platform : Type 0 where
  pub read_file : Text → Result Text
  pub expand_env : Text → Text
  pub unmarshal : Text → Result Config
  pub mkdir_all : Text → Option Error

abbrev wrap_error : {A : Type 0} → Text → Result A → Result A
wrap_error text (ok a) = ok a
wrap_error text (err e) = err (wrapped text e)

abbrev directory_result : Text → Option Error → Result Unit
directory_result path none = ok tt
directory_result path (some e) = err (wrapped (codes "failed to create directory " ++ path) e)

module _ (p : Platform) where
  abbrev unmarshalled : Result Text → Result Config
  unmarshalled (err e) = err (wrapped (codes "failed to read config file") e)
  unmarshalled (ok text) =
      wrap_error (codes "failed to unmarshal config") (p.unmarshal (p.expand_env text))

  unfoldable pub read_config : Text → Result Config
  read_config path = unmarshalled (p.read_file path)

  -- The directory of the database of a configuration that was read.
  abbrev pub ensure_directories : Result Config → Result Unit
  ensure_directories (err e) = ok tt
  ensure_directories (ok c) =
      directory_result (dir c.database.path) (p.mkdir_all (dir c.database.path))

  unfoldable pub load_file : Text → Result Config
  unfolding read_config load_config
  load_file path = load_config (read_config path) (ensure_directories (read_config path))

-- `configOnce` and `globalConfig`.
pub record Loaded : Type 0 where
  pub done : Bool
  pub global_config : Option Config

abbrev loaded_once : Result Config → (Option Config × Option Error) × Loaded
loaded_once (ok c) = ((some c, none), record { done = true; global_config = some c })
loaded_once (err e) = ((none, some e), record { done = true; global_config = none })

-- `Load`, with the configuration, which may be nil, and the error.
unfoldable pub load : Platform → Text → Loaded → (Option Config × Option Error) × Loaded
unfolding load_file
load p path l = if l.done then ((l.global_config, none), l) else loaded_once (load_file p path)

-- The configuration in force, and for each watcher whether its channel holds a signal.
pub record Shared : Type 0 where
  pub config : Config
  pub watchers : List Bool

pub data WatchEvent : Type 0 where
  file_event : (name : Text) → (write create : Bool) → Platform → WatchEvent
  watcher_error : Error → WatchEvent
  watches : WatchEvent
  receives : (watcher : ℕ) → WatchEvent

-- A full channel keeps its one signal.
abbrev pub notify_watchers : Shared → Shared
notify_watchers s = record s { watchers = map (λ _. true) s.watchers }

-- The new watcher is the last one.
abbrev pub watch_for_changes : Shared → Shared
watch_for_changes s = record s { watchers = s.watchers ++ false ∷ [] }

abbrev clear_at : ℕ → List Bool → List Bool
clear_at k [] = []
clear_at zero (b ∷ bs) = false ∷ bs
clear_at (suc k) (b ∷ bs) = b ∷ clear_at k bs

abbrev pub signal_at : ℕ → List Bool → Bool
signal_at k [] = false
signal_at zero (b ∷ bs) = b
signal_at (suc k) (b ∷ bs) = signal_at k bs

-- After a reload: its result, and the configuration then in force.
abbrev reloaded : Result Unit × Config → Shared → Shared
reloaded (ok _, c) s = notify_watchers (record s { config = c })
reloaded (err e, c) s = record s { config = c }

-- An event of the file system, which tells the file's directory from others.
abbrev is_change : (config_path name : Text) → (write create : Bool) → Bool
is_change config_path name write create = base name =t base config_path && (write || create)

unfoldable pub watch_event : (config_path : Text) → WatchEvent → Shared → Shared
unfolding load_file reload
watch_event config_path (file_event name write create p) s =
    if is_change config_path name write create
    then reloaded (reload (load_file p config_path) s.config) s
    else s
watch_event config_path (watcher_error e) s = s
watch_event config_path watches s = watch_for_changes s
watch_event config_path (receives watcher) s = record s { watchers = clear_at watcher s.watchers }

unfoldable pub watch_config : (config_path : Text) → List WatchEvent → Shared → Shared
unfolding watch_event
watch_config config_path [] s = s
watch_config config_path (e ∷ es) s = watch_config config_path es (watch_event config_path e s)
