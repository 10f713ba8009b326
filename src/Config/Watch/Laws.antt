-- ===== src/Config/Watch/Laws.antt =====
-- internal/config/config.go: what the watcher of the file keeps and tells, and loading twice.
use grabarr.Common.{
  ℕ, zero, suc, ◌≡◌, refl, ◌∙◌, Bool, true, false, ◌==◌, Bool-cases, inl, inr, none, some, List, [],
  ◌∷◌, ◌++◌, map, length, ltb, Text, Error, Result, ok, err, arith,
}
use grabarr.Config.{Config, reload}
use grabarr.Config.Reload.{IsSound, load_config-IsSound}
use grabarr.Config.Watch.{
  Platform, read_config, ensure_directories, load_file, Loaded, load, Shared, WatchEvent,
  file_event, watcher_error, watches, receives, signal_at, is_change, clear_at, reloaded,
  watch_config,
}

abbrev pub NoReceive : ℕ → List WatchEvent → Type 0
NoReceive k [] = Unit
NoReceive k (receives j ∷ es) = ((j == k) ≡ false) × NoReceive k es
NoReceive k (_ ∷ es) = NoReceive k es

signal_at-all :
    (k : ℕ) (bs : List Bool) → ltb k (length bs) ≡ true → signal_at k (map (λ _. true) bs) ≡ true
signal_at-all k [] h = ground (arith, h)
signal_at-all zero (b ∷ bs) h = refl
signal_at-all (suc k) (b ∷ bs) h = signal_at-all k bs (ground (arith, h))

signal_at-kept :
    (k : ℕ) (bs : List Bool) → signal_at k bs ≡ true → signal_at k (map (λ _. true) bs) ≡ true
signal_at-kept k [] h = ground (arith, h)
signal_at-kept zero (b ∷ bs) h = refl
signal_at-kept (suc k) (b ∷ bs) h = signal_at-kept k bs h

signal_at-append :
    (k : ℕ) (bs : List Bool) → signal_at k bs ≡ true → signal_at k (bs ++ false ∷ []) ≡ true
signal_at-append k [] h = ground (arith, h)
signal_at-append zero (b ∷ bs) h = h
signal_at-append (suc k) (b ∷ bs) h = signal_at-append k bs h

signal_at-clear_at :
    (j k : ℕ) (bs : List Bool) → (j == k) ≡ false → signal_at k (clear_at j bs) ≡ signal_at k bs
signal_at-clear_at j k [] h = ground arith
signal_at-clear_at zero zero (b ∷ bs) h = ground (arith, h)
signal_at-clear_at zero (suc k) (b ∷ bs) h = refl
signal_at-clear_at (suc j) zero (b ∷ bs) h = refl
signal_at-clear_at (suc j) (suc k) (b ∷ bs) h = signal_at-clear_at j k bs (ground (arith, h))

module _ (path : Text) (k : ℕ) where
  reloaded-signal :
      (r : Result Unit × Config) (s : Shared)
      → signal_at k s.watchers ≡ true
      → signal_at k (reloaded r s).watchers ≡ true
  reloaded-signal (ok _, c) s h = signal_at-kept k s.watchers h
  reloaded-signal (err e, c) s h = h

  watch_config-signal :
      (es : List WatchEvent) (s : Shared)
      → NoReceive k es
      → signal_at k s.watchers ≡ true
      → signal_at k (watch_config path es s).watchers ≡ true
  unfolding watch_config
  watch_config-signal [] s n h = h
  watch_config-signal (file_event name write create p ∷ es) s n h =
      elim (Bool-cases (is_change path name write create)) [
        | inl y ↦
            rw (y, watch_config)
              (watch_config-signal es (reloaded (reload (load_file p path) s.config) s) n
                (reloaded-signal (reload (load_file p path) s.config) s h))
        | inr y ↦ rw (y, watch_config) (watch_config-signal es s n h)
      ]
  watch_config-signal (watcher_error e ∷ es) s n h = watch_config-signal es s n h
  watch_config-signal (watches ∷ es) s n h =
      watch_config-signal es _ n (signal_at-append k s.watchers h)
  watch_config-signal (receives j ∷ es) s (d, n) h =
      watch_config-signal es (record s { watchers = clear_at j s.watchers }) n
        (signal_at-clear_at j k s.watchers d ∙ h)

  -- A change of the file is not lost. Where the file was written or created and the new
  -- configuration loads, a watcher that was registered before has a signal in its channel until it
  -- receives, whatever events follow.
  pub watch_config-signaled :
      (name : Text) (write create : Bool) (p : Platform) (c : Config) (s : Shared)
      (es : List WatchEvent)
      → is_change path name write create ≡ true
      → load_file p path ≡ ok c
      → ltb k (length s.watchers) ≡ true
      → NoReceive k es
      → signal_at k (watch_config path (file_event name write create p ∷ es) s).watchers ≡ true
  unfolding watch_config
  watch_config-signaled name write create p c s es y e h n =
      rw (watch_config, y, e)
        (watch_config-signal es (reloaded (reload (ok c) s.config) s) n
          (signal_at-all k s.watchers h))

-- Of a configuration in force.
abbrev KeepsDownloads : Config → Shared → Type 0
KeepsDownloads c s = IsSound s.config × (s.config.downloads ≡ c.downloads)

module _ (path : Text) (c : Config) where
  reload-KeepsDownloads :
      (p : Platform) (r : Result Config) (s : Shared)
      → load_file p path ≡ r
      → KeepsDownloads c s
      → KeepsDownloads c (reloaded (reload r s.config) s)
  unfolding load_file reload
  reload-KeepsDownloads p (err e) s h k = k
  reload-KeepsDownloads p (ok d) s h (sound, same) =
      let new : IsSound d =
        load_config-IsSound (read_config p path) (ensure_directories p (read_config p path)) d h in
      (
        record {
          port_low = new.port_low;
          port_high = new.port_high;
          limit = new.limit;
          retries = new.retries;
          token = new.token;
          user = new.user;
        },
        same,
      )

  -- Over any events of the watched directory, a valid configuration is followed by valid ones only,
  -- with a port from 1 to 65535, at least one job at a time, no negative number of retries, and a
  -- token and a user where notifications are enabled; and the section of the downloads is never
  -- changed.
  pub watch_config-downloads :
      (es : List WatchEvent) (s : Shared)
      → IsSound s.config
      → s.config.downloads ≡ c.downloads
      → IsSound (watch_config path es s).config
        × ((watch_config path es s).config.downloads ≡ c.downloads)
  unfolding watch_config
  watch_config-downloads [] s sound same = (sound, same)
  watch_config-downloads (file_event name write create p ∷ es) s sound same =
      elim (Bool-cases (is_change path name write create)) [
        | inl y ↦
            let r : Result Config = load_file p path in
            let t : Shared = reloaded (reload r s.config) s in
            let kept : KeepsDownloads c t = reload-KeepsDownloads p r s refl (sound, same) in
            rw (y, watch_config) (watch_config-downloads es t kept.0 kept.1)
        | inr y ↦ rw (y, watch_config) (watch_config-downloads es s sound same)
      ]
  watch_config-downloads (watcher_error e ∷ es) s sound same =
      watch_config-downloads es s sound same
  watch_config-downloads (watches ∷ es) s sound same = watch_config-downloads es _ sound same
  watch_config-downloads (receives j ∷ es) s sound same =
      watch_config-downloads es (record s { watchers = clear_at j s.watchers }) sound same

abbrev pub not_loaded : Loaded
not_loaded = record { done = false; global_config = none }

-- After a first load that failed, loading again gives neither a configuration nor an error, whatever
-- file is named then and whatever it holds.
pub load-failed :
    (p q : Platform) (path other : Text) (e : Error)
    → load_file p path ≡ err e
    → ((load p path not_loaded).0 ≡ (none, some e))
      × ((load q other (load p path not_loaded).1).0 ≡ (none, none))
unfolding load
load-failed p q path other e h = rw (h, load) (refl, refl)
