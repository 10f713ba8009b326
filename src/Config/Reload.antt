-- ===== src/Config/Reload.antt =====
-- internal/config/config.go: what a configuration in force satisfies, and what a reload changes.
use grabarr.Common.{
  [], ◌=t◌, ◌||◌, has_prefix, codes, true, false, ◌≡◌, pos, ◌≤ℤ◌, Result, ok, err, arith,
}
use grabarr.Config.{Config, validate, load_config, reload}

-- What a valid configuration is. A token or a user that still has the name of a variable of the
-- environment, `${…}`, counts as none.
pub record IsSound (c : Config) : Type 0 where
  pub port_low : pos 1 ≤ℤ c.server.port
  pub port_high : c.server.port ≤ℤ pos 65535
  pub limit : pos 1 ≤ℤ c.jobs.max_concurrent
  pub retries : pos 0 ≤ℤ c.jobs.max_retries
  pub token :
      c.notifications.pushover.enabled ≡ true
      → (c.notifications.pushover.token =t []
          || has_prefix c.notifications.pushover.token (codes "${"))
        ≡ false
  pub user :
      c.notifications.pushover.enabled ≡ true
      → (c.notifications.pushover.user =t []
          || has_prefix c.notifications.pushover.user (codes "${"))
        ≡ false

validate-IsSound : (c : Config) → validate c ≡ ok tt → IsSound c
unfolding validate
validate-IsSound c h = ground arith

-- A configuration that was loaded has a port from 1 to 65535, runs at least one job at a time,
-- allows no negative number of retries, and has a token and a user if notifications are enabled.
pub load_config-IsSound :
    (read : Result Config) (directories : Result Unit) (c : Config)
    → load_config read directories ≡ ok c
    → IsSound c
unfolding load_config
load_config-IsSound (err e) directories c h = ground arith
load_config-IsSound (ok d) directories c h = ground (arith, validate-IsSound d)

-- A reload that fails leaves the configuration in force as it was; one that succeeds replaces every
-- part of it by the new one's but for the downloads, which stay the old ones.
pub reload-downloads :
    (read : Result Config) (directories : Result Unit) (c : Config)
    → reload (load_config read directories) c ≡ elim (load_config read directories) [
      | err e ↦ (err e, c)
      | ok new ↦ (ok tt, record new { downloads = c.downloads })
    ]
unfolding reload
reload-downloads read directories c = ground (arith, load_config read directories)
