-- ===== src/Daemon/World.antt =====
-- The configuration of core/vca/config.cpp with its two observers, the file watcher and the file
-- scanner, which share the user database. The observers stand in a set that is ordered by their
-- addresses, so that either can be the first.
use vca.Prelude.{ℕ, Bool, true, false, not, List, if◌then◌else◌}
use vca.Paths.Path.{FilePath}
use vca.UserDb.Sql.{Sql}
use vca.UserDb.Store.{Impl}
use vca.Config.User.{Env, UserConfig, read, is_own}
use vca.Watch.Sync.{Observer, user_config_changed}

pub record World (D : Type 0) : Type 0 where
  pub config : UserConfig
  pub watchers : List FilePath
  pub scanners : List FilePath
  pub db : Impl D

-- What the two constructors do with a directory: `true` where they do not throw.
pub record Openers : Type 0 where
  pub watches : FilePath → Bool
  pub scans : FilePath → Bool

module _ {D : Type 0} (env : Env) (sql : Sql D) (openers : Openers) where
  unfoldable pub notify_watcher : World D → World D × Bool
  notify_watcher w =
      let o : Observer D = record { kept = w.watchers; db = w.db } in
      let r = user_config_changed sql env.current openers.watches w.config.root_dirs o in
      (record w { watchers = r.0.kept; db = r.0.db }, r.1)

  unfoldable pub notify_scanner : World D → World D × Bool
  notify_scanner w =
      let o : Observer D = record { kept = w.scanners; db = w.db } in
      let r = user_config_changed sql env.current openers.scans w.config.root_dirs o in
      (record w { scanners = r.0.kept; db = r.0.db }, r.1)

  -- An exception of the first call keeps the second from being made.
  unfoldable pub both :
      (World D → World D × Bool) → (World D → World D × Bool) → World D → World D × Bool
  both f g w = let r = f w in elim r.1 [ false ↦ r | true ↦ g r.0 ]

  unfoldable pub notify : Bool → World D → World D × Bool
  notify true = both notify_scanner notify_watcher
  notify false = both notify_watcher notify_scanner

  -- The command that is pushed when the file of the configuration is added or modified.
  unfoldable pub perform_reread : Bool → List ℕ → World D → World D × Bool
  perform_reread scanner_first name w =
      if not (is_own env name w.config)
      then (w, true)
      else let r = read env w.config in
        let w' : World D = record w { config = r.0 } in
        elim r.1 [ false ↦ (w', false) | true ↦ notify scanner_first w' ]
