-- ===== src/Daemon/Refresh.antt =====
-- What a new configuration makes of the database, the watcher and the scanner: the command of
-- core/vca/config.cpp that reads it, and `user_config_changed` of daemon/src/file_watcher.cpp and
-- daemon/src/file_scanner.cpp.
use vca.Prelude.{◌≡◌, refl, ap, sym, Bool, true, List, Bool-cases, inl, inr, ◌↔◌, subst, In, ◌∙◌, ℕ}
use vca.Paths.Path.{FilePath}
use vca.UserDb.Sql.{Sql}
use vca.UserDb.Roots.{roots}
use vca.Config.User.{Env, read, is_own, valid_root_dir}
use vca.Config.Read.{IsListed, IsBelow, texts_of, read_iff}
use vca.Daemon.World.{World, Openers, notify, perform_reread}
use vca.Daemon.Notify.{IsSynced, IsRefreshed, same-In, notify-config, notify-IsRefreshed}

module _ {D : Type 0} (env : Env) (sql : Sql D) (openers : Openers) where
  with_config : World D → World D
  with_config w = record w { config = (read env w.config).0 }

  reread-ends :
      (b : Bool) (name : List ℕ) (w : World D)
      → is_own env name w.config ≡ true
      → (perform_reread env sql openers b name w).1 ≡ true
      → ((read env w.config).1 ≡ true)
        × (perform_reread env sql openers b name w ≡ notify env sql openers b (with_config w))
  unfolding perform_reread with_config
  reread-ends b name w own h = elim (Bool-cases (read env w.config).1) [
    | inl e ↦ (e, rw (own, e, perform_reread) refl)
    | inr e ↦ cc (rw (own, e, perform_reread) at h)
  ]

  -- A change of the file that is read without an exception: what the database knows, and what the
  -- scanner and the watcher have, is what is configured then.
  pub reread-IsRefreshed :
      (b : Bool) (name : List ℕ) (w : World D)
      → IsSynced w
      → ((x : FilePath) → valid_root_dir env x ≡ true → openers.scans x ≡ true)
      → is_own env name w.config ≡ true
      → (perform_reread env sql openers b name w).1 ≡ true
      → IsRefreshed (perform_reread env sql openers b name w).0
  unfolding with_config
  reread-IsRefreshed b name w synced opens own h =
      let (ok, ran) = reread-ends b name w own h in
      subst (λ r. IsRefreshed r.0) (sym ran)
        (notify-IsRefreshed env sql openers b (with_config w) synced
          (λ x m. opens x (valid_of (((read_iff env w.config x ok).0 m).0)))
          (ap (λ r. r.1) (sym ran) ∙ h))
    where
      valid_of :
          {x : FilePath} → IsListed env (texts_of env w.config) x → valid_root_dir env x ≡ true
      valid_of (_, _, _, v) = v

  -- The directories that the database knows after a change of the file of the configuration, for
  -- either order of the observers: those that the file lists, that exist and whose path is absolute,
  -- but for those below another such one. No exception may occur; what the database knew before
  -- has to be what has a scanner, the watched directories among them; and a scanner can be made for
  -- each directory that exists.
  pub reread_iff :
      (b : Bool) (name : List ℕ) (w : World D) (d : FilePath)
      → IsSynced w
      → ((x : FilePath) → valid_root_dir env x ≡ true → openers.scans x ≡ true)
      → is_own env name w.config ≡ true
      → (perform_reread env sql openers b name w).1 ≡ true
      → In d (roots (perform_reread env sql openers b name w).0.db)
        ↔ (IsListed env (texts_of env w.config) d × ¬ IsBelow env (texts_of env w.config) d)
  unfolding with_config
  reread_iff b name w d synced opens own h =
      let (ok, ran) = reread-ends b name w own h in
      let same : (perform_reread env sql openers b name w).0.config ≡ (read env w.config).0 =
        ap (λ r. r.0.config) ran ∙ notify-config env sql openers b (with_config w) in
      let known = (reread-IsRefreshed b name w synced opens own h d).0 in
      let listed = read_iff env w.config d ok in
      (
        λ m. listed.0 (same-In env sql openers d _ _ (sym same) (known.0 m)),
        λ p. known.1 (same-In env sql openers d _ _ same (listed.1 p)),
      )
