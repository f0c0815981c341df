-- ===== src/Daemon/Session.antt =====
-- The database, the watcher and the scanner over a run of the daemon: the order in which
-- daemon/src/daemon.cpp makes them, and then changes of the file of the configuration.
use vca.Prelude.{
  if◌then◌else◌, ℕ, ◌≡◌, refl, ap, sym, ◌∙◌, subst, Bool, true, false, List, [], ◌∷◌, Option,
  Bool-cases, inl, inr, ◌↔◌, In,
}
use vca.Paths.Path.{FilePath}
use vca.UserDb.Sql.{Sql}
use vca.UserDb.Store.{Impl, create}
use vca.UserDb.Roots.{roots}
use vca.UserDb.Created.{create-roots}
use vca.Config.User.{
  Env, UserConfig, Command, reread, repopulate, valid_root_dir, is_own, perform_repopulate,
}
use vca.Daemon.World.{World, Openers, notify, perform_reread}
use vca.Daemon.Notify.{IsSynced, IsRefreshed, refreshed-IsSynced, watcher_first}
use vca.Daemon.Refresh.{reread-IsRefreshed}

-- A change of a file in the directory of the configuration: what the file of the configuration holds
-- then, the command that is pushed, and which observer comes first.
pub record FileChange : Type 0 where
  pub content : Option (List ℕ)
  pub command : Command
  pub scanner_first : Bool

module _ {D : Type 0} (env : Env) (sql : Sql D) (openers : Openers) where
  -- `user_db.create`, then the file watcher, then the file scanner.
  unfoldable pub start_up : UserConfig → Impl D → World D × Bool
  start_up config db =
      let r = create sql env.current config.root_dirs db in
      let w : World D = record { config = config; watchers = []; scanners = []; db = r.0 } in
      elim r.1 [ false ↦ (w, false) | true ↦ notify env sql openers false w ]

  abbrev with_file : Option (List ℕ) → World D → World D
  with_file content w = record w { config = record w.config { file = content } }

  -- The command that reads the file again, or the one that makes it anew without telling the
  -- observers.
  unfoldable pub perform_command : Bool → Command → World D → World D × Bool
  perform_command scanner_first (reread name) w =
      perform_reread env sql openers scanner_first name w
  perform_command scanner_first (repopulate name) w =
      let r = perform_repopulate env name w.config in (record w { config = r.0 }, r.1)

  abbrev pub change : FileChange → World D → World D × Bool
  change c w = perform_command c.scanner_first c.command (with_file c.content w)

  unfoldable pub session : List FileChange → World D → World D × Bool
  session [] w = (w, true)
  session (c ∷ changes) w =
      let r = change c w in elim r.1 [ false ↦ r | true ↦ session changes r.0 ]

  -- Whether the observers know of the configuration after a command, and after the changes: not
  -- after the one that makes its file anew, until the next that reads it.
  unfoldable pub is_told : Command → UserConfig → Bool → Bool
  is_told (reread name) config told = if is_own env name config then true else told
  is_told (repopulate name) config told = if is_own env name config then false else told

  unfoldable pub all_told : List FileChange → World D → Bool → Bool
  all_told [] w told = told
  all_told (c ∷ changes) w told =
      all_told changes (change c w).0 (is_told c.command (with_file c.content w).config told)

  start_up-ends :
      (config : UserConfig) (db : Impl D)
      → (start_up config db).1 ≡ true
      → let r = create sql env.current config.root_dirs db in
        let w : World D = record { config = config; watchers = []; scanners = []; db = r.0 } in
        (r.1 ≡ true) × (start_up config db ≡ notify env sql openers false w)
  unfolding start_up
  start_up-ends config db h = elim (Bool-cases (create sql env.current config.root_dirs db).1) [
    | inl e ↦ (e, rw (e, start_up) refl)
    | inr e ↦ cc (rw (e, start_up) at h)
  ]

  start_up-IsRefreshed :
      (config : UserConfig) (db : Impl D)
      → ((x : FilePath) → In x config.root_dirs → openers.scans x ≡ true)
      → (start_up config db).1 ≡ true
      → IsRefreshed (start_up config db).0
  start_up-IsRefreshed config db opens h =
      let (ok, ran) = start_up-ends config db h in
      let created : (x : FilePath)
          → In x (roots (create sql env.current config.root_dirs db).0) ↔ In x config.root_dirs =
        λ x. create-roots sql env.current config.root_dirs x db ok in
      subst (λ r. IsRefreshed r.0) (sym ran)
        (watcher_first env sql openers _ (λ x m. inr ((created x).0 m)) (λ x m n. (created x).1 n)
          opens (ap (λ r. r.1) (sym ran) ∙ h))

  -- A command for another file does nothing.
  other_file :
      (b : Bool) (name : List ℕ) (w : World D)
      → is_own env name w.config ≡ false
      → perform_reread env sql openers b name w ≡ (w, true)
  unfolding perform_reread
  other_file b name w e = rw (e, perform_reread) refl

  -- The database and the scanner agree, and where the observers were told also with the
  -- configuration.
  abbrev pub IsKept : Bool → World D → Type 0
  IsKept told w = IsSynced w × (told ≡ true → IsRefreshed w)

  perform_command-IsKept :
      (b told : Bool) (k : Command) (w : World D)
      → ((x : FilePath) → valid_root_dir env x ≡ true → openers.scans x ≡ true)
      → IsKept told w
      → (perform_command b k w).1 ≡ true
      → IsKept (is_told k w.config told) (perform_command b k w).0
  unfolding perform_command is_told perform_repopulate
  perform_command-IsKept b told (reread name) w opens (synced, fresh) h =
      elim (Bool-cases (is_own env name w.config)) [
        | inl e ↦
            let now = reread-IsRefreshed env sql openers b name w synced opens e h in
            rw e (refreshed-IsSynced (perform_reread env sql openers b name w).0 now, λ _. now)
        | inr e ↦
            subst (λ r. IsKept (if is_own env name w.config then true else told) r.0)
              (sym (other_file b name w e)) (rw e (synced, fresh))
      ]
  perform_command-IsKept b told (repopulate name) w opens (synced, fresh) h =
      elim (Bool-cases (is_own env name w.config)) [
        | inl e ↦ rw e (synced, λ q. cc q)
        | inr e ↦ rw (e, perform_repopulate) (synced, fresh)
      ]

  session-ends :
      (c : FileChange) (changes : List FileChange) (w : World D)
      → (session (c ∷ changes) w).1 ≡ true
      → ((change c w).1 ≡ true) × (session (c ∷ changes) w ≡ session changes (change c w).0)
  unfolding session
  session-ends c changes w h = elim (Bool-cases (change c w).1) [
    | inl e ↦ (e, rw (e, session) refl)
    | inr e ↦ cc (e, (rw (e, session) at h))
  ]

  session-IsKept :
      (changes : List FileChange) (told : Bool) (w : World D)
      → ((x : FilePath) → valid_root_dir env x ≡ true → openers.scans x ≡ true)
      → IsKept told w
      → (session changes w).1 ≡ true
      → IsKept (all_told changes w told) (session changes w).0
  unfolding session all_told
  session-IsKept [] told w opens kept h = kept
  session-IsKept (c ∷ changes) told w opens kept h =
      let (ok, ran) = session-ends c changes w h in
      let w' = with_file c.content w in
      let now : IsKept (is_told c.command w'.config told) (change c w).0 =
        perform_command-IsKept c.scanner_first told c.command w' opens kept ok in
      subst (λ r. IsKept (all_told (c ∷ changes) w told) r.0) (sym ran)
        (session-IsKept changes (is_told c.command w'.config told) (change c w).0 opens now
          (ap (λ r. r.1) (sym ran) ∙ h))

  started-IsKept :
      (config : UserConfig) (db : Impl D)
      → ((x : FilePath) → valid_root_dir env x ≡ true → openers.scans x ≡ true)
      → ((x : FilePath) → In x config.root_dirs → valid_root_dir env x ≡ true)
      → (start_up config db).1 ≡ true
      → IsKept true (start_up config db).0
  started-IsKept config db opens valid started =
      let fresh = start_up-IsRefreshed config db (λ x m. opens x (valid x m)) started in
      (refreshed-IsSynced (start_up config db).0 fresh, λ _. fresh)

  -- From the start on, over any changes of files in the directory of the configuration, as long as
  -- nothing throws and unless the last change of the file itself was a deletion or a move, of which
  -- the observers are not told: the database and the scanner have just the configured directories,
  -- and the watcher none other. The configured directories of the start exist, and a scanner can be
  -- made for each directory that exists.
  pub session-IsRefreshed :
      (config : UserConfig) (db : Impl D) (changes : List FileChange)
      → ((x : FilePath) → valid_root_dir env x ≡ true → openers.scans x ≡ true)
      → ((x : FilePath) → In x config.root_dirs → valid_root_dir env x ≡ true)
      → (start_up config db).1 ≡ true
      → (session changes (start_up config db).0).1 ≡ true
      → all_told changes (start_up config db).0 true ≡ true
      → IsRefreshed (session changes (start_up config db).0).0
  session-IsRefreshed config db changes opens valid started ran told =
      let start = started-IsKept config db opens valid started in
      (session-IsKept changes true (start_up config db).0 opens start ran).1 told

  -- Over any changes, deletions and moves of the file of the configuration included, as long as
  -- nothing throws: the database has just the directories of the scanner, and the watcher none other.
  -- The configured directories of the start exist, and a scanner can be made for each directory that
  -- exists.
  pub session-IsSynced :
      (config : UserConfig) (db : Impl D) (changes : List FileChange)
      → ((x : FilePath) → valid_root_dir env x ≡ true → openers.scans x ≡ true)
      → ((x : FilePath) → In x config.root_dirs → valid_root_dir env x ≡ true)
      → (start_up config db).1 ≡ true
      → (session changes (start_up config db).0).1 ≡ true
      → IsSynced (session changes (start_up config db).0).0
  session-IsSynced config db changes opens valid started ran =
      let start = started-IsKept config db opens valid started in
      (session-IsKept changes true (start_up config db).0 opens start ran).0
