-- ===== src/Daemon/Notify.antt =====
-- What the watcher and the scanner make of a configuration that they are told of, one after the
-- other: `user_config_changed` of daemon/src/file_watcher.cpp and daemon/src/file_scanner.cpp.
use vca.Prelude.{
  ◌≡◌, refl, ap, sym, Bool, true, false, Bool-cases, inl, inr, ◌⊎◌, ◌↔◌, subst, In, ◌∙◌,
}
use vca.Paths.Path.{FilePath}
use vca.UserDb.Sql.{Sql}
use vca.UserDb.Roots.{roots}
use vca.Config.User.{Env, UserConfig}
use vca.Watch.Changed.{IsChanged, user_config_changed-IsChanged}
use vca.Daemon.World.{World, Openers, notify_watcher, notify_scanner, both, notify}

module _ {D : Type 0} where
  -- The database knows the directories that have a scanner, and each watcher's among them.
  abbrev pub IsSynced : World D → Type 0
  IsSynced w =
      (d : FilePath) → (In d (roots w.db) ↔ In d w.scanners) × (In d w.watchers → In d w.scanners)

  -- The database, and the scanner, have exactly the configured directories, and the watcher none other.
  abbrev pub IsRefreshed : World D → Type 0
  IsRefreshed w =
      (d : FilePath)
      → (In d (roots w.db) ↔ In d w.config.root_dirs)
        × (In d w.scanners ↔ In d w.config.root_dirs)
        × (In d w.watchers → In d w.config.root_dirs)

  pub refreshed-IsSynced : (w : World D) → IsRefreshed w → IsSynced w
  refreshed-IsSynced w h d =
      let (known, scanned, watched) = h d in
      ((λ m. scanned.1 (known.0 m), λ m. known.1 (scanned.0 m)), λ m. scanned.1 (watched m))

-- The two rounds at one directory. `R` is known to the database, `W` has a watcher, `S` has a
-- scanner, `C` is configured, `O` is that a scanner can be made; the number is the round's.
watcher_round :
    {R S W C O V W1 R1 S2 R2 : Type 0}
    → (R → S ⊎ C)
    → (C → O)
    → W1 ↔ (C × (W ⊎ V))
    → R1 ↔ (C ⊎ (R × ¬ W))
    → S2 ↔ (C × (S ⊎ O))
    → R2 ↔ (C ⊎ (R1 × ¬ S))
    → (R2 ↔ C) × (S2 ↔ C) × (W1 → C)
watcher_round cover co w1 r1 s2 r2 = (
  (
    λ m. elim (r2.0 m) [
      | inl c ↦ c
      | inr (k, out) ↦ elim (r1.0 k) [
        | inl c ↦ c
        | inr (r, _) ↦ elim (cover r) [ inl s ↦ absurd (out s) | inr c ↦ c ]
      ]
    ],
    λ c. r2.1 (inl c),
  ),
  (λ m. (s2.0 m).0, λ c. s2.1 (c, inr (co c))),
  λ m. (w1.0 m).0,
)

scanner_round :
    {R S W C O V S1 R1 W2 R2 : Type 0}
    → R ↔ S
    → (C → O)
    → S1 ↔ (C × (S ⊎ O))
    → R1 ↔ (C ⊎ (R × ¬ S))
    → W2 ↔ (C × (W ⊎ V))
    → R2 ↔ (C ⊎ (R1 × ¬ W))
    → (R2 ↔ C) × (S1 ↔ C) × (W2 → C)
scanner_round rs co s1 r1 w2 r2 = (
  (
    λ m. elim (r2.0 m) [
      | inl c ↦ c
      | inr (k, _) ↦ elim (r1.0 k) [ inl c ↦ c | inr (r, out) ↦ absurd (out (rs.0 r)) ]
    ],
    λ c. r2.1 (inl c),
  ),
  (λ m. (s1.0 m).0, λ c. s1.1 (c, inr (co c))),
  λ m. (w2.0 m).0,
)

module _ {D : Type 0} (env : Env) (sql : Sql D) (openers : Openers) where
  both-ends :
      (f g : World D → World D × Bool) (w : World D)
      → (both env sql openers f g w).1 ≡ true
      → ((f w).1 ≡ true) × (both env sql openers f g w ≡ g (f w).0)
  unfolding both
  both-ends f g w h = elim (Bool-cases (f w).1) [
    | inl e ↦ (e, rw (e, both) refl)
    | inr e ↦ cc (e, (rw (e, both) at h))
  ]

  watcher-IsChanged :
      (w : World D)
      → ((x : FilePath) → In x w.watchers → In x w.config.root_dirs → In x (roots w.db))
      → (notify_watcher env sql openers w).1 ≡ true
      → let w' = (notify_watcher env sql openers w).0 in
        (w'.config ≡ w.config)
        × (w'.scanners ≡ w.scanners)
        × ((d : FilePath)
            → IsChanged sql env.current openers.watches w.config.root_dirs d
                (record { kept = w.watchers; db = w.db })
                (record { kept = w'.watchers; db = w'.db }))
  unfolding notify_watcher
  watcher-IsChanged w known h = (
    refl,
    refl,
    λ d.
        user_config_changed-IsChanged sql env.current openers.watches w.config.root_dirs d _ known
          h,
  )

  scanner-IsChanged :
      (w : World D)
      → ((x : FilePath) → In x w.scanners → In x w.config.root_dirs → In x (roots w.db))
      → (notify_scanner env sql openers w).1 ≡ true
      → let w' = (notify_scanner env sql openers w).0 in
        (w'.config ≡ w.config)
        × (w'.watchers ≡ w.watchers)
        × ((d : FilePath)
            → IsChanged sql env.current openers.scans w.config.root_dirs d
                (record { kept = w.scanners; db = w.db })
                (record { kept = w'.scanners; db = w'.db }))
  unfolding notify_scanner
  scanner-IsChanged w known h = (
    refl,
    refl,
    λ d. user_config_changed-IsChanged sql env.current openers.scans w.config.root_dirs d _ known h,
  )

  -- The scanner can be made for each configured directory.
  abbrev pub IsScannable : World D → Type 0
  IsScannable w = (x : FilePath) → In x w.config.root_dirs → openers.scans x ≡ true

  pub same-In : (d : FilePath) (c c' : UserConfig) → c' ≡ c → In d c.root_dirs → In d c'.root_dirs
  same-In d c c' e m = subst (λ a. In d a.root_dirs) (sym e) m

  -- The watcher first. What the database knew beforehand has a scanner or is configured.
  pub watcher_first :
      (w : World D)
      → ((x : FilePath) → In x (roots w.db) → In x w.scanners ⊎ In x w.config.root_dirs)
      → ((x : FilePath) → In x w.watchers → In x w.config.root_dirs → In x (roots w.db))
      → IsScannable w
      → (notify env sql openers false w).1 ≡ true
      → IsRefreshed (notify env sql openers false w).0
  unfolding notify
  watcher_first w cover known opens h d =
      let (ok, ran) =
        both-ends (notify_watcher env sql openers) (notify_scanner env sql openers) w h in
      let w1 = (notify_watcher env sql openers w).0 in
      let (c1, s1, one) = watcher-IsChanged w known ok in
      let still : (x : FilePath)
          → In x w1.scanners
          → In x w1.config.root_dirs
          → In x (roots w1.db) =
        λ x m n. (one x).1.1 (inl (same-In x _ _ (sym c1) n)) in
      let (c2, s2, two) = scanner-IsChanged w1 still (ap (λ r. r.1) (sym ran) ∙ h) in
      subst IsRefreshed (ap (λ r. r.0) (sym ran))
        (λ x.
          let after = two x in
          rw (c2, c1, s2)
            (watcher_round (cover x) (opens x) (one x).0 (one x).1 (rw (c1, s1) at after.0)
              (rw (c1, s1) at after.1)))
        d

  scanner_first :
      (w : World D)
      → IsSynced w
      → IsScannable w
      → (notify env sql openers true w).1 ≡ true
      → IsRefreshed (notify env sql openers true w).0
  unfolding notify
  scanner_first w synced opens h d =
      let (ok, ran) =
        both-ends (notify_scanner env sql openers) (notify_watcher env sql openers) w h in
      let w1 = (notify_scanner env sql openers w).0 in
      let (c1, s1, one) = scanner-IsChanged w (λ x m _. (synced x).0.1 m) ok in
      let still : (x : FilePath)
          → In x w1.watchers
          → In x w1.config.root_dirs
          → In x (roots w1.db) =
        λ x m n. (one x).1.1 (inl (same-In x _ _ (sym c1) n)) in
      let (c2, s2, two) = watcher-IsChanged w1 still (ap (λ r. r.1) (sym ran) ∙ h) in
      subst IsRefreshed (ap (λ r. r.0) (sym ran))
        (λ x.
          let after = two x in
          rw (c2, c1, s2)
            (scanner_round (synced x).0 (opens x) (one x).0 (one x).1 (rw (c1, s1) at after.0)
              (rw (c1, s1) at after.1)))
        d

  pub notify-IsRefreshed :
      (b : Bool) (w : World D)
      → IsSynced w
      → IsScannable w
      → (notify env sql openers b w).1 ≡ true
      → IsRefreshed (notify env sql openers b w).0
  notify-IsRefreshed true w synced opens h = scanner_first w synced opens h
  notify-IsRefreshed false w synced opens h =
      watcher_first w (λ x m. inl ((synced x).0.0 m)) (λ x m _. (synced x).0.1 ((synced x).1 m))
        opens h

  pub notify-config : (b : Bool) (w : World D) → (notify env sql openers b w).0.config ≡ w.config
  unfolding notify both notify_watcher notify_scanner
  notify-config true w = elim (Bool-cases (notify_scanner env sql openers w).1) [
    | inl e ↦ rw (e, notify, both, notify_watcher, notify_scanner) refl
    | inr e ↦ rw (e, notify, both, notify_watcher, notify_scanner) refl
  ]
  notify-config false w = elim (Bool-cases (notify_watcher env sql openers w).1) [
    | inl e ↦ rw (e, notify, both, notify_watcher, notify_scanner) refl
    | inr e ↦ rw (e, notify, both, notify_watcher, notify_scanner) refl
  ]
