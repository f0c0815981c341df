-- ===== src/Config/Normal.antt =====
-- What `normalize_root_dirs` of core/vca/config.cpp makes of a set of directories.
use vca.Prelude.{
  ℕ, zero, suc, ◌≡◌, ◌<◌, refl, ap, sym, true, false, not, List, [], ◌∷◌, filter, length, ◌⊎◌, inl,
  inr, Bool-cases, arith, In, here, there, any-In, In-any, In-filter, In-of-filter, not-In-nil, ◌↔◌,
  subst,
}
use vca.Paths.Path.{FilePath, path_eq, absolute, is_parent_of}
use vca.Paths.Parent.{path_eq_iff, parent_shorter, parent_trans}
use vca.Config.RootDirs.{erase, erase_all, has_parent, normalize_root_dirs}

In-erase :
    (dir d : FilePath) (ds : List FilePath) → In d ds → path_eq d dir ≡ false → In d (erase dir ds)
In-erase dir d ds m h = In-filter (λ a. not (path_eq a dir)) ds d m (rw h)

-- What is not collected stays.
In-erase_all :
    (trash ds : List FilePath) (d : FilePath) → In d ds → ¬ In d trash → In d (erase_all trash ds)
unfolding erase_all
In-erase_all [] ds d m h = m
In-erase_all (t ∷ trash) ds d m h =
    In-erase_all trash (erase t ds) d (In-erase t d ds m other) (λ k. h (there k))
  where
    other : path_eq d t ≡ false
    other = elim (Bool-cases (path_eq d t)) [
      | inl e ↦ absurd (h (here ((path_eq_iff d t).0 e)))
      | inr e ↦ e
    ]

-- What is collected goes, and nothing comes in.
In-of-erase_all :
    (trash ds : List FilePath) (d : FilePath) → In d (erase_all trash ds) → In d ds × (¬ In d trash)
unfolding erase_all
In-of-erase_all [] ds d m = (m, not-In-nil d)
In-of-erase_all (t ∷ trash) ds d m =
    let rest = In-of-erase_all trash (erase t ds) d m in
    let kept = In-of-filter (λ a. not (path_eq a t)) ds d rest.0 in (kept.0, out kept.1 rest.1)
  where
    out : not (path_eq d t) ≡ true → ¬ In d trash → ¬ In d (t ∷ trash)
    out e n (here q) = cc ((path_eq_iff d t).1 q)
    out e n (there k) = n k

module _ (current : List (List ℕ)) where
  -- A directory stays exactly when it was there and no other is a parent of it.
  pub normalize_root_dirs_iff :
      (ds : List FilePath) (d : FilePath)
      → In d (normalize_root_dirs current ds) ↔ (In d ds × (has_parent current ds d ≡ false))
  unfolding normalize_root_dirs
  normalize_root_dirs_iff ds d = (to, from)
    where
      trash : List FilePath
      trash = filter (has_parent current ds) ds

      to : In d (erase_all trash ds) → In d ds × (has_parent current ds d ≡ false)
      to m =
          let r = In-of-erase_all trash ds d m in
          (
            r.0,
            elim (Bool-cases (has_parent current ds d)) [
              | inl e ↦ absurd (r.1 (In-filter (has_parent current ds) ds d r.0 e))
              | inr e ↦ e
            ],
          )

      from : In d ds × (has_parent current ds d ≡ false) → In d (erase_all trash ds)
      from (m, h) =
          In-erase_all trash ds d m (λ k. cc (h, (In-of-filter (has_parent current ds) ds d k).1))

  ne-of-parent : (p c : FilePath) → is_parent_of current p c ≡ true → path_eq c p ≡ false
  ne-of-parent p c h = elim (Bool-cases (path_eq c p)) [
    | inl e ↦ absurd (
        omega (
          arith,
          parent_shorter current p c h,
          ap (λ q. length (absolute current q)) ((path_eq_iff c p).0 e),
        ))
    | inr e ↦ e
  ]

  pub has_parent_of :
      (ds : List FilePath) (p c : FilePath)
      → In p ds
      → is_parent_of current p c ≡ true
      → has_parent current ds c ≡ true
  unfolding has_parent
  has_parent_of ds p c m h = In-any _ ds p m (rw (ne-of-parent p c h, h))

  pub has_parent-In :
      (ds : List FilePath) (c : FilePath)
      → has_parent current ds c ≡ true
      → (p : FilePath) × In p ds × (is_parent_of current p c ≡ true)
  unfolding has_parent
  has_parent-In ds c h = let (p, m, e) = any-In _ ds h in (p, m, ground arith)

  -- No directory that is left is a parent of another.
  pub normalize-flat :
      (ds : List FilePath) (a d : FilePath)
      → In a (normalize_root_dirs current ds)
      → In d (normalize_root_dirs current ds)
      → is_parent_of current a d ≡ false
  normalize-flat ds a d ma md = elim (Bool-cases (is_parent_of current a d)) [
    | inl e ↦ cc (
      has_parent_of ds a d ((normalize_root_dirs_iff ds a).0 ma).0 e,
      ((normalize_root_dirs_iff ds d).0 md).1,
    )
    | inr e ↦ e
  ]

  -- The directory itself, or a parent of it, is left.
  abbrev pub Covered : List FilePath → FilePath → Type 0
  Covered ds d = (a : FilePath) × In a ds × ((a ≡ d) ⊎ (is_parent_of current a d ≡ true))

  Covered-below :
      (n : ℕ) (ds : List FilePath) (d : FilePath)
      → length (absolute current d) < n
      → In d ds
      → Covered (normalize_root_dirs current ds) d
  Covered-below zero ds d lt m = absurd (omega arith)
  Covered-below (suc n) ds d lt m = elim (Bool-cases (has_parent current ds d)) [
    | inr e ↦ (d, (normalize_root_dirs_iff ds d).1 (m, e), inl refl)
    | inl e ↦
        let (p, mp, up) = has_parent-In ds d e in
        let (a, ma, above) =
          Covered-below n ds p (omega (arith, parent_shorter current p d up)) mp in
        (
          a,
          ma,
          elim above [
            | inl q ↦ inr (subst (λ x. is_parent_of current x d ≡ true) (sym q) up)
            | inr q ↦ inr (parent_trans current a p d q up)
          ],
        )
  ]

  -- Nothing that was to be indexed is lost: every directory of the set is left or lies below one
  -- that is.
  pub normalize-Covered :
      (ds : List FilePath) (d : FilePath) → In d ds → Covered (normalize_root_dirs current ds) d
  normalize-Covered ds d m = Covered-below (suc (length (absolute current d))) ds d (omega arith) m
