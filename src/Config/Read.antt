-- ===== src/Config/Read.antt =====
-- What `read` of core/vca/config.cpp makes of the file of the configuration.
use vca.Prelude.{
  ℕ, ◌≡◌, refl, ap, sym, ◌∙◌, true, not, List, [], ◌∷◌, Option, none, some, if◌then◌else◌,
  insert_by, Bool-cases, Option-cases, inl, inr, ◌⊎◌, ◌↔◌, subst, In, here, there, not-In-nil,
  In-insert_by_self, In-insert_by, In-of-insert_by,
}
use vca.Paths.Path.{FilePath, is_parent_of}
use vca.UserDb.Results.{path_lt}
use vca.UserDb.Found.{path_lt_antisym}
use vca.Config.RootDirs.{has_parent, normalize_root_dirs}
use vca.Config.Normal.{normalize_root_dirs_iff, has_parent_of, has_parent-In}
use vca.Config.User.{Env, UserConfig, valid_root_dir, read_dirs, read}

module _ (env : Env) where
  -- A text of the file that names a directory which exists and whose path is absolute.
  abbrev pub IsListed : List (Option (List ℕ)) → FilePath → Type 0
  IsListed dirs d =
      (dir : List ℕ) × In (some dir) dirs × (env.path_of dir ≡ d) × (valid_root_dir env d ≡ true)

  IsListed-later :
      (o : Option (List ℕ)) (dirs : List (Option (List ℕ))) (d : FilePath)
      → IsListed dirs d
      → IsListed (o ∷ dirs) d
  IsListed-later o dirs d (dir, m, e, v) = (dir, there m, e, v)

  read_one :
      (dir : List ℕ) (d : FilePath) (ds : List FilePath)
      → In d (
          if not (valid_root_dir env (env.path_of dir))
          then ds
          else insert_by path_lt (env.path_of dir) ds)
        ↔ (In d ds ⊎ ((env.path_of dir ≡ d) × (valid_root_dir env d ≡ true)))
  read_one dir d ds = elim (Bool-cases (valid_root_dir env (env.path_of dir))) [
    | inr e ↦
        rw e (
          λ m. inl m,
          λ o. elim o [ inl m ↦ m | inr (q, v) ↦ cc (e, ap (valid_root_dir env) q, v) ],
        )
    | inl e ↦ rw e (
      λ m. elim (In-of-insert_by path_lt (env.path_of dir) d ds m) [
        | inl q ↦ inr (sym q, ap (valid_root_dir env) q ∙ e)
        | inr n ↦ inl n
      ],
      λ o. elim o [
        | inl m ↦ In-insert_by path_lt (env.path_of dir) d ds m
        | inr (q, v) ↦
            subst (λ x. In x (insert_by path_lt (env.path_of dir) ds)) q
              (In-insert_by_self path_lt path_lt_antisym (env.path_of dir) ds)
      ],
    )
  ]

  IsListed-step :
      (dir : List ℕ) (dirs : List (Option (List ℕ))) (d : FilePath) (ds next rs : List FilePath)
      → In d next ↔ (In d ds ⊎ ((env.path_of dir ≡ d) × (valid_root_dir env d ≡ true)))
      → In d rs ↔ (In d next ⊎ IsListed dirs d)
      → In d rs ↔ (In d ds ⊎ IsListed (some dir ∷ dirs) d)
  IsListed-step dir dirs d ds next rs one rest = (to, from)
    where
      to : In d rs → In d ds ⊎ IsListed (some dir ∷ dirs) d
      to m = elim (rest.0 m) [
        | inr l ↦ inr (IsListed-later (some dir) dirs d l)
        | inl n ↦ elim (one.0 n) [ inl k ↦ inl k | inr (q, v) ↦ inr (dir, here refl, q, v) ]
      ]

      from : In d ds ⊎ IsListed (some dir ∷ dirs) d → In d rs
      from (inl m) = rest.1 (inl (one.1 (inl m)))
      from (inr (x, here q, e, v)) =
          let same : x ≡ dir = cc q in rest.1 (inl (one.1 (inr (ap env.path_of (sym same) ∙ e, v))))
      from (inr (x, there m, e, v)) = rest.1 (inr (x, m, e, v))

  read_dirs_iff :
      (dirs : List (Option (List ℕ))) (ds : List FilePath) (d : FilePath)
      → (read_dirs env dirs ds).1 ≡ true
      → In d (read_dirs env dirs ds).0 ↔ (In d ds ⊎ IsListed dirs d)
  unfolding read_dirs
  read_dirs_iff [] ds d h =
      (λ m. inl m, λ o. elim o [ inl m ↦ m | inr (dir, m, _, _) ↦ elim m [ ] ])
  read_dirs_iff (none ∷ dirs) ds d h = cc
  read_dirs_iff (some dir ∷ dirs) ds d h =
      let next =
        if not (valid_root_dir env (env.path_of dir))
        then ds
        else insert_by path_lt (env.path_of dir) ds in
      IsListed-step dir dirs d ds next (read_dirs env dirs next).0 (read_one dir d ds)
        (read_dirs_iff dirs next d h)

  -- A reading that ends without an exception.
  read-ends :
      (c : UserConfig)
      → (read env c).1 ≡ true
      → (content : List ℕ) × (dirs : List (Option (List ℕ))) × (c.file ≡ some content)
        × (env.parse content ≡ some dirs)
        × ((read_dirs env dirs []).1 ≡ true)
        × ((read env c).0.root_dirs ≡ normalize_root_dirs env.current (read_dirs env dirs []).0)
  unfolding read
  read-ends c h = elim (Option-cases c.file) [
    | inl e ↦ cc (rw (e, read) at h)
    | inr (content, e) ↦ elim (Option-cases (env.parse content)) [
      | inl f ↦ cc (rw (e, f, read) at h)
      | inr (dirs, f) ↦ elim (Bool-cases (read_dirs env dirs []).1) [
        | inr g ↦ cc (rw (e, f, g, read) at h)
        | inl g ↦ (content, dirs, e, f, g, rw (e, f, g, read) refl)
      ]
    ]
  ]

  -- The texts that the file has under `root_dirs`, none if it cannot be read.
  unfoldable pub texts_of : UserConfig → List (Option (List ℕ))
  texts_of c = elim c.file [
    | none ↦ []
    | some content ↦ elim (env.parse content) [ none ↦ [] | some dirs ↦ dirs ]
  ]

  texts_of-ends :
      (c : UserConfig) (content : List ℕ) (dirs : List (Option (List ℕ)))
      → c.file ≡ some content
      → env.parse content ≡ some dirs
      → texts_of c ≡ dirs
  unfolding texts_of
  texts_of-ends c content dirs e f = rw (e, f, texts_of) refl

  -- A listed directory above this one.
  abbrev pub IsBelow : List (Option (List ℕ)) → FilePath → Type 0
  IsBelow dirs d = (p : FilePath) × IsListed dirs p × (is_parent_of env.current p d ≡ true)

  topmost_iff :
      (dirs : List (Option (List ℕ))) (d : FilePath)
      → (read_dirs env dirs []).1 ≡ true
      → In d (normalize_root_dirs env.current (read_dirs env dirs []).0)
        ↔ (IsListed dirs d × ¬ IsBelow dirs d)
  topmost_iff dirs d g = (to, from)
    where
      ds : List FilePath
      ds = (read_dirs env dirs []).0

      listed : (x : FilePath) → In x ds → IsListed dirs x
      listed x m = elim ((read_dirs_iff dirs [] x g).0 m) [
        | inl n ↦ absurd (not-In-nil x n)
        | inr l ↦ l
      ]

      known : (x : FilePath) → IsListed dirs x → In x ds
      known x l = (read_dirs_iff dirs [] x g).1 (inr l)

      to : In d (normalize_root_dirs env.current ds) → IsListed dirs d × ¬ IsBelow dirs d
      to m =
          let (n, h) = (normalize_root_dirs_iff env.current ds d).0 m in
          (
            listed d n,
            λ b. let (p, l, up) = b in cc (has_parent_of env.current ds p d (known p l) up, h),
          )

      from : IsListed dirs d × ¬ IsBelow dirs d → In d (normalize_root_dirs env.current ds)
      from (l, n) = (normalize_root_dirs_iff env.current ds d).1 (
        known d l,
        elim (Bool-cases (has_parent env.current ds d)) [
          | inr e ↦ e
          | inl e ↦
              let (p, m, up) = has_parent-In env.current ds d e in absurd (n (p, listed p m, up))
        ],
      )

  -- The directories of a configuration whose reading ended without an exception: those that the
  -- file lists, that exist and whose path is absolute, but for those below another such one.
  pub read_iff :
      (c : UserConfig) (d : FilePath)
      → (read env c).1 ≡ true
      → In d (read env c).0.root_dirs ↔ (IsListed (texts_of c) d × ¬ IsBelow (texts_of c) d)
  read_iff c d h =
      let (content, dirs, e, f, g, same) = read-ends c h in
      subst (λ ts. In d (read env c).0.root_dirs ↔ (IsListed ts d × ¬ IsBelow ts d))
        (sym (texts_of-ends c content dirs e f))
        (subst (λ rs. In d rs ↔ (IsListed dirs d × ¬ IsBelow dirs d)) (sym same)
          (topmost_iff dirs d g))
