-- ===== src/Config/Written.antt =====
-- What `write` of core/vca/config.cpp leaves for `read`.
use vca.Prelude.{
  ℕ, ◌≡◌, refl, ap, sym, ◌∙◌, subst, true, List, [], ◌∷◌, Option, some, map, In, here, there, All,
  All-In, ◌↔◌,
}
use mathlib.Core.Option.{some-injective}
use vca.Paths.Path.{FilePath, is_parent_of}
use vca.Config.User.{Env, UserConfig, valid_root_dir, read_dirs, read, write}
use vca.Config.Read.{IsListed, IsBelow, texts_of, read_iff}

module _ (env : Env) where
  -- What is printed can be read again, and a path that is made a text is the path of that text.
  abbrev pub IsFaithful : UserConfig → Type 0
  IsFaithful c =
      (env.parse (env.dump (map env.to_narrow c.root_dirs))
        ≡ some (map (λ d. some (env.to_narrow d)) c.root_dirs))
      × All (λ d. env.path_of (env.to_narrow d) ≡ d) c.root_dirs

  abbrev pub written_texts : UserConfig → List (Option (List ℕ))
  written_texts c = map (λ d. some (env.to_narrow d)) c.root_dirs

  read_dirs-texts :
      (dirs ds : List FilePath)
      → (read_dirs env (map (λ d. some (env.to_narrow d)) dirs) ds).1 ≡ true
  unfolding read_dirs
  read_dirs-texts [] ds = refl
  read_dirs-texts (d ∷ dirs) ds = read_dirs-texts dirs _

  read-write : (c : UserConfig) → IsFaithful c → (read env (write env c)).1 ≡ true
  unfolding read write
  read-write c (parsed, _) = rw (parsed, read, write, read_dirs-texts c.root_dirs []) refl

  texts_of-write : (c : UserConfig) → IsFaithful c → texts_of env (write env c) ≡ written_texts c
  unfolding texts_of write
  texts_of-write c (parsed, _) = rw (parsed, texts_of, write) refl

  In-texts :
      (dirs : List FilePath) (d : FilePath)
      → In d dirs
      → In (some (env.to_narrow d)) (map (λ x. some (env.to_narrow x)) dirs)
  In-texts [] d m = elim m [ ]
  In-texts (x ∷ dirs) d (here q) = here (ap (λ y. some (env.to_narrow y)) q)
  In-texts (x ∷ dirs) d (there m) = there (In-texts dirs d m)

  In-of-texts :
      (dirs : List FilePath) (text : List ℕ)
      → In (some text) (map (λ x. some (env.to_narrow x)) dirs)
      → (d : FilePath) × In d dirs × (text ≡ env.to_narrow d)
  In-of-texts [] text m = elim m [ ]
  In-of-texts (x ∷ dirs) text (here q) = (x, here refl, some-injective text (env.to_narrow x) q)
  In-of-texts (x ∷ dirs) text (there m) = let (d, n, e) = In-of-texts dirs text m in (d, there n, e)

  IsListed-iff :
      (c : UserConfig) (d : FilePath)
      → IsFaithful c
      → All (λ x. valid_root_dir env x ≡ true) c.root_dirs
      → IsListed env (written_texts c) d ↔ In d c.root_dirs
  IsListed-iff c d (_, same) valid = (
    λ (text, m, e, v).
        let (x, n, q) = In-of-texts c.root_dirs text m in
        subst (λ y. In y c.root_dirs)
          (sym (All-In _ c.root_dirs x same n) ∙ ap env.path_of (sym q) ∙ e) n,
    λ m. (
      env.to_narrow d,
      In-texts c.root_dirs d m,
      All-In _ c.root_dirs d same m,
      All-In _ c.root_dirs d valid m,
    ),
  )

  -- The directories are not below one another.
  abbrev pub IsFlat : List FilePath → Type 0
  IsFlat dirs = ¬ (
      (p : FilePath) × (d : FilePath) × In p dirs
      × In d dirs
      × (is_parent_of env.current p d ≡ true))

  -- A configuration whose directories exist, are absolute and are not below one another is read as
  -- it was written, where the library reads what it printed and a path's text gives the path.
  pub read-write_iff :
      (c : UserConfig) (d : FilePath)
      → IsFaithful c
      → All (λ x. valid_root_dir env x ≡ true) c.root_dirs
      → IsFlat c.root_dirs
      → ((read env (write env c)).1 ≡ true)
        × (In d (read env (write env c)).0.root_dirs ↔ In d c.root_dirs)
  read-write_iff c d faithful valid flat =
      let ok = read-write c faithful in
      let top =
        subst
          (λ ts.
            In d (read env (write env c)).0.root_dirs ↔ (IsListed env ts d × ¬ IsBelow env ts d))
          (texts_of-write c faithful) (read_iff env (write env c) d ok) in
      let listed = IsListed-iff c d faithful valid in
      (
        ok,
        (
          λ m. listed.0 (top.0 m).0,
          λ m.
              top.1 (
                listed.1 m,
                λ (p, l, up). flat (p, d, (IsListed-iff c p faithful valid).0 l, m, up),
              ),
        ),
      )
