-- ===== src/Paths/Parent.antt =====
-- `Path::is_parent_of` of core/vca/filesystem.cpp decides the strict order of directories.
use vca.Prelude.{
  ℕ, ◌≡◌, ◌≢◌, refl, ap, sym, ◌∙◌, true, List, [], ◌∷◌, ◌++◌, append_assoc, str_eq, list_eq_iff,
  str_eq_iff, ◌↔◌, arith, Bool-cases, inl, inr, ◌<◌, length, length-append,
}
use vca.Paths.Path.{FilePath, path_eq, absolute, walk, is_parent_of}

pub path_eq_iff : (l r : FilePath) → (path_eq l r ≡ true) ↔ (l ≡ r)
unfolding path_eq
path_eq_iff l r =
    let parts = list_eq_iff str_eq str_eq_iff l.parts r.parts in
    (λ e. ground (arith, parts), λ e. ground (arith, parts))

-- The parent's components are those of the child less one or more at the end.
abbrev pub Above : List (List ℕ) → List (List ℕ) → Type 0
Above parent child = (below : List (List ℕ)) × (below ≢ []) × (child ≡ parent ++ below)

walk-Above : (p c : List (List ℕ)) → walk p c ≡ true → Above p c
unfolding walk
walk-Above [] [] h = cc
walk-Above [] (c ∷ cs) h = (c ∷ cs, (λ e. cc), refl)
walk-Above (p ∷ ps) [] h = cc
walk-Above (p ∷ ps) (c ∷ cs) h = elim (Bool-cases (str_eq p c)) [
  | inl e ↦
      let (below, ne, q) = walk-Above ps cs (rw e at h) in (below, ne, cc ((str_eq_iff p c).0 e, q))
  | inr e ↦ cc (rw e at h)
]

Above-walk : (p c : List (List ℕ)) → Above p c → walk p c ≡ true
unfolding walk
Above-walk [] [] (below, ne, q) = absurd (ne (sym q))
Above-walk [] (c ∷ cs) h = refl
Above-walk (p ∷ ps) [] (below, ne, q) = cc
Above-walk (p ∷ ps) (c ∷ cs) (below, ne, q) =
    rw ((str_eq_iff p c).1 (ground arith)) (Above-walk ps cs (below, ne, ground arith))

Above-shorter : (p c : List (List ℕ)) → Above p c → length p < length c
Above-shorter p c ([], ne, q) = absurd (ne refl)
Above-shorter p c (d ∷ ds, ne, q) = omega (arith, ap length q, length-append p (d ∷ ds))

Above-irrefl : (p c : List (List ℕ)) → Above p c → p ≢ c
Above-irrefl p c a e = absurd (omega (arith, Above-shorter p c a, ap length e))

append-ne-nil : (xs ys : List (List ℕ)) → xs ≢ [] → xs ++ ys ≢ []
append-ne-nil [] ys h = absurd (h refl)
append-ne-nil (x ∷ xs) ys h = λ e. cc

Above-trans : (a b c : List (List ℕ)) → Above a b → Above b c → Above a c
Above-trans a b c (x, nx, qx) (y, ny, qy) =
    (x ++ y, append-ne-nil x y nx, qy ∙ ap (λ l. l ++ y) qx ∙ append_assoc a x y)

module _ (current : List (List ℕ)) where
  -- One path is a parent of another exactly when, both made absolute, the other has the
  -- components of the first and at least one more behind them.
  pub is_parent_of_iff :
      (parent child : FilePath)
      → (is_parent_of current parent child ≡ true)
        ↔ Above (absolute current parent) (absolute current child)
  unfolding is_parent_of
  is_parent_of_iff parent child = (to, from)
    where
      to :
          is_parent_of current parent child ≡ true
          → Above (absolute current parent) (absolute current child)
      to h = elim (Bool-cases (path_eq parent child)) [
        | inl e ↦ cc (rw e at h)
        | inr e ↦ walk-Above _ _ (rw e at h)
      ]

      from :
          Above (absolute current parent) (absolute current child)
          → is_parent_of current parent child ≡ true
      from a = elim (Bool-cases (path_eq parent child)) [
        | inl e ↦
            absurd (Above-irrefl _ _ a (ap (absolute current) ((path_eq_iff parent child).0 e)))
        | inr e ↦ rw e (Above-walk _ _ a)
      ]

  pub parent_shorter :
      (p c : FilePath)
      → is_parent_of current p c ≡ true
      → length (absolute current p) < length (absolute current c)
  parent_shorter p c h = Above-shorter _ _ ((is_parent_of_iff p c).0 h)

  pub parent_trans :
      (a b c : FilePath)
      → is_parent_of current a b ≡ true
      → is_parent_of current b c ≡ true
      → is_parent_of current a c ≡ true
  parent_trans a b c h k =
      (is_parent_of_iff a c).1
        (Above-trans _ _ _ ((is_parent_of_iff a b).0 h) ((is_parent_of_iff b c).0 k))
