-- ===== src/UserDb/Coherence.antt =====
-- What holds of every entry of the search cache of core/vca/sqlite_userdb.cpp, and which code
-- leaves the cache alone.
use vca.Prelude.{
  ◌≡◌, refl, ◌∙◌, true, List, [], ◌∷◌, Option, some, All, All-append, Bool-cases, Option-cases, inl,
  inr, arith, subst, leb, length,
}
use vca.UserDb.Contents.{FileContents}
use vca.UserDb.Order.{contents_lt-neither_iff}
use vca.UserDb.Cache.{SearchCache, max_size, equivalent, find, erase, evict, emplace, insert}
use vca.UserDb.Sql.{Sql}
use vca.UserDb.Store.{Impl, Act, and_then, exec, assign, transaction}

equivalent_eq : (a o : FileContents) → equivalent a o ≡ true → a ≡ o
unfolding equivalent
equivalent_eq a o h = (contents_lt-neither_iff a o).0 (ground arith, ground arith)

-- What holds of every entry of the cache.
module _ {R : Type 0} (P : FileContents → R → Type 0) where
  abbrev pub Each : List (FileContents × R) → Type 0
  Each = All (λ e. P e.0 e.1)

  pub find-Each :
      (k : FileContents) (r : R) (cache : List (FileContents × R))
      → Each cache
      → find k cache ≡ some r
      → P k r
  unfolding find
  find-Each k r [] h e = cc
  find-Each k r ((j, q) ∷ cache) h e = elim (Bool-cases (equivalent j k)) [
    | inl f ↦
        let same : some q ≡ some r = rw f at e in
        subst (λ x. P x r) (equivalent_eq j k f) (subst (P j) (cc same) h.0)
    | inr f ↦ find-Each k r cache h.1 (rw f at e)
  ]

  erase-Each :
      (k : FileContents) (cache : List (FileContents × R)) → Each cache → Each (erase k cache)
  unfolding erase
  erase-Each k [] h = tt
  erase-Each k ((j, q) ∷ cache) h = elim (Bool-cases (equivalent j k)) [
    | inl f ↦ rw f h.1
    | inr f ↦ rw f (h.0, erase-Each k cache h.1)
  ]

  evict-Each :
      (queue : List FileContents) (cache : List (FileContents × R))
      → Each cache
      → Each (evict cache queue).cache
  unfolding evict
  evict-Each [] cache h = h
  evict-Each (front ∷ queue) cache h = elim (Bool-cases (leb max_size (length (front ∷ queue)))) [
    | inl f ↦ rw f (evict-Each queue (erase front cache) (erase-Each front cache h))
    | inr f ↦ rw f h
  ]

  emplace-Each :
      (c : SearchCache R) (k : FileContents) (r : R)
      → Each c.cache
      → P k r
      → Each (emplace c k r).cache
  unfolding emplace
  emplace-Each c k r h p = elim (Option-cases (find k c.cache)) [
    | inl e ↦ rw (e, emplace) (All-append (λ e. P e.0 e.1) c.cache ((k, r) ∷ []) h (p, tt))
    | inr (q, e) ↦ rw (e, emplace) h
  ]

  pub insert-Each :
      (c : SearchCache R) (k : FileContents) (r : R)
      → Each c.cache
      → P k r
      → Each (insert c k r).cache
  unfolding insert
  insert-Each c k r h p = emplace-Each (evict c.cache c.queue) k r (evict-Each c.queue c.cache h) p

-- Code that leaves the cache alone.
module _ {D : Type 0} where
  abbrev pub Keeps : Act D → Type 0
  Keeps act = (s : Impl D) → (act s).0.cache ≡ s.cache

  pub exec-Keeps : (f : D → Option D) → Keeps (exec f)
  unfolding exec
  exec-Keeps f s = elim (Option-cases (f s.db)) [
    | inl e ↦ rw (e, exec) refl
    | inr (d, e) ↦ rw (e, exec) refl
  ]

  pub assign-Keeps :
      (f : Impl D → Impl D) → ((s : Impl D) → (f s).cache ≡ s.cache) → Keeps (assign f)
  unfolding assign
  assign-Keeps f h = h

  pub and_then-Keeps : (a b : Act D) → Keeps a → Keeps b → Keeps (and_then a b)
  unfolding and_then
  and_then-Keeps a b ha hb s = elim (Bool-cases (a s).1) [
    | inl e ↦ rw (e, and_then) (hb (a s).0 ∙ ha s)
    | inr e ↦ rw (e, and_then) (ha s)
  ]

  pub transaction-Keeps : (sql : Sql D) (body : Act D) → Keeps body → Keeps (transaction sql body)
  unfolding transaction
  transaction-Keeps sql body h s =
      let all = and_then (exec sql.start_transaction) (and_then body (exec sql.commit)) in
      let kept =
        and_then-Keeps (exec sql.start_transaction) (and_then body (exec sql.commit))
          (exec-Keeps sql.start_transaction)
          (and_then-Keeps body (exec sql.commit) h (exec-Keeps sql.commit)) s in
      elim (Bool-cases (all s).1) [
        | inl e ↦ rw (e, transaction) kept
        | inr e ↦ rw (e, transaction) kept
      ]
