-- ===== src/UserDb/Found.antt =====
-- What a search of core/vca/sqlite_userdb.cpp finds in the tables.
use vca.Prelude.{
  ℕ, ◌≡◌, refl, ap, sym, ◌∙◌, false, List, [], ◌∷◌, some, Option-cases, inl, inr, ◌⊎◌, arith, In,
  here, there, subst, ◌↔◌, not-In-nil,
}
use vca.Prelude.{In-insert_by_self, In-insert_by, In-of-insert_by}
use vca.Paths.Path.{FilePath}
use vca.UserDb.Contents.{FileContents}
use vca.UserDb.Order.{str_lt_antisym}
use vca.UserDb.Results.{SearchResult, parts_lt, path_lt, result_lt, add_result}
use vca.UserDb.Sql.{Sql}
use vca.UserDb.Search.{result_of, add_rows, pattern_of, query_words, query}

parts_lt_antisym : (x y : List (List ℕ)) → parts_lt x y ≡ false → parts_lt y x ≡ false → x ≡ y
unfolding parts_lt
parts_lt_antisym [] [] h k = refl
parts_lt_antisym [] (d ∷ y) h k = cc
parts_lt_antisym (c ∷ x) [] h k = cc
parts_lt_antisym (c ∷ x) (d ∷ y) h k = ground (arith, parts_lt_antisym x y, str_lt_antisym c d)

pub path_lt_antisym : (l r : FilePath) → path_lt l r ≡ false → path_lt r l ≡ false → l ≡ r
unfolding path_lt
path_lt_antisym l r h k = ground (arith, parts_lt_antisym l.parts r.parts)

result_lt_antisym : (l o : SearchResult) → result_lt l o ≡ false → result_lt o l ≡ false → l ≡ o
unfolding result_lt
result_lt_antisym l o h k =
    ground (
      arith,
      path_lt_antisym l.dir o.dir,
      path_lt_antisym l.file o.file,
      str_lt_antisym l.ext o.ext,
    )

In-add_result_self : (r : SearchResult) (results : List SearchResult) → In r (add_result r results)
unfolding add_result
In-add_result_self = In-insert_by_self result_lt result_lt_antisym

In-add_result :
    (r q : SearchResult) (results : List SearchResult) → In q results → In q (add_result r results)
unfolding add_result
In-add_result = In-insert_by result_lt

In-of-add_result :
    (r q : SearchResult) (results : List SearchResult)
    → In q (add_result r results)
    → (q ≡ r) ⊎ In q results
unfolding add_result
In-of-add_result = In-of-insert_by result_lt

-- The result that some row gives.
abbrev pub IsOfRow : List (FilePath × FilePath) → SearchResult → Type 0
IsOfRow rows q = (row : FilePath × FilePath) × In row rows × (q ≡ result_of row.0 row.1)

add_rows-IsOfRow :
    (rows : List (FilePath × FilePath)) (acc : List SearchResult) (q : SearchResult)
    → In q (add_rows rows acc)
    → In q acc ⊎ IsOfRow rows q
unfolding add_rows
add_rows-IsOfRow [] acc q m = inl m
add_rows-IsOfRow ((d, p) ∷ rows) acc q m =
    elim (add_rows-IsOfRow rows (add_result (result_of d p) acc) q m) [
      | inr (row, n, e) ↦ inr (row, there n, e)
      | inl n ↦ elim (In-of-add_result (result_of d p) q acc n) [
        | inl e ↦ inr ((d, p), here refl, e)
        | inr k ↦ inl k
      ]
    ]

add_rows-kept :
    (rows : List (FilePath × FilePath)) (acc : List SearchResult) (q : SearchResult)
    → In q acc
    → In q (add_rows rows acc)
unfolding add_rows
add_rows-kept [] acc q m = m
add_rows-kept ((d, p) ∷ rows) acc q m =
    add_rows-kept rows (add_result (result_of d p) acc) q (In-add_result (result_of d p) q acc m)

add_rows-row :
    (rows : List (FilePath × FilePath)) (acc : List SearchResult) (row : FilePath × FilePath)
    → In row rows
    → In (result_of row.0 row.1) (add_rows rows acc)
unfolding add_rows
add_rows-row [] acc row m = elim m [ ]
add_rows-row ((d, p) ∷ rows) acc row (here e) =
    add_rows-kept rows (add_result (result_of d p) acc) (result_of row.0 row.1) (
      subst (λ r. In (result_of r.0 r.1) (add_result (result_of d p) acc)) (sym e)
        (In-add_result_self (result_of d p) acc))
add_rows-row ((d, p) ∷ rows) acc row (there m) =
    add_rows-row rows (add_result (result_of d p) acc) row m

module _ {D : Type 0} (sql : Sql D) where
  -- A row that the statement gives for one of the words gives the result.
  abbrev pub IsListed : D → List (List ℕ) → SearchResult → Type 0
  IsListed db words q =
      (word : List ℕ) × In word words
      × (rows : List (FilePath × FilePath)) × (sql.select_files (pattern_of word) db ≡ some rows)
      × IsOfRow rows q

  query_words-found :
      (db : D) (words : List (List ℕ)) (acc results : List SearchResult) (q : SearchResult)
      → query_words sql db words acc ≡ some results
      → In q results
      → In q acc ⊎ IsListed db words q
  unfolding query_words
  query_words-found db [] acc results q h m = inl (subst (In q) (sym (cc h)) m)
  query_words-found db (word ∷ words) acc results q h m =
      elim (Option-cases (sql.select_files (pattern_of word) db)) [
        | inl e ↦ cc (rw (e, query_words) at h)
        | inr (rows, e) ↦
            elim (query_words-found db words (add_rows rows acc) results q
              (rw (e, query_words) at h) m) [
                | inr (w, n, rs, f, r) ↦ inr (w, there n, rs, f, r)
                | inl n ↦ elim (add_rows-IsOfRow rows acc q n) [
                  | inl k ↦ inl k
                  | inr r ↦ inr (word, here refl, rows, e, r)
                ]
              ]
      ]

  query_words-kept :
      (db : D) (words : List (List ℕ)) (acc results : List SearchResult) (q : SearchResult)
      → query_words sql db words acc ≡ some results
      → In q acc
      → In q results
  unfolding query_words
  query_words-kept db [] acc results q h m = subst (In q) (cc h) m
  query_words-kept db (word ∷ words) acc results q h m =
      elim (Option-cases (sql.select_files (pattern_of word) db)) [
        | inl e ↦ cc (rw (e, query_words) at h)
        | inr (rows, e) ↦
            query_words-kept db words (add_rows rows acc) results q (rw (e, query_words) at h)
              (add_rows-kept rows acc q m)
      ]

  query_words-listed :
      (db : D) (words : List (List ℕ)) (acc results : List SearchResult) (word : List ℕ)
      (rows : List (FilePath × FilePath)) (row : FilePath × FilePath)
      → query_words sql db words acc ≡ some results
      → In word words
      → sql.select_files (pattern_of word) db ≡ some rows
      → In row rows
      → In (result_of row.0 row.1) results
  unfolding query_words
  query_words-listed db [] acc results word rows row h m e n = elim m [ ]
  query_words-listed db (w ∷ words) acc results word rows row h (here q) e n =
      let f : sql.select_files (pattern_of w) db ≡ some rows =
        ap (λ x. sql.select_files (pattern_of x) db) (sym q) ∙ e in
      query_words-kept db words (add_rows rows acc) results (result_of row.0 row.1)
        (rw (f, query_words) at h) (add_rows-row rows acc row n)
  query_words-listed db (w ∷ words) acc results word rows row h (there m) e n =
      elim (Option-cases (sql.select_files (pattern_of w) db)) [
        | inl f ↦ cc (rw (f, query_words) at h)
        | inr (others, f) ↦
            query_words-listed db words (add_rows others acc) results word rows row
              (rw (f, query_words) at h) m e n
      ]

  -- What a search without the cache gives are the results of the rows that the statement gives for
  -- one of the words, all of them and no other.
  pub query_iff :
      (db : D) (contents : FileContents) (results : List SearchResult) (q : SearchResult)
      → query sql db contents ≡ some results
      → In q results ↔ IsListed db contents.words q
  unfolding query
  query_iff db contents results q h = (to, from)
    where
      to : In q results → IsListed db contents.words q
      to m = elim (query_words-found db contents.words [] results q h m) [
        | inl n ↦ absurd (not-In-nil q n)
        | inr l ↦ l
      ]

      from : IsListed db contents.words q → In q results
      from (word, m, rows, e, (row, n, same)) =
          subst (λ x. In x results) (sym same)
            (query_words-listed db contents.words [] results word rows row h m e n)
