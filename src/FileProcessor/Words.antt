-- ===== src/FileProcessor/Words.antt =====
-- Which words `FileProcessor::process` of daemon/src/file_processor.cpp gives.
use vca.Prelude.{
  ℕ, ◌≡◌, refl, ap, sym, ◌∙◌, List, [], ◌∷◌, ◌++◌, some, Option-cases, inl, inr, ◌⊎◌, ◌↔◌, subst,
  In, here, there, insert_all, In-of-insert_all, In-insert_all_left, In-insert_all_right,
  not-In-nil,
}
use vca.Text.Boost.{Boost}
use vca.Utf8.Codec.{narrow_to_wide, wide_to_narrow}
use vca.CaseMappings.Convert.{to_lower_case}
use vca.Paths.Path.{FilePath}
use vca.UserDb.Contents.{str_lt}
use vca.UserDb.Order.{str_lt_antisym}
use vca.UserDb.Results.{extension}
use vca.FileProcessor.Process.{
  FileProcessor, stem, narrow_all, extracted, stem_tokens, tokenize_filename, process,
}

In-append : (q : List ℕ) (xs ys : List (List ℕ)) → In q (xs ++ ys) → In q xs ⊎ In q ys
In-append q [] ys m = inr m
In-append q (x ∷ xs) ys (here e) = inl (here e)
In-append q (x ∷ xs) ys (there m) = elim (In-append q xs ys m) [
  | inl n ↦ inl (there n)
  | inr n ↦ inr n
]

In-append_left : (q : List ℕ) (xs ys : List (List ℕ)) → In q xs → In q (xs ++ ys)
In-append_left q [] ys m = elim m [ ]
In-append_left q (x ∷ xs) ys (here e) = here e
In-append_left q (x ∷ xs) ys (there m) = there (In-append_left q xs ys m)

In-append_right : (q : List ℕ) (xs ys : List (List ℕ)) → In q ys → In q (xs ++ ys)
In-append_right q [] ys m = m
In-append_right q (x ∷ xs) ys m = there (In-append_right q xs ys m)

narrow_all-found :
    (words result : List (List ℕ)) (w : List ℕ)
    → narrow_all words ≡ some result
    → In w result
    → (wide : List ℕ) × In wide words × (wide_to_narrow wide ≡ some w)
unfolding narrow_all
narrow_all-found [] result w h m = absurd (not-In-nil w (subst (In w) (sym (cc h)) m))
narrow_all-found (x ∷ words) result w h m = elim (Option-cases (wide_to_narrow x)) [
  | inl e ↦ cc (rw (e, narrow_all) at h)
  | inr (n, e) ↦ elim (Option-cases (narrow_all words)) [
    | inl f ↦ cc (rw (e, f, narrow_all) at h)
    | inr (ns, f) ↦
        let same : some (n ∷ ns) ≡ some result = rw (e, f, narrow_all) at h in
        first n ns e (narrow_all-found words ns w f) (subst (In w) (sym (cc same)) m)
  ]
]
  where
    first :
        (n : List ℕ) (ns : List (List ℕ))
        → wide_to_narrow x ≡ some n
        → (In w ns → (wide : List ℕ) × In wide words × (wide_to_narrow wide ≡ some w))
        → In w (n ∷ ns)
        → (wide : List ℕ) × In wide (x ∷ words) × (wide_to_narrow wide ≡ some w)
    first n ns e ih (here q) = (x, here refl, e ∙ ap some (sym q))
    first n ns e ih (there k) = let (v, i, q) = ih k in (v, there i, q)

narrow_all-In :
    (words result : List (List ℕ)) (wide w : List ℕ)
    → narrow_all words ≡ some result
    → In wide words
    → wide_to_narrow wide ≡ some w
    → In w result
unfolding narrow_all
narrow_all-In [] result wide w h m q = elim m [ ]
narrow_all-In (x ∷ words) result wide w h m q = elim (Option-cases (wide_to_narrow x)) [
  | inl e ↦ cc (rw (e, narrow_all) at h)
  | inr (n, e) ↦ elim (Option-cases (narrow_all words)) [
    | inl f ↦ cc (rw (e, f, narrow_all) at h)
    | inr (ns, f) ↦
        let same : some (n ∷ ns) ≡ some result = rw (e, f, narrow_all) at h in
        subst (In w) (cc same) (later n ns e (λ k. narrow_all-In words ns wide w f k q) m)
  ]
]
  where
    later :
        (n : List ℕ) (ns : List (List ℕ))
        → wide_to_narrow x ≡ some n
        → (In wide words → In w ns)
        → In wide (x ∷ words)
        → In w (n ∷ ns)
    later n ns e ih (here k) = here (cc (q, ap wide_to_narrow k, e))
    later n ns e ih (there k) = there (ih k)

module _ (b : Boost) where
  -- A token of the stem, the extension in small letters or a token that the tokenizer finds.
  pub data IsWordOf (s ext : List ℕ) (tokens : List (List ℕ)) (w : List ℕ) : Type 0 where
    of_stem : In w (stem_tokens b s) → IsWordOf s ext tokens w
    of_extension : w ≡ ext → IsWordOf s ext tokens w
    of_text : In w tokens → IsWordOf s ext tokens w

  all_words-IsWordOf :
      (s ext : List ℕ) (tokens : List (List ℕ)) (w : List ℕ)
      → In w (insert_all str_lt tokens (tokenize_filename b s ext))
      → IsWordOf s ext tokens w
  unfolding tokenize_filename
  all_words-IsWordOf s ext tokens w m =
      elim (In-of-insert_all str_lt tokens w (insert_all str_lt (stem_tokens b s ++ ext ∷ []) [])
        m) [
          | inl n ↦ of_text n
          | inr n ↦ elim (In-of-insert_all str_lt (stem_tokens b s ++ ext ∷ []) w [] n) [
            | inr k ↦ absurd (not-In-nil w k)
            | inl k ↦ elim (In-append w (stem_tokens b s) (ext ∷ []) k) [
              | inl i ↦ of_stem i
              | inr i ↦ of_extension (only i)
            ]
          ]
        ]
    where
      only : In w (ext ∷ []) → w ≡ ext
      only (here e) = e
      only (there k) = absurd (not-In-nil w k)

  IsWordOf-all_words :
      (s ext : List ℕ) (tokens : List (List ℕ)) (w : List ℕ)
      → IsWordOf s ext tokens w
      → In w (insert_all str_lt tokens (tokenize_filename b s ext))
  unfolding tokenize_filename
  IsWordOf-all_words s ext tokens w (of_text m) =
      In-insert_all_left str_lt str_lt_antisym tokens w _ m
  IsWordOf-all_words s ext tokens w (of_stem m) = In-insert_all_right str_lt tokens w _ (
      In-insert_all_left str_lt str_lt_antisym (stem_tokens b s ++ ext ∷ []) w []
        (In-append_left w (stem_tokens b s) (ext ∷ []) m))
  IsWordOf-all_words s ext tokens w (of_extension e) = In-insert_all_right str_lt tokens w _ (
      In-insert_all_left str_lt str_lt_antisym (stem_tokens b s ++ ext ∷ []) w []
        (In-append_right w (stem_tokens b s) (ext ∷ []) (here e)))

  process-words :
      (p : FileProcessor) (file : FilePath) (s e : List ℕ) (tokens result : List (List ℕ))
      → narrow_to_wide (stem file) ≡ some s
      → narrow_to_wide (extension file) ≡ some e
      → extracted p (to_lower_case e) file ≡ some tokens
      → process b p file ≡ some result
      → narrow_all (insert_all str_lt tokens (tokenize_filename b s (to_lower_case e)))
        ≡ some result
  unfolding process
  process-words p file s e tokens result hs he ht h = rw (hs, he, ht, process) at h

  -- Where `process` ends without an exception, its words are the UTF-8 forms of the tokens of the
  -- stem, of the extension in small letters and of the tokens that the tokenizer finds, all of
  -- them and no other.
  pub process_iff :
      (p : FileProcessor) (file : FilePath) (s e : List ℕ) (tokens result : List (List ℕ))
      (w : List ℕ)
      → narrow_to_wide (stem file) ≡ some s
      → narrow_to_wide (extension file) ≡ some e
      → extracted p (to_lower_case e) file ≡ some tokens
      → process b p file ≡ some result
      → In w result ↔ (
          (wide : List ℕ) × IsWordOf s (to_lower_case e) tokens wide
          × (wide_to_narrow wide ≡ some w))
  process_iff p file s e tokens result w hs he ht h =
      let words = process-words p file s e tokens result hs he ht h in
      (
        λ m.
            let (wide, i, q) = narrow_all-found _ result w words m in
            (wide, all_words-IsWordOf s (to_lower_case e) tokens wide i, q),
        λ (wide, i, q).
            narrow_all-In _ result wide w words
              (IsWordOf-all_words s (to_lower_case e) tokens wide i) q,
      )
