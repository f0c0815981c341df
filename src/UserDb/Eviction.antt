-- ===== src/UserDb/Eviction.antt =====
-- What `SearchCache` of core/vca/sqlite_userdb.cpp keeps.
use vca.Prelude.{
  ℕ, zero, suc, ◌-◌, ◌≤◌, leb→le, lt_of_leb-eq-false, ◌≡◌, refl, ap, sym, ◌∙◌, true, List, [], ◌∷◌,
  ◌++◌, none, some, leb, length, drop, map, arith, Bool-cases, inl, inr, length-append, length-drop,
  length-map, map-append, some, In, here, there, ◌⊎◌, Option-cases, subst,
}
use vca.UserDb.Contents.{FileContents, contents_lt}
use vca.UserDb.Order.{contents_lt-neither_iff}
use vca.UserDb.MapTree.{Tree, tree_find, IsMapOf, IsOneWay, irrefl, tree_find-find}
use vca.UserDb.Cache.{max_size, equivalent, find, erase, SearchCache, get, evict, emplace, insert}

equivalent_self : (a : FileContents) → equivalent a a ≡ true
unfolding equivalent
equivalent_self a = let h = (contents_lt-neither_iff a a).1 refl in rw (h.0) refl

module _ {ℓ} {R : Type ℓ} where
  abbrev pub keys : List (FileContents × R) → List FileContents
  keys = map (λ e. e.0)

  -- The queue holds the keys of the map, oldest first, and at most 32.
  pub record IsValid (c : SearchCache R) : Type 0 where
    pub queued : c.queue ≡ keys c.cache
    pub bounded : length c.queue ≤ max_size

  keys-drop : (n : ℕ) (cache : List (FileContents × R)) → drop n (keys cache) ≡ keys (drop n cache)
  keys-drop zero cache = refl
  keys-drop (suc n) [] = refl
  keys-drop (suc n) (e ∷ cache) = keys-drop n cache

  -- A cache whose queue is in order.
  abbrev pub in_order : List (FileContents × R) → SearchCache R
  in_order cache = record { cache = cache; queue = keys cache }

  -- The oldest entries go until fewer than 32 are left.
  evict-keys :
      (cache : List (FileContents × R))
      → evict cache (keys cache) ≡ in_order (drop (length cache - 31) cache)
  unfolding evict erase
  evict-keys [] = refl
  evict-keys ((k, r) ∷ cache) = elim (Bool-cases (leb max_size (suc (length (keys cache))))) [
    | inl e ↦
        let n : suc (length cache) - 31 ≡ suc (length cache - 31) = omega (
          arith,
          leb→le max_size (suc (length (keys cache))) e,
          length-map (λ (x : FileContents × R). x.0) cache,
        ) in
        rw (e, equivalent_self k, n) (evict-keys cache)
    | inr e ↦
        let n : suc (length cache) - 31 ≡ 0 = omega (
          arith,
          lt_of_leb-eq-false max_size (suc (length (keys cache))) e,
          length-map (λ (x : FileContents × R). x.0) cache,
        ) in
        rw (e, n) refl
  ]

  find-append_self :
      (k : FileContents) (r : R) (cache : List (FileContents × R))
      → find k cache ≡ none
      → find k (cache ++ (k, r) ∷ []) ≡ some r
  unfolding find
  find-append_self k r [] h = rw (equivalent_self k)
  find-append_self k r ((j, q) ∷ cache) h = elim (Bool-cases (equivalent j k)) [
    | inl e ↦ cc (rw e at h)
    | inr e ↦ rw e (find-append_self k r cache (rw e at h))
  ]

  find-drop :
      (k : FileContents) (n : ℕ) (cache : List (FileContents × R))
      → find k cache ≡ none
      → find k (drop n cache) ≡ none
  unfolding find
  find-drop k zero cache h = h
  find-drop k (suc n) [] h = h
  find-drop k (suc n) ((j, q) ∷ cache) h = elim (Bool-cases (equivalent j k)) [
    | inl e ↦ cc (rw e at h)
    | inr e ↦ find-drop k n cache (rw e at h)
  ]

  emplace-new :
      (cache : List (FileContents × R)) (k : FileContents) (r : R)
      → find k cache ≡ none
      → emplace (in_order cache) k r ≡ in_order (cache ++ (k, r) ∷ [])
  unfolding emplace
  emplace-new cache k r h =
      rw (h, emplace)
        (ap (λ q. record { cache = cache ++ (k, r) ∷ []; queue = q })
          (sym (map-append (λ (e : FileContents × R). e.0) cache ((k, r) ∷ []))))

  insert-evicted :
      (cache : List (FileContents × R)) (k : FileContents) (r : R)
      → insert (in_order cache) k r ≡ emplace (in_order (drop (length cache - 31) cache)) k r
  unfolding insert
  insert-evicted cache k r = ap (λ c. emplace c k r) (evict-keys cache)

  get-in_order :
      (cache : List (FileContents × R)) (k : FileContents) → get (in_order cache) k ≡ find k cache
  unfolding get
  get-in_order cache k = refl

  In-kept :
      (x e : FileContents × R) (n : ℕ) (cache : List (FileContents × R))
      → In x (drop n cache ++ e ∷ [])
      → In x cache ⊎ (x ≡ e)
  In-kept x e zero [] (here q) = inr q
  In-kept x e zero [] (there m) = elim m [ ]
  In-kept x e (suc n) [] (here q) = inr q
  In-kept x e (suc n) [] (there m) = elim m [ ]
  In-kept x e zero (y ∷ cache) (here q) = inl (here q)
  In-kept x e zero (y ∷ cache) (there m) = elim (In-kept x e zero cache m) [
    | inl o ↦ inl (there o)
    | inr q ↦ inr q
  ]
  In-kept x e (suc n) (y ∷ cache) m = elim (In-kept x e n cache m) [
    | inl o ↦ inl (there o)
    | inr q ↦ inr q
  ]

  -- New results for contents that are not found in the tree of the map go behind the 31 newest
  -- entries, which are all that is left of the others, and are then found in its tree. Before and
  -- after, the tree is a search tree of just the entries, and `operator<` orders no key of the cache
  -- and the new one both ways.
  pub insert_new :
      (cache : List (FileContents × R)) (k : FileContents) (r : R) (before after : Tree R)
      → IsOneWay k cache
      → IsMapOf before cache
      → IsMapOf after (drop (length cache - 31) cache ++ (k, r) ∷ [])
      → tree_find k before ≡ none
      → (insert (in_order cache) k r ≡ in_order (drop (length cache - 31) cache ++ (k, r) ∷ []))
        × (get (insert (in_order cache) k r) k ≡ some r)
        × (tree_find k after ≡ some r)
  insert_new cache k r before after one_way old new h =
      let n = length cache - 31 in
      let kept = drop n cache in
      let missing : find k kept ≡ none =
        find-drop k n cache (sym (tree_find-find k before cache old one_way) ∙ h) in
      let entries = insert-evicted cache k r ∙ emplace-new kept k r missing in
      let there_now : find k (kept ++ (k, r) ∷ []) ≡ some r = find-append_self k r kept missing in
      let one_way_now : IsOneWay k (kept ++ (k, r) ∷ []) = λ x m less.
        elim (In-kept x (k, r) n cache m) [
          | inl o ↦ one_way x o less
          | inr q ↦ ap (λ y. contents_lt y.0 k) q ∙ irrefl k
        ] in
      (
        entries,
        ap (λ c. get c k) entries ∙ get-in_order (kept ++ (k, r) ∷ []) k ∙ there_now,
        tree_find-find k after (kept ++ (k, r) ∷ []) new one_way_now ∙ there_now,
      )

  emplace-IsValid :
      (cache : List (FileContents × R)) (k : FileContents) (r : R)
      → length cache ≤ 31
      → IsValid (emplace (in_order cache) k r)
  unfolding emplace
  emplace-IsValid cache k r h = elim (Option-cases (find k cache)) [
    | inl e ↦
        rw (emplace-new cache k r e)
          (record { queued = refl; bounded = rw (length-map, length-append) (omega arith) })
    | inr (q, e) ↦ rw (e, emplace) (record { queued = refl; bounded = rw length-map (omega arith) })
  ]

  -- Whatever is put in, the queue keeps the keys of the map in the order in which they came, and
  -- there are never more than 32.
  pub insert-IsValid :
      (c : SearchCache R) (k : FileContents) (r : R) → IsValid c → IsValid (insert c k r)
  insert-IsValid c k r v =
      let same : c ≡ in_order c.cache = λ i. record { cache = c.cache; queue = v.queued i } in
      subst (λ d. IsValid (insert d k r)) (sym same)
        (rw (insert-evicted c.cache k r) (
          emplace-IsValid (drop (length c.cache - 31) c.cache) k r (
            rw length-drop (
              omega (
                arith,
                v.bounded,
                ap length v.queued,
                length-map (λ (e : FileContents × R). e.0) c.cache,
              )))))
