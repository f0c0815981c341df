-- ===== src/Tests/Cache.antt =====
-- Tests of the search cache.
use vca.Prelude.{
  ap, true, false, In, here, there, ℕ, zero, suc, ◌≡◌, refl, List, [], ◌∷◌, ◌++◌, none, some,
  length, drop, arith, ◌-◌,
}
use vca.UserDb.Contents.{FileContents, str_lt, some_less, contents_lt}
use vca.UserDb.MapTree.{
  Tree, leaf, node, InTree, at_root, on_left, on_right, IsSearchTree, sorted_leaf, sorted_node,
  IsMapOf, IsOneWay, tree_find, lower_bound,
}
use vca.UserDb.Cache.{get, insert}
use vca.UserDb.Eviction.{in_order, IsValid, insert_new, insert-IsValid}

abbrev asked : FileContents
asked = record { words = (b'r' ∷ []) ∷ [] }

abbrev entry : ℕ → FileContents × ℕ
entry n = (record { words = (n ∷ []) ∷ [] }, n)

abbrev entries : ℕ → List (FileContents × ℕ)
entries zero = []
entries (suc n) = entry n ∷ entries n

-- The trees of the map before and after.
abbrev low : Tree ℕ
low = node leaf (entry 0) leaf

abbrev before : Tree ℕ
before = node low (entry 1) leaf

abbrev after : Tree ℕ
after = node low (entry 1) (node leaf (asked, 7) leaf)

low_is : (x : FileContents × ℕ) → InTree x low → x ≡ entry 0
low_is x (at_root _ _ _ q) = q
low_is x (on_left _ _ _ m) = elim m [ ]
low_is x (on_right _ _ _ m) = elim m [ ]

new_is : (x : FileContents × ℕ) → InTree x (node leaf (asked, 7) leaf) → x ≡ (asked, 7)
new_is x (at_root _ _ _ q) = q
new_is x (on_left _ _ _ m) = elim m [ ]
new_is x (on_right _ _ _ m) = elim m [ ]

single-sorted : (e : FileContents × ℕ) → IsSearchTree (node leaf e leaf)
single-sorted e =
    sorted_node leaf e leaf sorted_leaf sorted_leaf (λ x m. elim m [ ]) (λ x m. elim m [ ])

low_below : (x : FileContents × ℕ) → InTree x low → contents_lt x.0 (entry 1).0 ≡ true
unfolding contents_lt some_less str_lt
low_below x m = ap (λ y. contents_lt y.0 (entry 1).0) (low_is x m)

new_above :
    (x : FileContents × ℕ)
    → InTree x (node leaf (asked, 7) leaf)
    → contents_lt (entry 1).0 x.0 ≡ true
unfolding contents_lt some_less str_lt
new_above x m = ap (λ y. contents_lt (entry 1).0 y.0) (new_is x m)

before-IsMapOf : IsMapOf before (entries 2)
before-IsMapOf = record {
  sorted =
      sorted_node low (entry 1) leaf (single-sorted (entry 0)) sorted_leaf low_below
        (λ x m. elim m [ ]);
  same = λ x. (to x, from x);
}
  where
    to : (x : FileContents × ℕ) → InTree x before → In x (entries 2)
    to x (at_root _ _ _ q) = here q
    to x (on_left _ _ _ m) = there (here (low_is x m))
    to x (on_right _ _ _ m) = elim m [ ]

    from : (x : FileContents × ℕ) → In x (entries 2) → InTree x before
    from x (here q) = at_root _ _ _ q
    from x (there (here q)) = on_left _ _ _ (at_root _ _ _ q)
    from x (there (there m)) = elim m [ ]

after-IsMapOf : IsMapOf after (drop (length (entries 2) - 31) (entries 2) ++ (asked, 7) ∷ [])
after-IsMapOf = record {
  sorted =
      sorted_node low (entry 1) (node leaf (asked, 7) leaf) (single-sorted (entry 0))
        (single-sorted (asked, 7)) low_below new_above;
  same = λ x. (to x, from x);
}
  where
    to : (x : FileContents × ℕ) → InTree x after → In x (entries 2 ++ (asked, 7) ∷ [])
    to x (at_root _ _ _ q) = here q
    to x (on_left _ _ _ m) = there (here (low_is x m))
    to x (on_right _ _ _ m) = there (there (here (new_is x m)))

    from : (x : FileContents × ℕ) → In x (entries 2 ++ (asked, 7) ∷ []) → InTree x after
    from x (here q) = at_root _ _ _ q
    from x (there (here q)) = on_left _ _ _ (at_root _ _ _ q)
    from x (there (there (here q))) = on_right _ _ _ (at_root _ _ _ q)
    from x (there (there (there m))) = elim m [ ]

not_less : (x : FileContents × ℕ) → In x (entries 2) → contents_lt asked x.0 ≡ false
unfolding contents_lt some_less str_lt
not_less x (here q) = ap (λ y. contents_lt asked y.0) q
not_less x (there (here q)) = ap (λ y. contents_lt asked y.0) q
not_less x (there (there m)) = elim m [ ]

asked-IsOneWay : IsOneWay asked (entries 2)
asked-IsOneWay x m less = cc (less, not_less x m)

missing : tree_find asked before ≡ none
unfolding tree_find lower_bound contents_lt some_less str_lt
missing = refl

full-IsValid : IsValid (in_order (entries 32))
full-IsValid = record { queued = refl; bounded = omega arith }

insert_new_example :
    (insert (in_order (entries 2)) asked 7
      ≡ in_order (drop (length (entries 2) - 31) (entries 2) ++ (asked, 7) ∷ []))
    × (get (insert (in_order (entries 2)) asked 7) asked ≡ some 7)
    × (tree_find asked after ≡ some 7)
insert_new_example =
    insert_new (entries 2) asked 7 before after asked-IsOneWay before-IsMapOf after-IsMapOf missing

insert-IsValid_example : IsValid (insert (in_order (entries 32)) asked 7)
insert-IsValid_example = insert-IsValid (in_order (entries 32)) asked 7 full-IsValid

-- Contents that `operator<` orders both ways: those that came second stand on the left of the first
-- in the tree of the map, and are not found.
abbrev one_two : FileContents
one_two = record { words = (1 ∷ []) ∷ (2 ∷ []) ∷ [] }

abbrev two_one : FileContents
two_one = record { words = (2 ∷ []) ∷ (1 ∷ []) ∷ [] }

both_ways_missed :
    tree_find {R = ℕ} two_one (node (node leaf (two_one, 8) leaf) (one_two, 7) leaf) ≡ none
unfolding tree_find lower_bound contents_lt some_less str_lt
both_ways_missed = refl
