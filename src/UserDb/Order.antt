-- ===== src/UserDb/Order.antt =====
-- What `operator<` of `FileContents` in core/vca/userdb.h is, and what it is not.
use vca.Prelude.{ℕ, ◌≡◌, refl, true, false, List, [], ◌∷◌, ◌↔◌, length, arith}
use vca.UserDb.Contents.{FileContents, str_lt, some_less, contents_lt}

str_lt_irrefl : (x : List ℕ) → str_lt x x ≡ false
unfolding str_lt
str_lt_irrefl [] = refl
str_lt_irrefl (c ∷ x) = ground (arith, str_lt_irrefl x)

pub str_lt_antisym : (x y : List ℕ) → str_lt x y ≡ false → str_lt y x ≡ false → x ≡ y
unfolding str_lt
str_lt_antisym [] [] h k = refl
str_lt_antisym [] (d ∷ y) h k = cc
str_lt_antisym (c ∷ x) [] h k = cc
str_lt_antisym (c ∷ x) (d ∷ y) h k = ground (arith, str_lt_antisym x y)

some_less_irrefl : (xs : List (List ℕ)) → some_less xs xs ≡ false
unfolding some_less
some_less_irrefl [] = refl
some_less_irrefl (x ∷ xs) = rw (str_lt_irrefl x) (some_less_irrefl xs)

some_less_antisym :
    (xs ys : List (List ℕ))
    → length xs ≡ length ys
    → some_less xs ys ≡ false
    → some_less ys xs ≡ false
    → xs ≡ ys
unfolding some_less
some_less_antisym [] [] e h k = refl
some_less_antisym [] (y ∷ ys) e h k = absurd (omega arith)
some_less_antisym (x ∷ xs) [] e h k = absurd (omega arith)
some_less_antisym (x ∷ xs) (y ∷ ys) e h k =
    ground (arith, str_lt_antisym x y, some_less_antisym xs ys (omega arith))

-- Two contents of which neither is less are the same, and only they: a key that is found in a map
-- by this order is the key that was asked for.
pub contents_lt-neither_iff :
    (a o : FileContents) → ((contents_lt a o ≡ false) × (contents_lt o a ≡ false)) ↔ (a ≡ o)
unfolding contents_lt
contents_lt-neither_iff a o = (to, from)
  where
    to : (contents_lt a o ≡ false) × (contents_lt o a ≡ false) → a ≡ o
    to h = ground (arith, some_less_antisym a.words o.words)

    from : a ≡ o → (contents_lt a o ≡ false) × (contents_lt o a ≡ false)
    from e =
        rw e (ground (arith, some_less_irrefl o.words), ground (arith, some_less_irrefl o.words))

-- It is no order: two words of which one is less than the other, in both sequences, make contents
-- each of which is less than the other.
pub contents_lt_both :
    (x y : List ℕ)
    → str_lt x y ≡ true
    → (contents_lt (record { words = x ∷ y ∷ [] }) (record { words = y ∷ x ∷ [] }) ≡ true)
      × (contents_lt (record { words = y ∷ x ∷ [] }) (record { words = x ∷ y ∷ [] }) ≡ true)
unfolding contents_lt some_less
contents_lt_both x y h = (ground arith, ground arith)
