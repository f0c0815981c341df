-- ===== src/UserDb/Contents.antt =====
-- `FileContents` of core/vca/userdb.h and its order.
use vca.Prelude.{ℕ, Bool, true, false, List, [], ◌∷◌, ltb, if◌then◌else◌, length}

pub record FileContents : Type 0 where
  pub words : List (List ℕ)

-- `operator<` of `std::string`: bytes are compared one by one.
unfoldable pub str_lt : List ℕ → List ℕ → Bool
str_lt [] [] = false
str_lt [] (y ∷ ys) = true
str_lt (x ∷ xs) [] = false
str_lt (x ∷ xs) (y ∷ ys) =
    let rest = str_lt xs ys in if ltb x y then true else if ltb y x then false else rest

-- The loop over the words, of which both sides have as many.
unfoldable pub some_less : List (List ℕ) → List (List ℕ) → Bool
some_less [] others = false
some_less (w ∷ words) [] = false
some_less (w ∷ words) (o ∷ others) = if str_lt w o then true else some_less words others

-- `operator<`
unfoldable pub contents_lt : FileContents → FileContents → Bool
contents_lt a o =
    if ltb (length a.words) (length o.words)
    then true
    else if ltb (length o.words) (length a.words)
    then false
    else some_less a.words o.words
