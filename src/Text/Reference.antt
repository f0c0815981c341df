-- ===== src/Text/Reference.antt =====
-- The interface of `Boost` met by plain functions: its laws can hold together, and the tests run.
use vca.Prelude.{
  ℕ, zero, suc, ◌≡◌, ◌≢◌, refl, ap, ◌∙◌, Bool, true, false, ◌&&◌, List, [], ◌∷◌, ◌++◌, ◌-◌, ◌+◌,
  some, All, last?, starts_with, length, leb, if◌then◌else◌, arith, Bool-cases, inl, inr, ==_iff,
}
use vca.Text.Boost.{Boost}
use vca.Text.Split.{is_empty}

onto_head : ℕ → List (List ℕ) → List (List ℕ)
onto_head c [] = (c ∷ []) ∷ []
onto_head c (t ∷ ts) = (c ∷ t) ∷ ts

unfoldable pub split_by : (ℕ → Bool) → List ℕ → List (List ℕ)
unfolding onto_head
split_by p [] = [] ∷ []
split_by p (c ∷ s) = let rest = split_by p s in if p c then [] ∷ rest else onto_head c rest

unfoldable pub drop_while : (ℕ → Bool) → List ℕ → List ℕ
drop_while p [] = []
drop_while p (c ∷ s) = let rest = drop_while p s in if p c then rest else c ∷ s

unfoldable pub trim_right : (ℕ → Bool) → List ℕ → List ℕ
trim_right p [] = []
trim_right p (c ∷ s) = let rest = trim_right p s in if is_empty rest && p c then [] else c ∷ rest

-- The first argument counts the characters of a replaced piece that are still to be skipped.
unfoldable pub replace_from : ℕ → List ℕ → List ℕ → List ℕ → List ℕ
replace_from skip [] from to = []
replace_from (suc k) (c ∷ s) from to = replace_from k s from to
replace_from zero (c ∷ s) from to =
    let hit = replace_from (length from - 1) s from to in
    let miss = replace_from 0 s from to in if starts_with from (c ∷ s) then to ++ hit else c ∷ miss

is_digit : ℕ → Bool
is_digit c = leb b'0' c && leb c b'9'

-- Only whole numbers are read.
unfoldable pub digits : List ℕ → Bool × List ℕ
unfolding drop_while is_digit
digits s = let rest = drop_while is_digit s in (leb (length rest + 1) (length s), rest)

pub split_by-nil : (p : ℕ → Bool) → split_by p [] ≡ [] ∷ []
unfolding split_by
split_by-nil p = refl

pub split_by-delimiter :
    (p : ℕ → Bool) (c : ℕ) (s : List ℕ) → p c ≡ true → split_by p (c ∷ s) ≡ [] ∷ split_by p s
unfolding split_by
split_by-delimiter p c s e = rw e

pub split_by-other :
    (p : ℕ → Bool) (c : ℕ) (s t : List ℕ) (ts : List (List ℕ))
    → p c ≡ false
    → split_by p s ≡ t ∷ ts
    → split_by p (c ∷ s) ≡ (c ∷ t) ∷ ts
unfolding split_by
split_by-other p c s t ts e h = rw (e, h)

drop_while-parts :
    (p : ℕ → Bool) (s : List ℕ) → (l : List ℕ) × All (λ c. p c ≡ true) l × (s ≡ l ++ drop_while p s)
unfolding drop_while
drop_while-parts p [] = ([], tt, refl)
drop_while-parts p (c ∷ s) = elim (Bool-cases (p c)) [
  | inl e ↦ let (l, h, q) = drop_while-parts p s in (c ∷ l, (e, h), rw e (ap (c ∷◌) q))
  | inr e ↦ ([], tt, rw e)
]

trim_right-parts :
    (p : ℕ → Bool) (s : List ℕ) → (r : List ℕ) × All (λ c. p c ≡ true) r × (s ≡ trim_right p s ++ r)
unfolding trim_right
trim_right-parts p [] = ([], tt, refl)
trim_right-parts p (c ∷ s) =
    let (r, h, q) = trim_right-parts p s in
    elim (Bool-cases (is_empty (trim_right p s) && p c)) [
      | inl e ↦ (c ∷ r, (ground arith, h), rw e (ground arith))
      | inr e ↦ (r, h, rw e (ap (c ∷◌) q))
    ]

pub trim_parts :
    (p : ℕ → Bool) (s : List ℕ)
    → (l r : List ℕ) × All (λ c. p c ≡ true) l
      × All (λ c. p c ≡ true) r
      × (s ≡ l ++ (trim_right p (drop_while p s) ++ r))
trim_parts p s =
    let (l, hl, ql) = drop_while-parts p s in
    let (r, hr, qr) = trim_right-parts p (drop_while p s) in (l, r, hl, hr, ql ∙ ap (◌++◌ l) qr)

pub drop_while-head : (p : ℕ → Bool) (s t : List ℕ) (c : ℕ) → drop_while p s ≡ c ∷ t → p c ≡ false
unfolding drop_while
drop_while-head p [] t c h = cc
drop_while-head p (a ∷ s) t c h = ground (arith, drop_while-head p s t c)

pub trim_right-head :
    (p : ℕ → Bool) (s t : List ℕ) (c : ℕ) → trim_right p s ≡ c ∷ t → (t' : List ℕ) × (s ≡ c ∷ t')
unfolding trim_right
trim_right-head p [] t c h = cc
trim_right-head p (a ∷ s) t c h = (s, ground arith)

pub trim_right-last :
    (p : ℕ → Bool) (s : List ℕ) (c : ℕ) → last? (trim_right p s) ≡ some c → p c ≡ false
unfolding trim_right
trim_right-last p [] c h = cc
trim_right-last p (a ∷ s) c h = ground (arith, trim_right-last p s c)

starts_with_self : (xs ys : List ℕ) → starts_with xs (xs ++ ys) ≡ true
starts_with_self [] ys = refl
starts_with_self (x ∷ xs) ys = rw ((==_iff x x).1 refl) (starts_with_self xs ys)

pub replace_from-nil : (from to : List ℕ) → replace_from 0 [] from to ≡ []
unfolding replace_from
replace_from-nil from to = refl

replace_from-skip :
    (xs ys from to : List ℕ)
    → replace_from (length xs) (xs ++ ys) from to ≡ replace_from 0 ys from to
unfolding replace_from
replace_from-skip [] ys from to = refl
replace_from-skip (x ∷ xs) ys from to = replace_from-skip xs ys from to

pub replace_from-hit :
    (from to rest : List ℕ)
    → from ≢ []
    → replace_from 0 (from ++ rest) from to ≡ to ++ replace_from 0 rest from to
unfolding replace_from
replace_from-hit [] to rest h = absurd (h refl)
replace_from-hit (f ∷ from) to rest h = rw (starts_with_self (f ∷ from) rest) (
    ap (◌++◌ to) (
      let e : suc (length from) - 1 ≡ length from = omega arith in
      rw e (replace_from-skip from rest (f ∷ from) to)))

pub replace_from-miss :
    (c : ℕ) (s from to : List ℕ)
    → starts_with from (c ∷ s) ≡ false
    → replace_from 0 (c ∷ s) from to ≡ c ∷ replace_from 0 s from to
unfolding replace_from
replace_from-miss c s from to h = rw h

abbrev pub reference : Boost
reference = record {
  split = split_by;
  split_nil = split_by-nil;
  split_delimiter = split_by-delimiter;
  split_other = split_by-other;
  trim_if = λ p s. trim_right p (drop_while p s);
  trim_if_parts = trim_parts;
  trim_if_head = λ p s t c h.
      let (t', e) = trim_right-head p (drop_while p s) t c h in drop_while-head p s t' c e;
  trim_if_last = λ p s. trim_right-last p (drop_while p s);
  replace_all = replace_from 0;
  replace_all_nil = replace_from-nil;
  replace_all_hit = replace_from-hit;
  replace_all_miss = replace_from-miss;
  parse_double = digits;
}
