-- ===== src/Tokenizers/Lines.antt =====
-- What daemon/src/txt_tokenizer.cpp finds in a file of words, one to a line or broken over several.
use vca.Prelude.{
  ℕ, ◌≡◌, refl, ap, ◌∙◌, sym, true, false, List, [], ◌∷◌, ◌++◌, All, append_assoc, append-nil, map,
  flatten, init,
}
use vca.Text.Chars.{line_feed_char, space_char}
use vca.Text.RoundTrip.{unwords}
use vca.Xml.Content.{add_line, ends_with_dash}
use vca.Tokenizers.Txt.{join_lines}

-- A word that is broken over lines: the parts that a dash ends, and the last one.
pub record Broken : Type 0 where
  pub parts : List (List ℕ)
  pub rest : List ℕ

abbrev pub word : Broken → List ℕ
word w = flatten w.parts ++ w.rest

abbrev pub dashed : List ℕ → List ℕ
dashed part = part ++ b'-' ∷ []

abbrev pub lines_of : Broken → List (List ℕ)
lines_of w = map dashed w.parts ++ w.rest ∷ []

-- The lines of a file, each with a line feed behind it.
unfoldable pub unlines : List (List ℕ) → List ℕ
unlines [] = []
unlines (l ∷ ls) = l ++ line_feed_char ∷ unlines ls

unfoldable pub file_lines : List Broken → List (List ℕ)
file_lines [] = []
file_lines (w ∷ ws) = lines_of w ++ file_lines ws

ends_with_dash-dashed : (part : List ℕ) → ends_with_dash (dashed part) ≡ true
unfolding ends_with_dash
ends_with_dash-dashed [] = refl
ends_with_dash-dashed (c ∷ []) = refl
ends_with_dash-dashed (c ∷ d ∷ part) = ends_with_dash-dashed (d ∷ part)

init-dashed : (part : List ℕ) → init (dashed part) ≡ part
init-dashed [] = refl
init-dashed (c ∷ []) = refl
init-dashed (c ∷ d ∷ part) = ap (c ∷◌) (init-dashed (d ∷ part))

-- The joined text of the lines.
join_lines-append :
    (one_line : List ℕ) (xs ys : List (List ℕ))
    → join_lines one_line (xs ++ ys) ≡ join_lines (join_lines one_line xs) ys
unfolding join_lines
join_lines-append one_line [] ys = refl
join_lines-append one_line (x ∷ xs) ys = join_lines-append (add_line one_line x) xs ys

add_line-dashed : (one_line part : List ℕ) → add_line one_line (dashed part) ≡ one_line ++ part
unfolding add_line
add_line-dashed one_line part = rw (ends_with_dash-dashed part, init-dashed part) refl

add_line-rest :
    (one_line line : List ℕ)
    → ends_with_dash line ≡ false
    → add_line one_line line ≡ one_line ++ (line ++ space_char ∷ [])
unfolding add_line
add_line-rest one_line line e = rw e refl

join_parts :
    (parts : List (List ℕ)) (one_line : List ℕ)
    → join_lines one_line (map dashed parts) ≡ one_line ++ flatten parts
unfolding join_lines flatten
join_parts [] one_line = sym (append-nil one_line)
join_parts (p ∷ parts) one_line =
    ap (λ l. join_lines l (map dashed parts)) (add_line-dashed one_line p)
    ∙ join_parts parts (one_line ++ p)
    ∙ append_assoc one_line p (flatten parts)

join_word :
    (w : Broken) (one_line : List ℕ)
    → ends_with_dash w.rest ≡ false
    → join_lines one_line (lines_of w) ≡ one_line ++ (word w ++ space_char ∷ [])
unfolding join_lines
join_word w one_line e =
    join_lines-append one_line (map dashed w.parts) (w.rest ∷ [])
    ∙ ap (λ l. join_lines l (w.rest ∷ [])) (join_parts w.parts one_line)
    ∙ add_line-rest (one_line ++ flatten w.parts) w.rest e
    ∙ simp append_assoc

pub join_file :
    (ws : List Broken) (one_line : List ℕ)
    → All (λ w. ends_with_dash w.rest ≡ false) ws
    → join_lines one_line (file_lines ws) ≡ one_line ++ unwords (map word ws)
unfolding file_lines unwords join_lines
join_file [] one_line h = sym (append-nil one_line)
join_file (w ∷ ws) one_line h =
    join_lines-append one_line (lines_of w) (file_lines ws)
    ∙ ap (λ l. join_lines l (file_lines ws)) (join_word w one_line h.0)
    ∙ join_file ws (one_line ++ (word w ++ space_char ∷ [])) h.1
    ∙ simp append_assoc
