-- ===== src/Xml/Content.antt =====
-- `xml_tag_content` of core/vca/string.cpp.
use vca.Prelude.{
  ℕ, zero, suc, ◌+◌, ◌*◌, Bool, true, false, not, ◌&&◌, List, [], ◌∷◌, ◌++◌, Option, none, some,
  ltb, if◌then◌else◌, ◌==◌, length, init, last?,
}
use vca.Text.Boost.{Boost}
use vca.Text.Chars.{space_char}
use vca.Text.Split.{trim, is_empty}
use vca.Xml.Unescape.{xml_unescape}
use vca.Xml.Parser.{XmlParser, end, next}

-- `line.back() == U'-'`
unfoldable pub ends_with_dash : List ℕ → Bool
ends_with_dash line = elim (last? line) [ none ↦ false | some c ↦ c == b'-' ]

-- A line that ends with a dash goes on with the next one; any other has a space behind it.
unfoldable pub add_line : List ℕ → List ℕ → List ℕ
unfolding ends_with_dash
add_line one_line line =
    if ends_with_dash line then one_line ++ init line else one_line ++ (line ++ space_char ∷ [])

module _ (b : Boost) where
  -- The loop, with fuel; `none` means that the fuel ran out.
  unfoldable pub collect : ℕ → XmlParser → ℕ → List ℕ → ℕ → Option (List ℕ)
  collect zero parser max_byte_count one_line byte_count = none
  collect (suc fuel) parser max_byte_count one_line byte_count =
      elim (not (end parser) && ltb byte_count max_byte_count) [
        | false ↦ some one_line
        | true ↦
            let (parser', text) = next b parser in
            let line = trim b text in
            elim (is_empty line) [
              | true ↦ collect fuel parser' max_byte_count one_line byte_count
              | false ↦
                  collect fuel parser' max_byte_count (add_line one_line line)
                    (byte_count + length line * 4)
            ]
      ]

  -- Each round moves the parser on, so as many rounds as there are bytes are enough.
  unfoldable pub xml_tag_content : List ℕ → ℕ → Option (List ℕ)
  xml_tag_content content max_byte_count =
      elim (collect (suc (length content)) (record { content = content; index = 0 }) max_byte_count
        [] 0) [ none ↦ none | some one_line ↦ some (xml_unescape b one_line) ]
