-- ===== src/Xml/Parser.antt =====
-- Class `XMLParser` of core/vca/string.cpp. Indices of the content are natural numbers: it is far
-- shorter than the largest `int`. Those that the source starts at -1 are kept with 1 added.
use vca.Prelude.{
  ℕ, ◌+◌, ◌-◌, Bool, ◌&&◌, List, [], ◌∷◌, Option, none, some, ltb, leb, if◌then◌else◌, ◌==◌, length,
  take, drop,
}
use vca.Text.Boost.{Boost}
use vca.Utf8.Codec.{narrow_to_wide}
use vca.Xml.Unescape.{xml_unescape}

pub record XmlParser : Type 0 where
  pub content : List ℕ
  pub index : ℕ

unfoldable pub end : XmlParser → Bool
end p = leb (length p.content) (p.index + 1)

-- What the loop of `next` leaves: `m_index`, `start_index + 1` and `end_index + 1`.
pub record Scan : Type 0 where
  pub at : ℕ
  pub start : ℕ
  pub stop : ℕ

-- The loop over `rest`, the content from `at` on; it goes on while two characters are left.
unfoldable pub scan : List ℕ → ℕ → ℕ → Scan
scan [] at start = record { at = at; start = start; stop = 0 }
scan (c ∷ []) at start = record { at = at; start = start; stop = 0 }
scan (c ∷ d ∷ rest) at start =
    let more = scan (d ∷ rest) (at + 1) (if c == b'>' then at + 2 else start) in
    if c == b'>'
    then more
    else if ltb 0 start && c == b'<'
    then record { at = at; start = start; stop = at }
    else more

-- `m_content.substr(start_index, end_index - start_index)`
unfoldable pub text_of : List ℕ → Scan → List ℕ
text_of content s = take (s.stop - s.start) (drop (s.start - 1) content)

module _ (b : Boost) where
  -- The empty text stands for bytes that are no UTF-8, such as binary data.
  unfoldable pub unescape_or_empty : Option (List ℕ) → List ℕ
  unescape_or_empty none = []
  unescape_or_empty (some wide_text) = xml_unescape b wide_text

  unfoldable pub next : XmlParser → XmlParser × List ℕ
  unfolding scan text_of unescape_or_empty
  next p =
      let s = scan (drop p.index p.content) p.index 0 in
      (
        record p { index = s.at },
        if leb s.stop s.start then [] else unescape_or_empty (narrow_to_wide (text_of p.content s)),
      )
