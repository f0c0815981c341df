-- ===== src/Tests/Reader.antt =====
-- Tests of the XML reader and of the TeX mark-up loop.
use vca.Prelude.{ℕ, ◌≡◌, refl, List, [], ◌∷◌, ◌++◌, some, All, init, true}
use vca.Text.Reference.{reference, replace_from}
use vca.Utf8.Codec.{narrow_to_wide, decode}
use vca.Xml.Unescape.{xml_unescape, unescape_by, str_map}
use vca.Xml.Parser.{XmlParser, next, unescape_or_empty}
use vca.Xml.Content.{xml_tag_content}
use vca.Xml.Next.{next_text, xml_tag_content-total}
use vca.Tokenizers.Tex.{strip}
use vca.Tokenizers.Commands.{NoMarkup, strip-NoMarkup, strip-command}
use vca.Tests.Sample.{red, fox}

-- `<t>red</t>`: the last letter of the text is lost.
abbrev tagged : XmlParser
tagged = record {
  content = b'<' ∷ b't' ∷ b'>' ∷ b'r' ∷ b'e' ∷ b'd' ∷ b'<' ∷ b'/' ∷ b't' ∷ b'>' ∷ [];
  index = 0;
}

next_run : (next reference tagged).1 ≡ b'r' ∷ b'e' ∷ []
unfolding next unescape_or_empty xml_unescape unescape_by str_map narrow_to_wide decode replace_from
next_run = refl

next_text_example :
    next reference tagged
    ≡ (record tagged { index = 6 }, unescape_or_empty reference (narrow_to_wide (init red)))
next_text_example =
    next_text reference tagged (b'<' ∷ b't' ∷ []) red b'/' (b't' ∷ b'>' ∷ []) refl
      (refl, (refl, tt)) ((refl, refl), ((refl, refl), ((refl, refl), tt)))

xml_tag_content-total_example :
    (r : List ℕ) × (xml_tag_content reference tagged.content 100 ≡ some r)
xml_tag_content-total_example = xml_tag_content-total reference tagged.content 100

-- `red \it fox`
strip-command_example :
    strip true (red ++ 0x5c ∷ (b'i' ∷ b't' ∷ b' ' ∷ fox)) ≡ red ++ strip true fox
strip-command_example =
    strip-command red (b'i' ∷ b't' ∷ []) fox b' '
      ((refl, refl, refl), ((refl, refl, refl), ((refl, refl, refl), tt))) (refl, (refl, tt)) refl

strip-NoMarkup_example : All NoMarkup (strip true (b'$' ∷ red))
strip-NoMarkup_example = strip-NoMarkup true (b'$' ∷ red)
