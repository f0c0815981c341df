-- ===== src/Xml/Next.antt =====
-- What `XMLParser::next` and `xml_tag_content` of core/vca/string.cpp give.
use vca.Prelude.{
  ℕ, zero, suc, ◌+◌, ◌-◌, ◌*◌, ◌≤◌, ◌<◌, ◌≡◌, refl, ap, ◌∙◌, sym, true, false, not, ◌&&◌, List, [],
  ◌∷◌, ◌++◌, some, length, take, drop, init, All, arith, Bool-cases, inl, inr, ltb, leb, ◌==◌,
  if◌then◌else◌, length-drop, length-append,
}
use vca.Text.Boost.{Boost}
use vca.Text.Split.{trim, is_empty}
use vca.Utf8.Codec.{narrow_to_wide, decode}
use vca.Xml.Unescape.{xml_unescape, xml_unescape_self}
use vca.Xml.Parser.{XmlParser, end, Scan, scan, text_of, next, unescape_or_empty}
use vca.Xml.Content.{add_line, collect, xml_tag_content}

scan-at : (rest : List ℕ) (at start : ℕ) → at ≤ (scan rest at start).at
unfolding scan
scan-at [] at start = omega arith
scan-at (c ∷ []) at start = omega arith
scan-at (c ∷ d ∷ rest) at start =
    ground (arith, scan-at (d ∷ rest) (at + 1) (if c == b'>' then at + 2 else start))

scan-advances : (rest : List ℕ) (at : ℕ) → 1 < length rest → at < (scan rest at 0).at
unfolding scan
scan-advances [] at h = absurd (omega arith)
scan-advances (c ∷ []) at h = absurd (omega arith)
scan-advances (c ∷ d ∷ rest) at h =
    ground (arith, scan-at (d ∷ rest) (at + 1) (if c == b'>' then at + 2 else 0))

module _ (b : Boost) where
  -- While the end is not reached, `next` moves on in the same content.
  pub next-advances :
      (p : XmlParser)
      → end p ≡ false
      → (p.index < (next b p).0.index) × ((next b p).0.content ≡ p.content)
  unfolding next end
  next-advances p h =
      (scan-advances (drop p.index p.content) p.index (rw length-drop (ground arith)), refl)

  collect_more :
      (fuel : ℕ) (p : XmlParser) (max_byte_count : ℕ) (one_line : List ℕ) (byte_count : ℕ)
      → ((q : XmlParser) (m : ℕ) (l : List ℕ) (n : ℕ)
          → length q.content ≤ fuel + q.index
          → 0 < fuel
          → (r : List ℕ) × (collect b fuel q m l n ≡ some r))
      → (not (end p) && ltb byte_count max_byte_count) ≡ true
      → length p.content ≤ suc fuel + p.index
      → (r : List ℕ) × (elim (is_empty (trim b (next b p).1)) [
        | true ↦ collect b fuel (next b p).0 max_byte_count one_line byte_count
        | false ↦
            collect b fuel
              (next b p).0
              max_byte_count
              (add_line one_line (trim b (next b p).1))
              (byte_count + length (trim b (next b p).1) * 4)
      ]
          ≡ some r)
  unfolding end
  collect_more fuel p m l n ih more h =
      let moved = next-advances p (ground arith) in
      let near : length (next b p).0.content ≤ fuel + (next b p).0.index =
        rw moved.1 (omega (arith, moved.0)) in
      let pos : 0 < fuel = ground arith in
      elim (is_empty (trim b (next b p).1))
        as (λ e.
          (r : List ℕ) × (elim e [
            | true ↦ collect b fuel (next b p).0 m l n
            | false ↦
                collect b fuel (next b p).0 m (add_line l (trim b (next b p).1))
                  (n + length (trim b (next b p).1) * 4)
          ]
            ≡ some r)) [
              | true ↦ ih (next b p).0 m l n near pos
              | false ↦ ih (next b p).0 m _ _ near pos
            ]

  collect_total :
      (fuel : ℕ) (p : XmlParser) (max_byte_count : ℕ) (one_line : List ℕ) (byte_count : ℕ)
      → length p.content ≤ fuel + p.index
      → 0 < fuel
      → (r : List ℕ) × (collect b fuel p max_byte_count one_line byte_count ≡ some r)
  unfolding collect
  collect_total zero p m l n h pos = absurd (omega arith)
  collect_total (suc fuel) p m l n h pos = elim (Bool-cases (not (end p) && ltb n m)) [
    | inl more ↦ rw (more, collect) (collect_more fuel p m l n (collect_total fuel) more h)
    | inr done ↦ (l, rw (done, collect))
  ]

  -- `xml_tag_content` ends on every content and every limit.
  pub xml_tag_content-total :
      (content : List ℕ) (max_byte_count : ℕ)
      → (r : List ℕ) × (xml_tag_content b content max_byte_count ≡ some r)
  unfolding xml_tag_content
  xml_tag_content-total content m =
      let start : XmlParser = record { content = content; index = 0 } in
      let (r, e) = collect_total (suc (length content)) start m [] 0 (omega arith) (omega arith) in
      (xml_unescape b r, rw (e, xml_tag_content))

scan_one :
    (c : ℕ) (s : List ℕ) (at start : ℕ)
    → 0 < length s
    → (c == b'<') ≡ false
    → (c == b'>') ≡ false
    → scan (c ∷ s) at start ≡ scan s (at + 1) start
unfolding scan
scan_one c [] at start h e f = absurd (omega arith)
scan_one c (d ∷ s) at start h e f = ground arith

abbrev pub NoTag : ℕ → Type 0
NoTag c = ((c == b'<') ≡ false) × ((c == b'>') ≡ false)

shifted :
    (at start n : ℕ)
    → ◌≡◌ {A = Scan}
        (record { at = at + 1 + n; start = start; stop = at + 1 + n })
        (record { at = at + suc n; start = start; stop = at + suc n })
shifted at start n = let e : at + 1 + n ≡ at + suc n = omega arith in rw e

scan_open :
    (s : List ℕ) (at start : ℕ) → 0 < length s → scan (b'>' ∷ s) at start ≡ scan s (at + 1) (at + 2)
unfolding scan
scan_open [] at start h = absurd (omega arith)
scan_open (d ∷ s) at start h = refl

abbrev pub NoClose : ℕ → Type 0
NoClose c = (c == b'>') ≡ false

scan_skip_one :
    (c : ℕ) (s : List ℕ) (at : ℕ) → 0 < length s → NoClose c → scan (c ∷ s) at 0 ≡ scan s (at + 1) 0
unfolding scan
scan_skip_one c [] at h e = absurd (omega arith)
scan_skip_one c (d ∷ s) at h e = rw e refl

-- Before the first `>` the loop only moves on.
scan_skip :
    (skipped s : List ℕ) (at : ℕ)
    → 0 < length s
    → All NoClose skipped
    → scan (skipped ++ s) at 0 ≡ scan s (at + length skipped) 0
unfolding scan
scan_skip [] s at h plain = ap (λ k. scan s k 0) (omega arith)
scan_skip (c ∷ skipped) s at h plain =
    scan_skip_one c (skipped ++ s) at (rw length-append (omega arith)) plain.0
    ∙ scan_skip skipped s (at + 1) h plain.1
    ∙ ap (λ k. scan s k 0) (omega arith)

-- From behind a `>` the loop runs to the next `<`.
scan_text :
    (text : List ℕ) (d : ℕ) (rest : List ℕ) (at start : ℕ)
    → 0 < start
    → All NoTag text
    → scan (text ++ b'<' ∷ d ∷ rest) at start
      ≡ record { at = at + length text; start = start; stop = at + length text }
scan_text [] d rest at start pos h = unfold scan in ground arith
scan_text (c ∷ text) d rest at start pos h =
    scan_one c (text ++ b'<' ∷ d ∷ rest) at start (rw length-append (omega arith)) h.0.0 h.0.1
    ∙ scan_text text d rest (at + 1) start pos h.1
    ∙ shifted at start (length text)

take-init : (text rest : List ℕ) → take (length text - 1) (text ++ rest) ≡ init text
take-init [] rest = refl
take-init (c ∷ []) rest = refl
take-init (c ∷ d ∷ text) rest =
    let e : suc (suc (length text)) - 1 ≡ suc (length text) = omega arith in
    let shorter : take (length text) (d ∷ (text ++ rest))
        ≡ take (suc (length text) - 1) (d ∷ (text ++ rest)) =
      ap (λ k. take k (d ∷ (text ++ rest))) (omega arith) in
    rw e (ap (c ∷◌) (shorter ∙ take-init (d ∷ text) rest))

drop-behind :
    (n c : ℕ) (skipped xs ys : List ℕ)
    → drop n xs ≡ skipped ++ c ∷ ys
    → drop (n + length skipped + 1) xs ≡ ys
drop-behind zero c [] [] ys h = cc
drop-behind zero c [] (x ∷ xs) ys h = cc
drop-behind zero c (s ∷ skipped) [] ys h = cc
drop-behind zero c (s ∷ skipped) (x ∷ xs) ys h =
    let e : zero + length (s ∷ skipped) + 1 ≡ suc (zero + length skipped + 1) = omega arith in
    ap (λ k. drop k (x ∷ xs)) e ∙ drop-behind zero c skipped xs ys cc
drop-behind (suc n) c [] [] ys h = cc
drop-behind (suc n) c (s ∷ skipped) [] ys h = cc
drop-behind (suc n) c skipped (x ∷ xs) ys h =
    let e : suc n + length skipped + 1 ≡ suc (n + length skipped + 1) = omega arith in
    ap (λ k. drop k (x ∷ xs)) e ∙ drop-behind n c skipped xs ys h

module _ (b : Boost) where
  -- What the loop leaves when it ends at the `<` behind a text.
  abbrev ended : XmlParser → List ℕ → List ℕ → Scan
  ended p skipped text = record {
    at = p.index + length skipped + 1 + length text;
    start = p.index + length skipped + 2;
    stop = p.index + length skipped + 1 + length text;
  }

  scan_tag :
      (p : XmlParser) (skipped text : List ℕ) (d : ℕ) (rest : List ℕ)
      → drop p.index p.content ≡ skipped ++ b'>' ∷ (text ++ b'<' ∷ d ∷ rest)
      → All NoClose skipped
      → All NoTag text
      → scan (drop p.index p.content) p.index 0 ≡ ended p skipped text
  scan_tag p skipped text d rest h before plain =
      let k = p.index + length skipped in
      ap (λ s. scan s p.index 0) h
      ∙ scan_skip skipped (b'>' ∷ (text ++ b'<' ∷ d ∷ rest)) p.index (omega arith) before
      ∙ scan_open (text ++ b'<' ∷ d ∷ rest) k 0 (rw length-append (omega arith))
      ∙ scan_text text d rest (k + 1) (k + 2) (omega arith) plain

  text_of-tag :
      (p : XmlParser) (skipped text rest : List ℕ)
      → drop p.index p.content ≡ skipped ++ b'>' ∷ (text ++ rest)
      → text_of p.content (ended p skipped text) ≡ init text
  unfolding text_of
  text_of-tag p skipped text rest h =
      let k = p.index + length skipped in
      let e : k + 1 + length text - (k + 2) ≡ length text - 1 = omega arith in
      let f : k + 2 - 1 ≡ k + 1 = omega arith in
      rw (e, f, drop-behind p.index b'>' skipped p.content (text ++ rest) h) (take-init text rest)

  short_tag :
      (text : List ℕ) → length text < 2 → [] ≡ unescape_or_empty b (narrow_to_wide (init text))
  unfolding narrow_to_wide decode unescape_or_empty
  short_tag [] h = sym (xml_unescape_self b [] tt)
  short_tag (c ∷ []) h = sym (xml_unescape_self b [] tt)
  short_tag (c ∷ d ∷ text) h = absurd (omega arith)

  -- Where a `>` is ahead of the parser, and behind the next one a text of no `<` or `>` that ends at
  -- a `<` which is not the last byte of the content, `next` stops at that `<`. It gives the text
  -- without its last byte, decoded and unescaped, and nothing if that is no UTF-8.
  pub next_text :
      (p : XmlParser) (skipped text : List ℕ) (d : ℕ) (rest : List ℕ)
      → drop p.index p.content ≡ skipped ++ b'>' ∷ (text ++ b'<' ∷ d ∷ rest)
      → All NoClose skipped
      → All NoTag text
      → next b p ≡ (
        record p { index = p.index + length skipped + 1 + length text },
        unescape_or_empty b (narrow_to_wide (init text)),
      )
  unfolding next
  next_text p skipped text d rest h before plain =
      let k = p.index + length skipped in
      rw
        (
          scan_tag p skipped text d rest h before plain,
          text_of-tag p skipped text (b'<' ∷ d ∷ rest) h,
        )
        (elim (Bool-cases (leb (k + 1 + length text) (k + 2))) [
          | inl short ↦ rw short (
              ap (λ t. (record p { index = k + 1 + length text }, t))
                (short_tag text (ground arith)))
          | inr long ↦ rw long
        ])
