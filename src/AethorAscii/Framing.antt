-- ===== src/AethorAscii/Framing.antt =====
-- The checks that the parser makes of a line in front of its tokens.
use native.Mathlib.Nat.{suc-add}
use aethor_studio_v.Prelude.{
  ℕ, ◌+◌, ◌-◌, ◌<◌, ◌≤◌, true, false, some, List, [], ◌∷◌, ◌++◌, Text, is_empty, length, all, take,
  drop, get_elem?, take-append, split, Lacks, ok, ◌≡◌, refl, ap, ◌∙◌, arith, length-append,
}
use aethor_studio_v.Numerals.{is_upper_hex_digit, value}
use aethor_studio_v.AethorAscii.{
  is_printable_unit, is_printable_ascii, compute_crc16, format_crc, max_line_bytes,
}
use aethor_studio_v.AethorAscii.Crc.{compute_crc16-lt, format_crc_lem}
use aethor_studio_v.AethorAscii.Frames.{parse_frame, parse_tokens}
use aethor_studio_v.AethorAscii.Tokens.{printable-Lacks, all-append, length_pos}

module _ {ℓ} {A : Type ℓ} where
  get_elem?-append :
      (xs ys : List A) (i : ℕ) → get_elem? (xs ++ ys) (length xs + i) ≡ get_elem? ys i
  get_elem?-append [] ys i = ap (get_elem? ys) (omega arith)
  get_elem?-append (x ∷ xs) ys i = rw suc-add (get_elem?-append xs ys i)

  drop_add : (xs ys : List A) (i : ℕ) → drop (length xs + i) (xs ++ ys) ≡ drop i ys
  drop_add [] ys i = ap (λ k. drop k ys) (omega arith)
  drop_add (x ∷ xs) ys i = rw suc-add (drop_add xs ys i)

-- What the parser needs of a body and its checksum to look at the tokens.
pub record IsSound (body : Text) (crc : ℕ) : Type 0 where
  pub printable : all is_printable_unit body ≡ true
  pub no_asterisk : Lacks b'*' body
  pub not_empty : is_empty body ≡ false
  pub sum : compute_crc16 body ≡ ok crc
  pub fits : length body + 6 ≤ max_line_bytes

abbrev pub line_of : Text → ℕ → Text
line_of body crc = body ++ (b' ' ∷ b'*' ∷ format_crc crc)

line-printable :
    (body : Text) (crc : ℕ) → IsSound body crc → all is_printable_unit (line_of body crc) ≡ true
line-printable body crc s =
    rw (all-append, s.printable)
      (unfold is_printable_unit in (format_crc_lem crc (compute_crc16-lt body s.sum)).2)

pub is_empty-append : (s t : Text) → is_empty s ≡ false → is_empty (s ++ t) ≡ false
is_empty-append [] t h = cc
is_empty-append (c ∷ s) t h = refl

-- The checks of the parser in front of the tokens, on a line whose parts are known.
parse_frame_checked :
    (input body digits : Text) (crc : ℕ)
    → 6 < length input
    → length input ≤ max_line_bytes
    → all is_printable_unit input ≡ true
    → get_elem? input (length input - 6) ≡ some b' '
    → get_elem? input (length input - 6 + 1) ≡ some b'*'
    → drop (length input - 4) input ≡ digits
    → take (length input - 6) input ≡ body
    → length digits ≡ 4
    → all is_upper_hex_digit digits ≡ true
    → value 16 digits ≡ crc
    → Lacks b'*' body
    → compute_crc16 body ≡ ok crc
    → parse_frame input ≡ ok (parse_tokens (split b' ' body) body input crc)
unfolding parse_frame is_printable_ascii
parse_frame_checked [] body digits crc long short print m1 m2 d t four hex val star sum =
    absurd (omega arith)
parse_frame_checked (c ∷ input) body digits crc long short print m1 m2 d t four hex val star sum =
    let line : Text = c ∷ input in
    ground (
      arith,
      printable-Lacks 13 line (omega arith) print,
      printable-Lacks 10 line (omega arith) print,
    )

pub parse_frame-line_of :
    (body : Text) (crc : ℕ)
    → IsSound body crc
    → parse_frame (line_of body crc)
      ≡ ok (parse_tokens (split b' ' body) body (line_of body crc) crc)
parse_frame-line_of body crc s =
    let (four, hex, print, val) = format_crc_lem crc (compute_crc16-lt body s.sum) in
    let tail : Text = b' ' ∷ b'*' ∷ format_crc crc in
    let total = length-append body tail in
    let marker : length (body ++ tail) - 6 ≡ length body + 0 = omega arith in
    let marker_next : length (body ++ tail) - 6 + 1 ≡ length body + 1 = omega arith in
    let digits : length (body ++ tail) - 4 ≡ length body + 2 = omega arith in
    parse_frame_checked (line_of body crc) body (format_crc crc) crc
      (omega (arith, length_pos body s.not_empty)) (omega (arith, s.fits))
      (line-printable body crc s)
      (ap (get_elem? (body ++ tail)) marker ∙ get_elem?-append body tail 0)
      (ap (get_elem? (body ++ tail)) marker_next ∙ get_elem?-append body tail 1)
      (ap (λ k. drop k (body ++ tail)) digits ∙ drop_add body tail 2)
      (ap (λ k. take k (body ++ tail)) (omega arith) ∙ take-append body tail) four hex val
      s.no_asterisk s.sum
