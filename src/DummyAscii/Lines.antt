-- ===== src/DummyAscii/Lines.antt =====
-- What the Dummy line decoder promises, however the text is cut into chunks.
use aethor_studio_v.Prelude.{
  ℕ, ◌+◌, ◌≤◌, ◌∙◌, ap, append-nil, Bool, true, false, not, ◌||◌, ◌&&◌, Option, none, some, [], ◌∷◌,
  ◌++◌, Text, is_empty, ltb, leb, ◌==◌, length, all, All, ◌≡◌, refl, arith, append_assoc,
  length-append, All-append, Bool-cases, inl, inr,
}
use aethor_studio_v.AethorAscii.Tokens.{all-append}
use aethor_studio_v.DummyAscii.{
  DummyDiscardReason, DummyLineDecoderState, DummyDecodedRecord, line, discarded,
  dummy_ascii_max_line_chars, create_dummy_line_decoder, ended, appended, kept_character,
  decode_character, decode_dummy_ascii_chunk,
}

-- Decoding two chunks one after the other is decoding their concatenation.
pub decode_dummy_ascii_chunk-append :
    (s : DummyLineDecoderState) (a b : Text)
    → decode_dummy_ascii_chunk s (a ++ b) ≡ (
        let (t, first) = decode_dummy_ascii_chunk s a in
        let (u, second) = decode_dummy_ascii_chunk t b in (u, first ++ second))
unfolding decode_dummy_ascii_chunk
decode_dummy_ascii_chunk-append s [] b = refl
decode_dummy_ascii_chunk-append s (c ∷ a) b =
    let (next, now) = decode_character s c in
    rw (decode_dummy_ascii_chunk-append next a b, append_assoc)

-- An ASCII character that ends no line.
unfoldable pub is_plain : ℕ → Bool
is_plain c = leb c 0x7f && not (c == 0x0d || c == 0x0a)

abbrev pub LineOk : DummyDecodedRecord → Type 0
LineOk (line t) = (is_empty t ≡ false) × (length t ≤ 255) × (all is_plain t ≡ true)
LineOk (discarded reason t) = (length t ≤ 256) × (all is_plain t ≡ true)

-- While no line is being discarded the buffer has at most 255 characters, and one more at an
-- overlong line.
abbrev pub BufferOk : Text → Option DummyDiscardReason → Type 0
BufferOk t none = (length t ≤ 255) × (all is_plain t ≡ true)
BufferOk t (some reason) = (length t ≤ 256) × (all is_plain t ≡ true)

ended-LineOk :
    (t : Text) (reason : Option DummyDiscardReason)
    → BufferOk t reason
    → All LineOk (ended t reason)
ended-LineOk t (some reason) h = (h, tt)
ended-LineOk [] none h = tt
ended-LineOk (c ∷ t) none (short, plain) = ((refl, short, plain), tt)

longer-plain :
    (t : Text) (c : ℕ)
    → all is_plain t ≡ true
    → ltb 0x7f c ≡ false
    → (c == 0x0d || c == 0x0a) ≡ false
    → all is_plain (t ++ (c ∷ [])) ≡ true
longer-plain t c h low other = rw (all-append, h) (unfold is_plain in rw other (ground arith))

appended-BufferOk :
    (limit : ℕ) (t : Text)
    → limit ≡ 255
    → length t ≤ 256
    → all is_plain t ≡ true
    → BufferOk t (appended limit t).discard_reason
appended-BufferOk limit t is le plain = elim (Bool-cases (leb (limit + 1) (length t))) [
  | inl long ↦ rw long (le, plain)
  | inr fits ↦ rw fits (ground arith, plain)
]

kept_character-BufferOk :
    (t : Text) (reason : Option DummyDiscardReason) (c : ℕ)
    → (c == 0x0d || c == 0x0a) ≡ false
    → BufferOk t reason
    → BufferOk (kept_character t reason c).buffer (kept_character t reason c).discard_reason
unfolding dummy_ascii_max_line_chars
kept_character-BufferOk t (some reason) c other h = h
kept_character-BufferOk t none c other (short, plain) = elim (Bool-cases (ltb 0x7f c)) [
  | inl high ↦ rw high (omega arith, plain)
  | inr low ↦ rw low (
      appended-BufferOk 255 (t ++ (c ∷ [])) refl (omega (arith, length-append t (c ∷ [])))
        (longer-plain t c plain low other))
]

decode_character-LineOk :
    (s : DummyLineDecoderState) (c : ℕ)
    → BufferOk s.buffer s.discard_reason
    → BufferOk (decode_character s c).0.buffer (decode_character s c).0.discard_reason
      × All LineOk (decode_character s c).1
unfolding decode_character
decode_character-LineOk s c h = elim (Bool-cases (c == 0x0d || c == 0x0a)) [
  | inl end ↦ rw end ((omega arith, refl), ended-LineOk s.buffer s.discard_reason h)
  | inr other ↦ rw other (kept_character-BufferOk s.buffer s.discard_reason c other h, tt)
]

-- From a state whose buffer is `BufferOk`, whatever the characters: so is the buffer of the next
-- state, every line is not empty, has at most 255 characters and only ASCII ones that end no line,
-- and every discarded preview has at most 256 of these.
pub decode_dummy_ascii_chunk-LineOk :
    (s : DummyLineDecoderState) (chunk : Text)
    → BufferOk s.buffer s.discard_reason
    → BufferOk
        (decode_dummy_ascii_chunk s chunk).0.buffer
        (decode_dummy_ascii_chunk s chunk).0.discard_reason
      × All LineOk (decode_dummy_ascii_chunk s chunk).1
unfolding decode_dummy_ascii_chunk
decode_dummy_ascii_chunk-LineOk s [] h = (h, tt)
decode_dummy_ascii_chunk-LineOk s (c ∷ chunk) h =
    let (next, now) = decode_character-LineOk s c h in
    let (end, rest) = decode_dummy_ascii_chunk-LineOk (decode_character s c).0 chunk next in
    (
      end,
      All-append LineOk (decode_character s c).1
          (decode_dummy_ascii_chunk (decode_character s c).0 chunk).1 now rest,
    )

abbrev with_buffer : Text → DummyLineDecoderState
with_buffer t = record { buffer = t; discard_reason = none }

appended-open : (limit : ℕ) (t : Text) → length t ≤ limit → appended limit t ≡ with_buffer t
appended-open limit t h = elim (Bool-cases (leb (limit + 1) (length t))) [
  | inl long ↦ absurd (ground arith)
  | inr fits ↦ rw fits refl
]

decode_character-plain :
    (t : Text) (c : ℕ)
    → is_plain c ≡ true
    → length t + 1 ≤ 255
    → decode_character (with_buffer t) c ≡ (with_buffer (t ++ (c ∷ [])), [])
unfolding decode_character dummy_ascii_max_line_chars is_plain
decode_character-plain t c plain short =
    rw
      (
        ends c plain,
        high c plain,
        appended-open 255 (t ++ (c ∷ [])) (omega (arith, length-append t (c ∷ []))),
      )
      refl
  where
    ends :
        (c : ℕ)
        → (leb c 0x7f && not (c == 0x0d || c == 0x0a)) ≡ true
        → (c == 0x0d || c == 0x0a) ≡ false
    ends c h = ground arith

    high : (c : ℕ) → (leb c 0x7f && not (c == 0x0d || c == 0x0a)) ≡ true → ltb 0x7f c ≡ false
    high c h = ground arith

plain_run :
    (t l rest : Text)
    → all is_plain l ≡ true
    → length t + length l ≤ 255
    → decode_dummy_ascii_chunk (with_buffer t) (l ++ rest)
      ≡ decode_dummy_ascii_chunk (with_buffer (t ++ l)) rest
unfolding decode_dummy_ascii_chunk
plain_run t [] rest plain short = rw append-nil refl
plain_run t (c ∷ l) rest plain short = rw (decode_character-plain t c (both.0) (omega arith)) (
    plain_run (t ++ (c ∷ [])) l rest (both.1) (omega (arith, length-append t (c ∷ [])))
    ∙ ap (λ x. decode_dummy_ascii_chunk (with_buffer x) rest) (append_assoc t (c ∷ []) l))
  where
    split : (a b : Bool) → (a && b) ≡ true → (a ≡ true) × (b ≡ true)
    split true b h = (refl, h)
    split false b h = cc

    both : (is_plain c ≡ true) × (all is_plain l ≡ true)
    both = split (is_plain c) (all is_plain l) plain

plain_ending :
    (l rest : Text) (end : ℕ)
    → is_empty l ≡ false
    → (end == 0x0d || end == 0x0a) ≡ true
    → decode_dummy_ascii_chunk (with_buffer l) (end ∷ rest) ≡ (
        let (last, records) = decode_dummy_ascii_chunk create_dummy_line_decoder rest in
        (last, line l ∷ records))
unfolding decode_dummy_ascii_chunk decode_character
plain_ending l rest end full ends = rw (ends, full) refl

-- A line of 1 to 255 ASCII characters and a line ending, at the start of a line: the line is the
-- first record, and the rest is decoded as from the start.
pub decode_dummy_ascii_chunk-line :
    (l rest : Text) (end : ℕ)
    → all is_plain l ≡ true
    → is_empty l ≡ false
    → length l ≤ 255
    → (end == 0x0d || end == 0x0a) ≡ true
    → decode_dummy_ascii_chunk create_dummy_line_decoder (l ++ (end ∷ rest)) ≡ (
        let (last, records) = decode_dummy_ascii_chunk create_dummy_line_decoder rest in
        (last, line l ∷ records))
decode_dummy_ascii_chunk-line l rest end plain full short ends =
    plain_run [] l (end ∷ rest) plain (omega arith) ∙ plain_ending l rest end full ends
