-- ===== src/DummyAscii/Chunks.antt =====
-- Lines of the Dummy protocol that come in chunks.
use aethor_studio_v.Prelude.{
  ℕ, ◌≤◌, ◌||◌, ◌==◌, true, false, List, [], ◌∷◌, ◌++◌, map, Text, is_empty, length, all, ◌≡◌, refl,
  ap, ◌∙◌,
}
use aethor_studio_v.DummyAscii.{
  DummyLineDecoderState, DummyDecodedRecord, line, create_dummy_line_decoder,
  decode_dummy_ascii_chunk,
}
use aethor_studio_v.DummyAscii.Lines.{
  is_plain, decode_dummy_ascii_chunk-append, decode_dummy_ascii_chunk-line,
}

-- Lines, each with the character that ends it.
abbrev pub wire : List (Text × ℕ) → Text
wire [] = []
wire ((l, end) ∷ ls) = l ++ (end ∷ wire ls)

abbrev pub AreLines : List (Text × ℕ) → Type 0
AreLines [] = Unit
AreLines ((l, end) ∷ ls) =
    ((all is_plain l ≡ true)
      × (is_empty l ≡ false)
      × (length l ≤ 255)
      × ((end == 0x0d || end == 0x0a) ≡ true))
    × AreLines ls

decode-wire :
    (ls : List (Text × ℕ))
    → AreLines ls
    → decode_dummy_ascii_chunk create_dummy_line_decoder (wire ls)
      ≡ (create_dummy_line_decoder, map (λ l. line l.0) ls)
decode-wire [] h = unfold decode_dummy_ascii_chunk in refl
decode-wire ((l, end) ∷ ls) ((plain, full, short, ends), h) =
    decode_dummy_ascii_chunk-line l (wire ls) end plain full short ends
    ∙ ap (λ r. (r.0, line l ∷ r.1)) (decode-wire ls h)

-- The decoder fed with chunks one after the other.
abbrev pub decode_dummy_chunks :
    DummyLineDecoderState → List Text → DummyLineDecoderState × List DummyDecodedRecord
decode_dummy_chunks s [] = (s, [])
decode_dummy_chunks s (chunk ∷ chunks) =
    let (t, first) = decode_dummy_ascii_chunk s chunk in
    let (u, rest) = decode_dummy_chunks t chunks in (u, first ++ rest)

abbrev pub joined : List Text → Text
joined [] = []
joined (chunk ∷ chunks) = chunk ++ joined chunks

decode_dummy_chunks-joined :
    (s : DummyLineDecoderState) (chunks : List Text)
    → decode_dummy_chunks s chunks ≡ decode_dummy_ascii_chunk s (joined chunks)
decode_dummy_chunks-joined s [] = unfold decode_dummy_ascii_chunk in refl
decode_dummy_chunks-joined s (chunk ∷ chunks) =
    rw
      (
        decode_dummy_ascii_chunk-append s chunk (joined chunks),
        decode_dummy_chunks-joined (decode_dummy_ascii_chunk s chunk).0 chunks,
      )
      refl

-- Lines of 1 to 255 ASCII characters, each ended by CR or by LF, cut into chunks anywhere: the
-- decoder gives exactly those lines in their order, and ends as it was created.
pub decode_dummy_chunks-wire :
    (chunks : List Text) (ls : List (Text × ℕ))
    → AreLines ls
    → joined chunks ≡ wire ls
    → decode_dummy_chunks create_dummy_line_decoder chunks
      ≡ (create_dummy_line_decoder, map (λ l. line l.0) ls)
decode_dummy_chunks-wire chunks ls h cut =
    decode_dummy_chunks-joined create_dummy_line_decoder chunks
    ∙ ap (decode_dummy_ascii_chunk create_dummy_line_decoder) cut
    ∙ decode-wire ls h
