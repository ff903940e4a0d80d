-- ===== src/DummyAscii/Tests.antt =====
-- The Dummy line decoder on concrete chunks.
use aethor_studio_v.Prelude.{none, [], ◌∷◌, ◌++◌, codes, ◌≡◌, refl, All, all, true, arith}
use aethor_studio_v.DummyAscii.{
  create_dummy_line_decoder, decode_character, decode_dummy_ascii_chunk, finish_dummy_line_decoder,
  dummy_ascii_max_line_chars, non_ascii, incomplete, because, line, discarded,
}
use aethor_studio_v.DummyAscii.Lines.{
  BufferOk, LineOk, is_plain, decode_dummy_ascii_chunk-LineOk, decode_dummy_ascii_chunk-line,
}
use aethor_studio_v.DummyAscii.Chunks.{decode_dummy_chunks, decode_dummy_chunks-wire}

two_lines :
    decode_dummy_ascii_chunk create_dummy_line_decoder
      (codes "ok" ++ (13 ∷ 10 ∷ codes "15" ++ (10 ∷ codes "o")))
    ≡ (
      record { buffer = codes "o"; discard_reason = none },
      line (codes "ok") ∷ line (codes "15") ∷ [],
    )
unfolding decode_dummy_ascii_chunk decode_character dummy_ascii_max_line_chars
two_lines = refl

bad_character :
    (decode_dummy_ascii_chunk create_dummy_line_decoder (codes "a" ++ (200 ∷ 98 ∷ 10 ∷ []))).1
    ≡ discarded (because non_ascii) (codes "a") ∷ []
unfolding decode_dummy_ascii_chunk decode_character dummy_ascii_max_line_chars
bad_character = refl

unfinished :
    (finish_dummy_line_decoder (record { buffer = codes "o"; discard_reason = none })).1
    ≡ discarded incomplete (codes "o") ∷ []
unfolding finish_dummy_line_decoder
unfinished = refl

decode_dummy_ascii_chunk-LineOk_example :
    BufferOk
      (decode_dummy_ascii_chunk create_dummy_line_decoder (codes "ok")).0.buffer
      (decode_dummy_ascii_chunk create_dummy_line_decoder (codes "ok")).0.discard_reason
    × All LineOk (decode_dummy_ascii_chunk create_dummy_line_decoder (codes "ok")).1
decode_dummy_ascii_chunk-LineOk_example =
    decode_dummy_ascii_chunk-LineOk create_dummy_line_decoder (codes "ok") (omega arith, refl)

ok_plain : all is_plain (codes "ok") ≡ true
unfolding is_plain
ok_plain = refl

decode_dummy_ascii_chunk-line_example :
    decode_dummy_ascii_chunk create_dummy_line_decoder (codes "ok" ++ (10 ∷ codes "15")) ≡ (
      let (last, records) = decode_dummy_ascii_chunk create_dummy_line_decoder (codes "15") in
      (last, line (codes "ok") ∷ records))
decode_dummy_ascii_chunk-line_example =
    decode_dummy_ascii_chunk-line (codes "ok") (codes "15") 10 ok_plain refl (omega arith) refl

fifteen_plain : all is_plain (codes "15") ≡ true
unfolding is_plain
fifteen_plain = refl

decode_dummy_chunks-wire_example :
    decode_dummy_chunks create_dummy_line_decoder
      (codes "o" ∷ (107 ∷ 13 ∷ 49 ∷ []) ∷ (53 ∷ 10 ∷ []) ∷ [])
    ≡ (create_dummy_line_decoder, line (codes "ok") ∷ line (codes "15") ∷ [])
decode_dummy_chunks-wire_example =
    decode_dummy_chunks-wire (codes "o" ∷ (107 ∷ 13 ∷ 49 ∷ []) ∷ (53 ∷ 10 ∷ []) ∷ [])
      ((codes "ok", 13) ∷ (codes "15", 10) ∷ [])
      ((ok_plain, refl, omega arith, refl), ((fifteen_plain, refl, omega arith, refl), tt)) refl
