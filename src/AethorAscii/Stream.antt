-- ===== src/AethorAscii/Stream.antt =====
-- Whole lines through the line decoder of the Aethor protocol.
use aethor_studio_v.Prelude.{
  ℕ, ◌+◌, ◌≤◌, ◌<◌, Bool, true, false, none, List, [], ◌∷◌, ◌++◌, map, Text, is_empty, length, all,
  ◌≡◌, refl, ap, ◌∙◌, arith, append_assoc, append-nil, length-append, ok, >>=-eq-ok,
}
use aethor_studio_v.AethorAscii.{max_line_bytes, is_printable_unit}
use aethor_studio_v.AethorAscii.Decoder.{
  LineDecoderState, DecodedRecord, line, fresh, decode_byte, decode_chunk, accept_byte,
  finish_record, bounded,
}
use aethor_studio_v.AethorAscii.Frames.{Request, parse_frame, format_request, encode_request}
use aethor_studio_v.AethorAscii.RoundTrip.{IsFrameOf, parse_frame-format_request}
use aethor_studio_v.AethorAscii.Parsing.{parse_frame-IsAccepted}
use aethor_studio_v.AethorAscii.Lines.{IsLine, decode_chunk-append}

-- A state that has collected `t` and nothing else.
abbrev pub collected : Text → LineDecoderState
collected t = record { buffer = t; pending_cr = false; discard_reason = none }

decode_byte-collected :
    (t : Text) (c : ℕ)
    → is_printable_unit c ≡ true
    → length t < max_line_bytes
    → decode_byte (collected t) c ≡ (collected (t ++ (c ∷ [])), [])
unfolding decode_byte accept_byte bounded is_printable_unit
decode_byte-collected t c h short = ground (arith, length-append t (c ∷ []))

decode_chunk-collected :
    (t u : Text)
    → all is_printable_unit u ≡ true
    → length t + length u ≤ max_line_bytes
    → decode_chunk (collected t) u ≡ (collected (t ++ u), [])
unfolding decode_chunk
decode_chunk-collected t [] h short = rw append-nil
decode_chunk-collected t (c ∷ u) h short = rw (
  decode_byte-collected t c (ground arith) (omega arith),
  decode_chunk-collected (t ++ (c ∷ [])) u (ground arith) (omega (arith, length-append t (c ∷ []))),
  append_assoc,
)

decode_chunk-feed :
    (t : Text) → is_empty t ≡ false → decode_chunk (collected t) (10 ∷ []) ≡ (fresh, line t ∷ [])
unfolding decode_chunk decode_byte finish_record
decode_chunk-feed t h = ground arith

decode_chunk-cr_feed :
    (t : Text)
    → is_empty t ≡ false
    → decode_chunk (collected t) (13 ∷ 10 ∷ []) ≡ (fresh, line t ∷ [])
unfolding decode_chunk decode_byte finish_record accept_byte
decode_chunk-cr_feed t h = ground arith

-- A line and whether it ends in CR LF rather than LF.
abbrev pub terminator : Bool → List ℕ
terminator true = 13 ∷ 10 ∷ []
terminator false = 10 ∷ []

abbrev pub wire : List (Text × Bool) → List ℕ
wire [] = []
wire ((t, cr) ∷ ts) = (t ++ terminator cr) ++ wire ts

abbrev pub AreLines : List (Text × Bool) → Type 0
AreLines [] = Unit
AreLines ((t, cr) ∷ ts) = (IsLine t × (is_empty t ≡ false)) × AreLines ts

decode_chunk-line :
    (t : Text) (cr : Bool)
    → IsLine t
    → is_empty t ≡ false
    → decode_chunk fresh (t ++ terminator cr) ≡ (fresh, line t ∷ [])
decode_chunk-line t true h e = rw (
  decode_chunk-append,
  decode_chunk-collected [] t h.printable (omega (arith, h.short)),
  decode_chunk-cr_feed t e,
)
decode_chunk-line t false h e = rw (
  decode_chunk-append,
  decode_chunk-collected [] t h.printable (omega (arith, h.short)),
  decode_chunk-feed t e,
)

-- Lines of 1 to 512 printable characters, each ended by LF or by CR LF, are decoded to exactly
-- those lines in their order, and leave the decoder as it was created.
decode_chunk-wire :
    (ts : List (Text × Bool))
    → AreLines ts
    → decode_chunk fresh (wire ts) ≡ (fresh, map (λ t. line t.0) ts)
decode_chunk-wire [] _ = unfold decode_chunk in refl
decode_chunk-wire ((t, cr) ∷ ts) ((h, e), hs) =
    rw (decode_chunk-append, decode_chunk-line t cr h e, decode_chunk-wire ts hs)

-- The decoder fed with chunks one after the other.
abbrev pub decode_chunks : LineDecoderState → List (List ℕ) → LineDecoderState × List DecodedRecord
decode_chunks s [] = (s, [])
decode_chunks s (chunk ∷ chunks) =
    let (t, first) = decode_chunk s chunk in
    let (u, rest) = decode_chunks t chunks in (u, first ++ rest)

abbrev pub joined : List (List ℕ) → List ℕ
joined [] = []
joined (chunk ∷ chunks) = chunk ++ joined chunks

decode_chunks-joined :
    (s : LineDecoderState) (chunks : List (List ℕ))
    → decode_chunks s chunks ≡ decode_chunk s (joined chunks)
decode_chunks-joined s [] = unfold decode_chunk in refl
decode_chunks-joined s (chunk ∷ chunks) =
    rw
      (
        decode_chunk-append s chunk (joined chunks),
        decode_chunks-joined (decode_chunk s chunk).0 chunks,
      )
      refl

-- The bytes of lines of 1 to 512 printable characters, each ended by LF or by CR LF, cut into
-- chunks anywhere, within a line or between CR and LF too: the decoder gives exactly those lines in
-- their order, and ends as it was created.
pub decode_chunks-wire :
    (chunks : List (List ℕ)) (ts : List (Text × Bool))
    → AreLines ts
    → joined chunks ≡ wire ts
    → decode_chunks fresh chunks ≡ (fresh, map (λ t. line t.0) ts)
decode_chunks-wire chunks ts h cut =
    decode_chunks-joined fresh chunks ∙ ap (decode_chunk fresh) cut ∙ decode_chunk-wire ts h

decode_byte-feed : (s : LineDecoderState) → (decode_byte s 10).0 ≡ fresh
unfolding decode_byte
decode_byte-feed s = refl

-- Whatever state the decoder is in, after a line feed it decodes whole lines exactly, as from the
-- start: no fault outlasts its line.
pub decode_chunk_resync :
    (s : LineDecoderState) (ts : List (Text × Bool))
    → AreLines ts
    → decode_chunk s (10 ∷ wire ts) ≡ (fresh, (decode_byte s 10).1 ++ map (λ t. line t.0) ts)
unfolding decode_chunk
decode_chunk_resync s ts h = rw (decode_byte-feed s, decode_chunk-wire ts h)

-- The line that a request travels in, and the frame that comes out at the other end.
pub record Delivers (request : Request) (bytes : List ℕ) : Type 0 where
  pub text : Text
  pub decoded : decode_chunk fresh bytes ≡ (fresh, line text ∷ [])
  pub delivered : IsFrameOf request text

frame-not_empty : (t : Text) (request : Request) → IsFrameOf request t → is_empty t ≡ false
unfolding parse_frame
frame-not_empty [] request f = let p = f.parsed in cc
frame-not_empty (c ∷ t) request f = refl

-- The bytes that `encodeAethorArmRequest` returns for a request are decoded to one line, and that
-- line is parsed as a frame with the request's id, operation and fields.
pub encode_request-Delivers :
    (request : Request) {bytes : List ℕ}
    → encode_request request ≡ ok bytes
    → Delivers request bytes
unfolding encode_request
encode_request-Delivers request {bytes} h =
    let (text, formatted, same) = >>=-eq-ok (format_request request) _ h in
    let frame = parse_frame-format_request request formatted in
    let accepted = parse_frame-IsAccepted text frame.parsed in
    let through =
      decode_chunk-line text false
        (record { short = accepted.short; printable = accepted.printable })
        (frame-not_empty text request frame) in
    record { text = text; decoded = ap (decode_chunk fresh) (cc same) ∙ through; delivered = frame }
