-- ===== src/AethorAscii/Lines.antt =====
-- What the line decoder of the Aethor protocol promises, however the bytes are cut into chunks.
use aethor_studio_v.Prelude.{
  ℕ, zero, suc, ◌≤◌, Bool, true, false, ◌||◌, Option, none, some, List, [], ◌∷◌, ◌++◌, Text,
  is_empty, ltb, ◌==◌, length, take, all, All, ◌≡◌, refl, arith, append_assoc, length-take,
  All-append, Bool-cases, inl, inr,
}
use aethor_studio_v.AethorAscii.{max_line_bytes, is_printable_unit}
use aethor_studio_v.AethorAscii.Tokens.{all-append}
use aethor_studio_v.AethorAscii.Decoder.{
  LineDecoderState, DecodedRecord, line, discarded, DiscardReason, decode_byte, decode_chunk,
  accept_byte, finish_record, is_some, bounded,
}

-- Decoding two chunks one after the other is decoding their concatenation.
pub decode_chunk-append :
    (s : LineDecoderState) (a b : List ℕ)
    → decode_chunk s (a ++ b) ≡ (
        let (t, first) = decode_chunk s a in
        let (u, second) = decode_chunk t b in (u, first ++ second))
unfolding decode_chunk
decode_chunk-append s [] b = refl
decode_chunk-append s (value ∷ a) b =
    let (s', pushed) = decode_byte s value in rw (decode_chunk-append s' a b, append_assoc)

-- A text that fits a line.
pub record IsLine (t : Text) : Type 0 where
  pub short : length t ≤ max_line_bytes
  pub printable : all is_printable_unit t ≡ true

abbrev pub RecordOk : DecodedRecord → Type 0
RecordOk (line t) = IsLine t × (is_empty t ≡ false)
RecordOk (discarded _ t) = IsLine t

take-printable :
    (n : ℕ) (t : Text) → all is_printable_unit t ≡ true → all is_printable_unit (take n t) ≡ true
take-printable zero t h = refl
take-printable (suc n) [] h = refl
take-printable (suc n) (c ∷ t) h = ground (arith, take-printable n t)

longer-printable :
    (t : Text) (c : ℕ)
    → all is_printable_unit t ≡ true
    → 0x20 ≤ c
    → c ≤ 0x7e
    → all is_printable_unit (t ++ (c ∷ [])) ≡ true
longer-printable t c h low high = rw (all-append, h) (unfold is_printable_unit in ground arith)

-- The text that the last two branches keep, for any limit.
appended-IsLine :
    (n : ℕ) (t : Text)
    → all is_printable_unit t ≡ true
    → n ≤ max_line_bytes
    → IsLine (bounded n t).buffer
unfolding bounded
appended-IsLine n t h le = elim (Bool-cases (ltb n (length t))) [
  | inl long ↦
      rw long (record { short = omega (arith, length-take n t); printable = take-printable n t h })
  | inr fits ↦ rw fits (record { short = ground arith; printable = h })
]

accept_byte-IsLine :
    (t : Text) (pending : Bool) (c : ℕ) → IsLine t → IsLine (accept_byte t pending c).buffer
unfolding accept_byte
accept_byte-IsLine t true c h = h
accept_byte-IsLine t false c h = elim (Bool-cases (c == 0x0d)) [
  | inl cr ↦ rw cr h
  | inr e ↦ rw e (elim (Bool-cases (ltb c 0x20 || ltb 0x7e c)) [
    | inl control ↦ rw control h
    | inr plain ↦ rw plain (
        appended-IsLine max_line_bytes (t ++ (c ∷ []))
          (longer-printable t c h.printable (ground arith) (ground arith)) (omega arith))
  ])
]

finish_record-RecordOk :
    (t : Text) (reason : Option DiscardReason) → IsLine t → All RecordOk (finish_record t reason)
unfolding finish_record
finish_record-RecordOk t (some reason) h = (h, tt)
finish_record-RecordOk [] none h = tt
finish_record-RecordOk (c ∷ t) none h = ((h, refl), tt)

fresh-IsLine : IsLine []
fresh-IsLine = record { short = omega arith; printable = refl }

decode_byte-keeps :
    (s : LineDecoderState) (c : ℕ)
    → IsLine s.buffer
    → IsLine (decode_byte s c).0.buffer × All RecordOk (decode_byte s c).1
unfolding decode_byte
decode_byte-keeps s c h = elim (Bool-cases (c == 0x0a)) [
  | inl feed ↦ rw feed (fresh-IsLine, finish_record-RecordOk s.buffer s.discard_reason h)
  | inr other ↦ rw other (elim (Bool-cases (is_some s.discard_reason)) [
    | inl gone ↦ rw gone (h, tt)
    | inr kept ↦ rw kept (accept_byte-IsLine s.buffer s.pending_cr c h, tt)
  ])
]

-- From a state whose buffer is printable and at most 512 characters long, whatever the bytes: so is
-- the buffer of every later state and the text of every record, and no line is empty.
pub decode_chunk-RecordOk :
    (s : LineDecoderState) (chunk : List ℕ)
    → IsLine s.buffer
    → IsLine (decode_chunk s chunk).0.buffer × All RecordOk (decode_chunk s chunk).1
unfolding decode_chunk
decode_chunk-RecordOk s [] h = (h, tt)
decode_chunk-RecordOk s (c ∷ chunk) h =
    let (next, now) = decode_byte-keeps s c h in
    let (end, later) = decode_chunk-RecordOk (decode_byte s c).0 chunk next in
    (
      end,
      All-append RecordOk (decode_byte s c).1 (decode_chunk (decode_byte s c).0 chunk).1 now later,
    )
