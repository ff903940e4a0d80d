-- ===== src/DummyAscii.antt =====
-- shared/contracts/src/dummyAsciiV1.ts, its line decoder. `for (const character of chunk)` goes
-- over code points, and a text here is the list of them. A cut between the two halves of a surrogate
-- pair is not represented.
pub mod Lines
pub mod Chunks
pub mod Commands
pub mod Responses
pub mod Allowed
pub mod Matched
pub mod Meaning
pub mod Parsed
pub mod Visible
pub mod Stripped
pub mod Decimal
pub mod Numerals
pub mod Printed
mod CommandTests
mod PrintedTests
mod Tests
use aethor_studio_v.Prelude.{
  ℕ, ◌+◌, Bool, true, false, not, ◌||◌, Option, none, some, List, [], ◌∷◌, ◌++◌, Text, is_empty,
  length, ltb, leb, ◌==◌, if◌then◌else◌,
}

pub data DummyDiscardReason : Type 0 where
  overlong non_ascii : DummyDiscardReason

pub data DummyRecordReason : Type 0 where
  because : DummyDiscardReason → DummyRecordReason
  incomplete : DummyRecordReason

pub record DummyLineDecoderState : Type 0 where
  pub buffer : Text
  pub discard_reason : Option DummyDiscardReason

pub data DummyDecodedRecord : Type 0 where
  line : Text → DummyDecodedRecord
  discarded : DummyRecordReason → Text → DummyDecodedRecord

unfoldable pub dummy_ascii_max_line_chars : ℕ
dummy_ascii_max_line_chars = 255

abbrev pub create_dummy_line_decoder : DummyLineDecoderState
create_dummy_line_decoder = record { buffer = []; discard_reason = none }

-- The records of a line ending.
abbrev pub ended : Text → Option DummyDiscardReason → List DummyDecodedRecord
ended buffer (some reason) = discarded (because reason) buffer ∷ []
ended buffer none = if is_empty buffer then [] else line buffer ∷ []

-- `buffer += character` and the test behind it.
abbrev pub appended : ℕ → Text → DummyLineDecoderState
appended limit buffer = record {
  buffer = buffer;
  discard_reason = if leb (limit + 1) (length buffer) then some overlong else none;
}

abbrev pub kept_character : Text → Option DummyDiscardReason → ℕ → DummyLineDecoderState
kept_character buffer (some reason) character = record {
  buffer = buffer;
  discard_reason = some reason;
}
kept_character buffer none character =
    if ltb 0x7f character
    then record { buffer = buffer; discard_reason = some non_ascii }
    else appended dummy_ascii_max_line_chars (buffer ++ (character ∷ []))

-- One round of the loop over a chunk.
unfoldable pub decode_character :
    DummyLineDecoderState → ℕ → DummyLineDecoderState × List DummyDecodedRecord
decode_character s character =
    if character == 0x0d || character == 0x0a
    then (create_dummy_line_decoder, ended s.buffer s.discard_reason)
    else (kept_character s.buffer s.discard_reason character, [])

unfoldable pub decode_dummy_ascii_chunk :
    DummyLineDecoderState → Text → DummyLineDecoderState × List DummyDecodedRecord
decode_dummy_ascii_chunk s [] = (s, [])
decode_dummy_ascii_chunk s (character ∷ chunk) =
    let (next, now) = decode_character s character in
    let (end, rest) = decode_dummy_ascii_chunk next chunk in (end, now ++ rest)

-- `initial.discardReason ?? 'incomplete'`
abbrev pub final_reason : Option DummyDiscardReason → DummyRecordReason
final_reason none = incomplete
final_reason (some reason) = because reason

abbrev pub is_discarding : Option DummyDiscardReason → Bool
is_discarding none = false
is_discarding (some reason) = true

unfoldable pub finish_dummy_line_decoder :
    DummyLineDecoderState → DummyLineDecoderState × List DummyDecodedRecord
finish_dummy_line_decoder s = (
  create_dummy_line_decoder,
  if not (is_empty s.buffer) || is_discarding s.discard_reason
      then discarded (final_reason s.discard_reason) s.buffer ∷ []
      else [],
)

abbrev pub cancel_dummy_line_decoder : DummyLineDecoderState
cancel_dummy_line_decoder = create_dummy_line_decoder
