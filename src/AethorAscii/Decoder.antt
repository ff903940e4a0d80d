-- ===== src/AethorAscii/Decoder.antt =====
-- The line decoder of the Aethor protocol: `createAethorArmLineDecoder`,
-- `decodeAethorArmAsciiChunk` and `finishAethorArmLineDecoder`. A chunk is a list of bytes.
use aethor_studio_v.Prelude.{
  ℕ, Bool, true, false, not, ◌||◌, Option, none, some, List, [], ◌∷◌, ◌++◌, Text, is_empty, ltb,
  ◌==◌, length, take, if◌then◌else◌,
}
use aethor_studio_v.AethorAscii.{max_line_bytes}

pub data DiscardReason : Type 0 where
  overlong non_ascii control_character : DiscardReason

-- The reason of a discarded record: that of the state, or `incomplete`.
pub data RecordReason : Type 0 where
  during : DiscardReason → RecordReason
  incomplete : RecordReason

pub record LineDecoderState : Type 0 where
  pub buffer : Text
  pub pending_cr : Bool
  pub discard_reason : Option DiscardReason

pub data DecodedRecord : Type 0 where
  line : Text → DecodedRecord
  discarded : RecordReason → Text → DecodedRecord

abbrev pub fresh : LineDecoderState
fresh = record { buffer = []; pending_cr = false; discard_reason = none }

-- The record that `finishRecord` pushes.
unfoldable pub finish_record : Text → Option DiscardReason → List DecodedRecord
finish_record buffer (some reason) = discarded (during reason) buffer ∷ []
finish_record buffer none = if is_empty buffer then [] else line buffer ∷ []

-- The buffer with a byte more, cut to the limit.
unfoldable pub bounded : ℕ → Text → LineDecoderState
bounded limit longer =
    if ltb limit (length longer)
    then record { buffer = take limit longer; pending_cr = false; discard_reason = some overlong }
    else record { buffer = longer; pending_cr = false; discard_reason = none }

-- A byte that is no line feed, in a state that discards nothing.
unfoldable pub accept_byte : Text → Bool → ℕ → LineDecoderState
accept_byte buffer true value = record {
  buffer = buffer;
  pending_cr = true;
  discard_reason = some control_character;
}
accept_byte buffer false value =
    let longer = buffer ++ (value ∷ []) in
    if value == 0x0d
    then record { buffer = buffer; pending_cr = true; discard_reason = none }
    else if ltb value 0x20 || ltb 0x7e value
    then record {
      buffer = buffer;
      pending_cr = false;
      discard_reason = some (if ltb 0x7f value then non_ascii else control_character);
    }
    else bounded max_line_bytes longer

abbrev pub is_some {ℓ} : {A : Type ℓ} → Option A → Bool
is_some none = false
is_some (some _) = true

-- One round of the loop over the bytes: the new state and the records it pushes.
unfoldable pub decode_byte : LineDecoderState → ℕ → LineDecoderState × List DecodedRecord
decode_byte s value =
    if value == 0x0a
    then (fresh, finish_record s.buffer s.discard_reason)
    else if is_some s.discard_reason
    then (s, [])
    else (accept_byte s.buffer s.pending_cr value, [])

unfoldable pub decode_chunk : LineDecoderState → List ℕ → LineDecoderState × List DecodedRecord
decode_chunk s [] = (s, [])
decode_chunk s (value ∷ chunk) =
    let (s', pushed) = decode_byte s value in
    let (end, records) = decode_chunk s' chunk in (end, pushed ++ records)

-- `initial.discardReason ?? 'incomplete'`
abbrev pub reason_or_incomplete : Option DiscardReason → RecordReason
reason_or_incomplete none = incomplete
reason_or_incomplete (some reason) = during reason

unfoldable pub finish_decoder : LineDecoderState → LineDecoderState × List DecodedRecord
finish_decoder s = (
  fresh,
  (if not (is_empty s.buffer) || s.pending_cr || is_some s.discard_reason
      then discarded (reason_or_incomplete s.discard_reason) s.buffer ∷ []
      else []),
)
