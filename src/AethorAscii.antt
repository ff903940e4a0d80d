-- ===== src/AethorAscii.antt =====
-- shared/contracts/src/aethorArmAsciiV1.ts: the ASCII protocol of the Aethor arm. This file has
-- the constants, the character classes and the checksum; its children the frames and the lines.
pub mod Frames
pub mod Crc
pub mod Tokens
pub mod ReadBack
pub mod Framing
pub mod RoundTrip
pub mod Words
pub mod Keys
pub mod Parsing
pub mod Decoder
pub mod Lines
pub mod Stream
mod Tests
use Prim.Native.Nat.{bit_and, bit_xor}
use aethor_studio_v.Prelude.{
  ℕ, zero, suc, ◌*◌, ◌+◌, ◌-◌, Bool, true, false, not, ◌&&◌, ◌||◌, Option, List, [], ◌∷◌, ◌++◌, map,
  Text, codes, leb, ltb, ◌==◌, length, all, any, if◌then◌else◌, Result, ok, err, ◌>>=◌, ◌>>◌, guard,
  is_space, replicate,
}
use aethor_studio_v.Numerals.{to_radix}

abbrev pub max_line_bytes : ℕ
max_line_bytes = 512

abbrev pub line_ending : Text
line_ending = 10 ∷ []

abbrev pub uint32_max : ℕ
uint32_max = 4294967295

unfoldable pub request_operations : List Text
request_operations =
    codes "HELLO"
    ∷ codes "GET_INFO"
    ∷ codes "GET_CONFIG"
    ∷ codes "GET_STATE"
    ∷ codes "GET_JPOS"
    ∷ codes "GET_MOTORS"
    ∷ codes "GET_DIAG"
    ∷ codes "HEARTBEAT"
    ∷ codes "SET_STREAM"
    ∷ codes "ALIGN_REFERENCE"
    ∷ codes "ENABLE"
    ∷ codes "STOP"
    ∷ codes "DISABLE"
    ∷ codes "CLEAR_FAULT"
    ∷ codes "MOVE_JOINTS"
    ∷ []

-- The errors that the functions of the file throw.
pub data AsciiError : Type 0 where
  not_printable request_id_range unsupported_operation : AsciiError
  invalid_key invalid_value duplicate_field frame_too_long : AsciiError

unfoldable pub is_printable_unit : ℕ → Bool
is_printable_unit c = leb 0x20 c && leb c 0x7e

unfoldable pub is_printable_ascii : Text → Bool
unfolding is_printable_unit
is_printable_ascii s = all is_printable_unit s

unfoldable pub is_upper : ℕ → Bool
is_upper c = leb b'A' c && leb c b'Z'

unfoldable pub is_lower : ℕ → Bool
is_lower c = leb b'a' c && leb c b'z'

unfoldable pub is_digit : ℕ → Bool
is_digit c = leb b'0' c && leb c b'9'

-- `[A-Z0-9_]`
unfoldable pub is_upper_token_unit : ℕ → Bool
unfolding is_upper is_digit
is_upper_token_unit c = is_upper c || is_digit c || c == b'_'

-- `[a-z0-9_]`
unfoldable pub is_key_unit : ℕ → Bool
unfolding is_lower is_digit
is_key_unit c = is_lower c || is_digit c || c == b'_'

-- `upperTokenPattern`
unfoldable pub matches_upper_token : Text → Bool
matches_upper_token [] = false
matches_upper_token (c ∷ s) = is_upper c && all is_upper_token_unit s

-- `fieldKeyPattern`
unfoldable pub matches_field_key : Text → Bool
matches_field_key [] = false
matches_field_key (c ∷ s) = is_lower c && all is_key_unit s

-- `/[\s*=]/.test(value)`
unfoldable pub has_reserved : Text → Bool
has_reserved s = any (λ c. is_space c || c == b'*' || c == b'=') s

-- One of the eight rounds for a character.
unfoldable pub crc_bit : ℕ → ℕ
crc_bit crc =
    if bit_and crc 0x8000 == 0
    then bit_and (crc * 2) 0xffff
    else bit_and (bit_xor (crc * 2) 0x1021) 0xffff

unfoldable pub crc_bits : ℕ → ℕ → ℕ
unfolding crc_bit
crc_bits zero crc = crc
crc_bits (suc n) crc = crc_bits n (crc_bit crc)

unfoldable pub crc_text : ℕ → Text → ℕ
unfolding crc_bits
crc_text crc [] = crc
crc_text crc (c ∷ s) = crc_text (crc_bits 8 (bit_xor crc (c * 256))) s

unfoldable pub compute_crc16 : Text → Result AsciiError ℕ
unfolding crc_text is_printable_ascii
compute_crc16 body = do guard (is_printable_ascii body) not_printable; ok (crc_text 0xffff body)

-- `toUpperCase` of an ASCII character.
unfoldable pub to_upper : ℕ → ℕ
unfolding is_lower
to_upper c = if is_lower c then c - 32 else c

unfoldable pub pad_start : ℕ → ℕ → Text → Text
pad_start n c s = replicate (n - length s) c ++ s

unfoldable pub format_crc : ℕ → Text
unfolding to_radix to_upper pad_start
format_crc crc = pad_start 4 b'0' (map to_upper (to_radix 16 crc))
