-- ===== src/Terminal.antt =====
-- What the terminal page says of a command before it is sent:
-- apps/studio-web/src/domain/dummyCommand.ts and aethorCandidateCommand.ts.
pub mod Candidate
mod Tests
use aethor_studio_v.Prelude.{
  Bool, true, false, not, Option, none, some, List, [], ◌∷◌, ◌++◌, Text, codes, if◌then◌else◌,
  text_eq, trim, Result, err, ok, ◌>>=◌,
}
use aethor_studio_v.Numerals.{to_radix}
use aethor_studio_v.DummyAscii.Commands.{
  Decimals, DummyCommandKind, system, query, mode, joints, DummyCommandRisk, low, medium, high,
  DummyCommandValidationCode, DummyRawCommandValidation, empty, too_long, multiline, non_ascii,
  mode_not_allowed, command_not_allowed, argument_count, invalid_number, motion_line_too_long,
  validate_dummy_raw_command,
}
use aethor_studio_v.DummyAscii.Commands
use aethor_studio_v.AethorAscii.Frames
use aethor_studio_v.AethorAscii.{AsciiError}
use aethor_studio_v.AethorAscii.Frames.{
  Frame, FrameKind, InvalidCode, ParseResult, Request, is_req, format_request, parse_frame,
}

pub record CommandValidation : Type 0 where
  pub valid : Bool
  pub kind : Text
  pub message : Text
  pub risk : DummyCommandRisk

-- `invalidMessages`
abbrev pub invalid_message : DummyCommandValidationCode → Text
invalid_message empty = codes "命令不能为空"
invalid_message too_long = codes "命令超过 Dummy 固件行长度上限"
invalid_message multiline = codes "每次只能校验一条命令"
invalid_message non_ascii = codes "命令只能包含可打印 ASCII 字符"
invalid_message mode_not_allowed = codes "Aethor Studio V2 仅允许 Dummy 模式 1–3"
invalid_message command_not_allowed = codes "命令不在 V2 结构化白名单内"
invalid_message argument_count = codes "关节组命令必须包含六个关节值和可选速度"
invalid_message invalid_number = codes "关节组命令包含非法数值或非正速度"
invalid_message motion_line_too_long = codes "运动命令超过固件 FIFO 单项容量"

abbrev pub kind_name : DummyCommandKind → Text
kind_name system = codes "SYSTEM"
kind_name query = codes "QUERY"
kind_name mode = codes "MODE"
kind_name joints = codes "JOINT GROUP"

abbrev pub valid_message : DummyCommandKind → Text
valid_message query = codes "只读查询格式有效；离线状态不会发送"
valid_message _ = codes "命令格式有效；真实发送仍需后端权限与安全门"

abbrev pub invalid_command : Text → CommandValidation
invalid_command message = record {
  valid = false;
  kind = codes "INVALID";
  message = message;
  risk = low;
}

abbrev pub describe : DummyRawCommandValidation → CommandValidation
describe (Commands.invalid code) = invalid_command (invalid_message code)
describe (Commands.valid kind risk normalized) = record {
  valid = true;
  kind = kind_name kind;
  message = valid_message kind;
  risk = risk;
}

unfoldable pub validate_dummy_command : {F : Type 0} → Decimals F → Text → CommandValidation
validate_dummy_command numbers raw = describe (validate_dummy_raw_command numbers raw)

-- `operationPolicy`
unfoldable pub operation_policy : List (Text × (Text × DummyCommandRisk))
operation_policy =
    (codes "HELLO", (codes "HANDSHAKE", low))
    ∷ (codes "GET_INFO", (codes "QUERY", low))
    ∷ (codes "GET_CONFIG", (codes "QUERY", low))
    ∷ (codes "GET_STATE", (codes "QUERY", low))
    ∷ (codes "GET_JPOS", (codes "QUERY", low))
    ∷ (codes "GET_MOTORS", (codes "QUERY", low))
    ∷ (codes "GET_DIAG", (codes "QUERY", low))
    ∷ (codes "HEARTBEAT", (codes "HEARTBEAT", low))
    ∷ (codes "SET_STREAM", (codes "STREAM", medium))
    ∷ (codes "ALIGN_REFERENCE", (codes "REFERENCE", high))
    ∷ (codes "ENABLE", (codes "SYSTEM", high))
    ∷ (codes "STOP", (codes "SYSTEM", high))
    ∷ (codes "DISABLE", (codes "SYSTEM", high))
    ∷ (codes "CLEAR_FAULT", (codes "SYSTEM", high))
    ∷ (codes "MOVE_JOINTS", (codes "JOINT GROUP", high))
    ∷ []

abbrev pub find_policy :
    Text → List (Text × (Text × DummyCommandRisk)) → Option (Text × DummyCommandRisk)
find_policy operation [] = none
find_policy operation ((name, policy) ∷ l) =
    if text_eq operation name then some policy else find_policy operation l

-- `validationMessages`
abbrev pub validation_message : InvalidCode → Text
validation_message Frames.empty = codes "命令不能为空"
validation_message Frames.too_long = codes "命令超过 Aethor Arm v1 的 512-byte 行长边界"
validation_message Frames.multiline = codes "每次只校验一条 Aethor Arm 协议帧"
validation_message Frames.non_ascii = codes "协议只允许可打印 ASCII 字符"
validation_message Frames.bad_frame = codes "帧结构、字段语法或大写 CRC 文本不符合 Aethor Arm v1"
validation_message Frames.bad_crc = codes "CRC-16/CCITT-FALSE 校验失败"
validation_message Frames.unknown_operation = codes "operation 不在 Aethor Arm v1 软件白名单中"
validation_message Frames.sequence_out_of_range = codes "request_id 必须位于 1…4294967295"

unfoldable pub format_aethor_candidate_request : Request → Result AsciiError Text
format_aethor_candidate_request request = format_request request

unfoldable pub verified_message : Frame → Text
verified_message frame =
    codes "CRC VERIFIED · request " ++ to_radix 10 frame.sequence ++ codes " · " ++ frame.subject

abbrev pub with_policy : Frame → Option (Text × DummyCommandRisk) → CommandValidation
with_policy frame none = invalid_command (codes "operation 不在 Aethor Arm v1 软件白名单中")
with_policy frame (some (kind, risk)) = record {
  valid = true;
  kind = kind;
  message = verified_message frame;
  risk = risk;
}

abbrev pub judge : ParseResult → CommandValidation
judge (Frames.invalid code) = invalid_command (validation_message code)
judge (Frames.valid frame) =
    if not (is_req frame.kind)
    then invalid_command (codes "终端输入只接受 REQ 请求帧")
    else with_policy frame (find_policy frame.subject operation_policy)

-- The parser may throw, as its own model has it.
unfoldable pub validate_aethor_candidate_command : Text → Result AsciiError CommandValidation
validate_aethor_candidate_command raw =
    if not (text_eq raw (trim raw))
    then ok (invalid_command (codes "帧首尾不能包含空格；CRC 覆盖精确 ASCII body"))
    else parse_frame raw >>= λ parsed. ok (judge parsed)
