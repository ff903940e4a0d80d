-- ===== src/Twin/Frames.antt =====
-- `isSupportedFrame` and `isIdentityToken` of AethorTwinFrameCoordinator.ts: the frames that the
-- coordinator takes at all. `date_parse` is `Date.parse`.
use aethor_studio_v.Prelude.{
  ℕ, ℤ, leb_ℤ, Bool, true, false, not, ◌&&◌, ◌||◌, Option, none, some, List, [], ◌∷◌, Text, length,
  all, leb, ◌==◌, text_eq, codes,
}
use aethor_studio_v.Contracts.{
  Number, whole, integer_within, Floats, AethorArmMotorSample, AethorArmMotorFrame,
}

-- `[A-Za-z0-9._-]`
abbrev pub is_identity_unit : ℕ → Bool
is_identity_unit c =
    leb b'A' c && leb c b'Z'
    || leb b'a' c && leb c b'z'
    || leb b'0' c && leb c b'9'
    || c == b'.'
    || c == b'_'
    || c == b'-'

unfoldable pub is_identity_token : Text → Bool
is_identity_token value =
    leb 1 (length value) && leb (length value) 64 && all is_identity_unit value

-- Equality of the keys of a `Set` of numbers, for integers.
abbrev pub number_eq : Number → Number → Bool
number_eq (whole a) (whole b) = leb_ℤ a b && leb_ℤ b a
number_eq _ _ = false

abbrev pub number_mem : Number → List Number → Bool
number_mem n [] = false
number_mem n (m ∷ l) = number_eq m n || number_mem n l

-- `new Set(ids).size === ids.length`, for integers.
unfoldable pub are_distinct : List Number → Bool
are_distinct [] = true
are_distinct (n ∷ l) = not (number_mem n l) && are_distinct l

abbrev pub is_unexpected_motor_id : Number → Bool
is_unexpected_motor_id n = integer_within 0 255 n && not (integer_within 1 7 n)

unfoldable pub supported_unexpected_ids : Option (List Number) → Bool
supported_unexpected_ids none = true
supported_unexpected_ids (some ids) =
    leb (length ids) 32 && are_distinct ids && all is_unexpected_motor_id ids

abbrev pub is_dated : Option ℤ → Bool
is_dated none = false
is_dated (some time) = true

abbrev pub is_arm : Text → Bool
is_arm group = text_eq group (codes "left-arm") || text_eq group (codes "right-arm")

module _ {F : Type 0} (floats : Floats F) where
  unfoldable pub is_supported_sample : AethorArmMotorSample F → Bool
  is_supported_sample motor =
      integer_within 0 255 motor.motor_id
      && floats.is_finite motor.position_deg
      && floats.is_finite motor.feedback_age_ms
      && floats.le (floats.of_ℕ 0) motor.feedback_age_ms
      && floats.le motor.feedback_age_ms (floats.of_ℕ 65535)

module _ {F : Type 0} (floats : Floats F) (date_parse : Text → Option ℤ) where
  unfoldable pub is_supported_frame : AethorArmMotorFrame F → Bool
  is_supported_frame frame =
      text_eq frame.contract_version (codes "1.0")
      && text_eq frame.profile_id (codes "aethor-robo-dual-7dof")
      && is_arm frame.joint_group_id
      && is_identity_token frame.controller_id
      && is_identity_token frame.arm_id
      && is_identity_token frame.boot_id
      && integer_within 0 0xffffffff frame.frame_seq
      && is_dated (date_parse frame.received_at_utc)
      && leb (length frame.motors) 32
      && all (is_supported_sample floats) frame.motors
      && supported_unexpected_ids frame.unexpected_motor_ids
