-- ===== src/Joints.antt =====
-- apps/studio-web/src/domain/jointInteraction.ts: the joints of a profile bound to the joints of a
-- URDF model, and the target that a slider or a key gives. `F` is the type of JavaScript's numbers.
pub mod Bindings
mod Tests
use aethor_studio_v.Prelude.{
  ℕ, ◌==◌, Bool, true, false, not, ◌||◌, Option, none, some, List, [], ◌∷◌, Text, codes,
  if◌then◌else◌, text_eq, text_mem, Result, err, ok, ◌>>=◌, ◌>>◌, guard,
}

-- The fields of `RobotJointProfile` that are read here.
pub record RobotJointProfile (F : Type 0) : Type 0 where
  pub joint_id : Text
  pub urdf_joint_name : Text
  pub protocol_index : ℕ
  pub lower_deg : F
  pub upper_deg : F

pub record JointBinding (F : Type 0) : Type 0 where
  pub joint_id : Text
  pub urdf_joint_name : Text
  pub protocol_index : ℕ
  pub lower_deg : F
  pub upper_deg : F

pub data JointError : Type 0 where
  duplicate_joint_name missing_joint : Text → JointError
  duplicate_protocol_index : ℕ → JointError

abbrev pub index_mem : ℕ → List ℕ → Bool
index_mem n [] = false
index_mem n (m ∷ l) = n == m || index_mem n l

module _ {F : Type 0} where
  abbrev pub binding_of : RobotJointProfile F → JointBinding F
  binding_of joint = record {
    joint_id = joint.joint_id;
    urdf_joint_name = joint.urdf_joint_name;
    protocol_index = joint.protocol_index;
    lower_deg = joint.lower_deg;
    upper_deg = joint.upper_deg;
  }

  -- The guards for a joint, with the names and indices seen so far.
  unfoldable pub admit_joint :
      RobotJointProfile F → List Text → List Text → List ℕ → Result JointError (Unit {0})
  admit_joint joint available names indices =
      guard (not (text_mem joint.urdf_joint_name names))
        (duplicate_joint_name joint.urdf_joint_name)
      >> guard (not (index_mem joint.protocol_index indices))
          (duplicate_protocol_index joint.protocol_index)
      >> guard (text_mem joint.urdf_joint_name available) (missing_joint joint.urdf_joint_name)

  -- The loop of `map`, with the names and indices seen so far.
  unfoldable pub resolve_from :
      List (RobotJointProfile F)
      → List Text
      → List Text
      → List ℕ
      → Result JointError (List (JointBinding F))
  resolve_from [] available names indices = ok []
  resolve_from (joint ∷ joints) available names indices =
      admit_joint joint available names indices
      >> resolve_from joints available (joint.urdf_joint_name ∷ names)
          (joint.protocol_index ∷ indices)
      >>= λ bindings. ok (binding_of joint ∷ bindings)

  unfoldable pub resolve_joint_bindings :
      List (RobotJointProfile F) → List Text → Result JointError (List (JointBinding F))
  resolve_joint_bindings joints available = resolve_from joints available [] []

  abbrev pub find_joint : ℕ → List (RobotJointProfile F) → Option (RobotJointProfile F)
  find_joint index [] = none
  find_joint index (joint ∷ joints) =
      if joint.protocol_index == index then some joint else find_joint index joints

-- `Number.isFinite`, `Math.min` and `Math.max`.
module _ {F : Type 0} (is_finite : F → Bool) (minimum : F → F → F) (maximum : F → F → F) where
  abbrev pub clamp_to : Option (RobotJointProfile F) → F → Option F
  clamp_to none number = none
  clamp_to (some joint) number =
      if is_finite number
      then some (minimum joint.upper_deg (maximum joint.lower_deg number))
      else none

  unfoldable pub clamp_joint_target_deg : List (RobotJointProfile F) → ℕ → F → Option F
  clamp_joint_target_deg joints index number = clamp_to (find_joint index joints) number

-- `one` and `tenth` are the literals 1 and 0.1.
unfoldable pub get_joint_keyboard_nudge_deg :
    {F : Type 0} → F → F → (F → F) → Text → Bool → Option F
get_joint_keyboard_nudge_deg one tenth negate key shift_key =
    let magnitude = if shift_key then one else tenth in
    if text_eq key (codes "ArrowLeft") || text_eq key (codes "ArrowDown")
    then some (negate magnitude)
    else if text_eq key (codes "ArrowRight") || text_eq key (codes "ArrowUp")
    then some magnitude
    else none
