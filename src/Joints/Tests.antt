-- ===== src/Joints/Tests.antt =====
-- Two joints of a model, and a profile that names one of them twice.
use aethor_studio_v.Prelude.{
  ℕ, true, List, [], ◌∷◌, Text, codes, map, ok, err, some, min, max, ◌≡◌, refl,
}
use aethor_studio_v.Joints.{
  RobotJointProfile, duplicate_joint_name, binding_of, admit_joint, resolve_from,
  resolve_joint_bindings, clamp_joint_target_deg,
}
use aethor_studio_v.Joints.Bindings.{AreApart, resolve_joint_bindings-AreApart}

abbrev joint_of : Text → ℕ → RobotJointProfile ℕ
joint_of name index = record {
  joint_id = name;
  urdf_joint_name = name;
  protocol_index = index;
  lower_deg = 10;
  upper_deg = 90;
}

abbrev joints : List (RobotJointProfile ℕ)
joints = joint_of (codes "j1") 0 ∷ joint_of (codes "j2") 1 ∷ []

abbrev names : List Text
names = codes "base" ∷ codes "j2" ∷ codes "j1" ∷ []

bound : resolve_joint_bindings joints names ≡ ok (map binding_of joints)
unfolding resolve_joint_bindings resolve_from admit_joint
bound = refl

twice :
    resolve_joint_bindings (joint_of (codes "j1") 0 ∷ joint_of (codes "j1") 1 ∷ []) names
    ≡ err (duplicate_joint_name (codes "j1"))
unfolding resolve_joint_bindings resolve_from admit_joint
twice = refl

clamped : clamp_joint_target_deg (λ n. true) min max joints 1 200 ≡ some 90
unfolding clamp_joint_target_deg
clamped = refl

resolve_joint_bindings-AreApart_example :
    (map binding_of joints ≡ map binding_of joints) × AreApart names [] [] (map binding_of joints)
resolve_joint_bindings-AreApart_example = resolve_joint_bindings-AreApart joints names bound
