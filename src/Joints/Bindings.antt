-- ===== src/Joints/Bindings.antt =====
-- The bindings of a profile: one for each joint, and no two for the same joint of the model.
use mathlib.Core.Path.{subst}
use aethor_studio_v.Prelude.{
  ℕ, true, false, not, List, [], ◌∷◌, Text, map, text_mem, Result, ok, ◌>>◌, guard, guard-eq-ok,
  >>=-eq-ok, ◌≡◌, refl, ap, arith,
}
use aethor_studio_v.Joints.{
  RobotJointProfile, JointBinding, JointError, duplicate_joint_name, duplicate_protocol_index,
  index_mem, binding_of, admit_joint, resolve_from, resolve_joint_bindings,
}

module _ {F : Type 0} where
  -- The bindings of joints behind others with these names and indices: available, and apart from all
  -- that come before.
  abbrev pub AreApart : List Text → List Text → List ℕ → List (JointBinding F) → Type 0
  AreApart available names indices [] = Unit
  AreApart available names indices (b ∷ l) =
      (text_mem b.urdf_joint_name available ≡ true)
      × (text_mem b.urdf_joint_name names ≡ false)
      × (index_mem b.protocol_index indices ≡ false)
      × AreApart available (b.urdf_joint_name ∷ names) (b.protocol_index ∷ indices) l

  ok-injective :
      (a b : List (JointBinding F))
      → ◌≡◌ {A = Result JointError (List (JointBinding F))} (ok a) (ok b)
      → a ≡ b
  ok-injective a b h = cc

  admit_joint-ok :
      (joint : RobotJointProfile F) (available names : List Text) (indices : List ℕ) {u : Unit {0}}
      → admit_joint joint available names indices ≡ ok u
      → (text_mem joint.urdf_joint_name available ≡ true)
        × (text_mem joint.urdf_joint_name names ≡ false)
        × (index_mem joint.protocol_index indices ≡ false)
  unfolding admit_joint
  admit_joint-ok joint available names indices h =
      let new_name =
        guard (not (text_mem joint.urdf_joint_name names))
          (duplicate_joint_name joint.urdf_joint_name) in
      let new_index =
        guard (not (index_mem joint.protocol_index indices))
          (duplicate_protocol_index joint.protocol_index) in
      let (v, both, there) = >>=-eq-ok (new_name >> new_index) _ h in
      let (w, named, indexed) = >>=-eq-ok new_name _ both in
      (
        guard-eq-ok _ _ there,
        ground (arith, guard-eq-ok _ _ named),
        ground (arith, guard-eq-ok _ _ indexed),
      )

  resolve_from-AreApart :
      (joints : List (RobotJointProfile F)) (available names : List Text) (indices : List ℕ)
      {l : List (JointBinding F)}
      → resolve_from joints available names indices ≡ ok l
      → (l ≡ map binding_of joints) × AreApart available names indices l
  unfolding resolve_from
  resolve_from-AreApart [] available names indices {l} h =
      subst (λ x. (x ≡ []) × AreApart available names indices x) (ok-injective [] l h) (refl, tt)
  resolve_from-AreApart (joint ∷ joints) available names indices {l} h =
      let (rest, before, same) =
        >>=-eq-ok
          (admit_joint joint available names indices
            >> resolve_from joints available (joint.urdf_joint_name ∷ names)
                (joint.protocol_index ∷ indices))
          _ h in
      let (u, admitted, resolved) =
        >>=-eq-ok (admit_joint joint available names indices) _ before in
      let (there, new_name, new_index) = admit_joint-ok joint available names indices admitted in
      let (all_bound, apart) =
        resolve_from-AreApart joints available (joint.urdf_joint_name ∷ names)
          (joint.protocol_index ∷ indices) resolved in
      subst (λ x. (x ≡ map binding_of (joint ∷ joints)) × AreApart available names indices x)
        (ok-injective (binding_of joint ∷ rest) l same)
        (ap (λ x. binding_of joint ∷ x) all_bound, (there, new_name, new_index, apart))

  -- Joints that are bound without an error: there is one binding for each joint of the profile, in
  -- order and with its data; its URDF name is available, and no earlier one has its URDF name or its
  -- protocol index.
  pub resolve_joint_bindings-AreApart :
      (joints : List (RobotJointProfile F)) (available : List Text) {l : List (JointBinding F)}
      → resolve_joint_bindings joints available ≡ ok l
      → (l ≡ map binding_of joints) × AreApart available [] [] l
  unfolding resolve_joint_bindings
  resolve_joint_bindings-AreApart joints available h =
      resolve_from-AreApart joints available [] [] h
