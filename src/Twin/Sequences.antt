-- ===== src/Twin/Sequences.antt =====
-- The frames that an arm takes one after the other, between two resets.
use mathlib.Core.Path.{subst}
use aethor_studio_v.Prelude.{
  ℕ, ℤ, pos, negsuc, true, false, ◌&&◌, Option, some, List, [], ◌∷◌, Text, lookup,
  lookup-insert_self, text_eq, text_eq_refl, ◌≡◌, ap, sym, ◌∙◌, ◌⊎◌, arith, inl, inr,
}
use aethor_studio_v.Contracts.{Number, whole, other, integer_within, Floats, AethorArmMotorFrame}
use aethor_studio_v.Twin.Frames.{is_supported_frame}
use aethor_studio_v.Twin.{Coordinator, GroupIngressState, source_of, ingest, number_le}
use aethor_studio_v.Twin.Counts.{Call, ingested, scheduled, flushed, was_reset, calls}
use aethor_studio_v.Twin.Order.{number_lt, At, NewTo, Keeps, IngestsOnly, accepted-Stored, calls-At}

abbrev pub NoReset : {F : Type 0} → List (Call F) → Type 0
NoReset = IngestsOnly (λ frame. Unit {0})

IngestsOnly-map :
    {F : Type 0} (P Q : AethorArmMotorFrame F → Type 0) (ks : List (Call F))
    → ((frame : AethorArmMotorFrame F) → P frame → Q frame)
    → IngestsOnly P ks
    → IngestsOnly Q ks
IngestsOnly-map P Q [] f h = tt
IngestsOnly-map P Q (ingested frame now handle ∷ ks) f (h, hs) =
    (f frame h, IngestsOnly-map P Q ks f hs)
IngestsOnly-map P Q (was_reset ∷ ks) f h = absurd h
IngestsOnly-map P Q (scheduled now ∷ ks) f h = IngestsOnly-map P Q ks f h
IngestsOnly-map P Q (flushed now ∷ ks) f h = IngestsOnly-map P Q ks f h

number_lt_trans :
    (high : ℕ) (a b c : Number)
    → integer_within 0 high b ≡ true
    → integer_within 0 high c ≡ true
    → number_le a b ≡ true
    → number_le c b ≡ false
    → (number_lt a c ≡ true) × (number_le a c ≡ true)
number_lt_trans high (whole a) (whole (pos b)) (whole (pos c)) hb hc le nle = ground arith
number_lt_trans high other b c hb hc le nle = absurd (let e = le in cc)
number_lt_trans high (whole a) other c hb hc le nle = absurd (let e = hb in cc)
number_lt_trans high (whole a) (whole (negsuc b)) c hb hc le nle = absurd (let e = hb in cc)
number_lt_trans high (whole a) (whole (pos b)) other hb hc le nle = absurd (let e = hc in cc)
number_lt_trans high (whole a) (whole (pos b)) (whole (negsuc c)) hb hc le nle =
    absurd (let e = hc in cc)

number_le_refl : (high : ℕ) (a : Number) → integer_within 0 high a ≡ true → number_le a a ≡ true
number_le_refl high (whole (pos n)) h = ground arith
number_le_refl high (whole (negsuc n)) h = cc
number_le_refl high other h = cc

module _ {F : Type 0} (floats : Floats F) (date_parse : Text → Option ℤ) where
  supported-integer :
      (frame : AethorArmMotorFrame F)
      → is_supported_frame floats date_parse frame ≡ true
      → integer_within 0 0xffffffff frame.frame_seq ≡ true
  unfolding is_supported_frame
  supported-integer frame h = ground arith

  stored-At :
      (P : GroupIngressState → Type 0) (c : Coordinator F) (frame : AethorArmMotorFrame F) (now : ℤ)
      (handle : ℕ)
      → (ingest floats date_parse c frame now handle).1 ≡ true
      → ((e : GroupIngressState)
          → is_supported_frame floats date_parse frame ≡ true
          → e.source_id ≡ source_of frame
          → e.boot_id ≡ frame.boot_id
          → e.frame_seq ≡ frame.frame_seq
          → P e)
      → At frame.joint_group_id P (ingest floats date_parse c frame now handle).0.ingress_state
  stored-At P c frame now handle taken p =
      let (good, (e, is, source, boot, seq, new)) =
        accepted-Stored floats date_parse c frame now handle taken in
      (
        e,
        subst (λ m. lookup frame.joint_group_id m ≡ some e) (sym is)
            (lookup-insert_self frame.joint_group_id e c.ingress_state),
        p e good source boot seq,
      )

  -- What an accepted frame says of the entry that its group had.
  was-At :
      (P : GroupIngressState → Type 0) (c : Coordinator F) (frame : AethorArmMotorFrame F) (now : ℤ)
      (handle : ℕ)
      → (ingest floats date_parse c frame now handle).1 ≡ true
      → At frame.joint_group_id P c.ingress_state
      → (e : GroupIngressState) × P e
        × NewTo date_parse (some e) frame
        × (is_supported_frame floats date_parse frame ≡ true)
  was-At P c frame now handle taken (e, found, h) =
      let (good, (e', is, source, boot, seq, new)) =
        accepted-Stored floats date_parse c frame now handle taken in
      (e, h, subst (λ o. NewTo date_parse o frame) found new, good)

  -- Between two resets an arm takes frames of one controller and arm only: if a frame is accepted
  -- and later, without a reset in between, another one of the same joint group, then both have the
  -- same controller id and arm id (as the joined text of the two).
  pub accepted-same_source :
      (c : Coordinator F) (first : AethorArmMotorFrame F) (now : ℤ) (handle : ℕ)
      (ks : List (Call F)) (second : AethorArmMotorFrame F) (now' : ℤ) (handle' : ℕ)
      → (ingest floats date_parse c first now handle).1 ≡ true
      → NoReset ks
      → second.joint_group_id ≡ first.joint_group_id
      → (ingest floats date_parse
          (calls floats date_parse (ingest floats date_parse c first now handle).0 ks)
          second
          now'
          handle').1
        ≡ true
      → source_of second ≡ source_of first
  accepted-same_source c first now handle ks second now' handle' taken no_reset group taken' =
      let (e, is, (source, newer), good) =
        was-At P (calls floats date_parse (ingest floats date_parse c first now handle).0 ks) second
          now' handle' taken'
          (subst
            (λ g.
              At g P
                (calls floats date_parse (ingest floats date_parse c first now handle).0
                  ks).ingress_state)
            (sym group) later) in
      sym source ∙ is
    where
      P : GroupIngressState → Type 0
      P e = e.source_id ≡ source_of first

      later :
          At first.joint_group_id P
            (calls floats date_parse
              (ingest floats date_parse c first now handle).0
              ks).ingress_state
      later =
          calls-At floats date_parse first.joint_group_id P
            (ingest floats date_parse c first now handle).0 ks
            (IngestsOnly-map (λ frame. Unit {0}) (Keeps floats date_parse first.joint_group_id P) ks
              (λ frame u prior entry here good h source newer source' boot seq.
                source' ∙ sym source ∙ h)
              no_reset)
            (stored-At P c first now handle taken (λ e good source boot seq. source))

  -- Frames of the group that are of this boot.
  abbrev pub OfBoot : Text → Text → AethorArmMotorFrame F → Type 0
  OfBoot group boot frame = (text_eq frame.joint_group_id group ≡ false) ⊎ (frame.boot_id ≡ boot)

  -- A frame that is accepted after another of its joint group and boot has a greater sequence
  -- number, if in between there is no reset and no frame of the group is of another boot.
  pub accepted-increasing :
      (c : Coordinator F) (first : AethorArmMotorFrame F) (now : ℤ) (handle : ℕ)
      (ks : List (Call F)) (second : AethorArmMotorFrame F) (now' : ℤ) (handle' : ℕ)
      → (ingest floats date_parse c first now handle).1 ≡ true
      → IngestsOnly (OfBoot first.joint_group_id first.boot_id) ks
      → second.joint_group_id ≡ first.joint_group_id
      → second.boot_id ≡ first.boot_id
      → (ingest floats date_parse
          (calls floats date_parse (ingest floats date_parse c first now handle).0 ks)
          second
          now'
          handle').1
        ≡ true
      → number_lt first.frame_seq second.frame_seq ≡ true
  accepted-increasing c first now handle ks second now' handle' taken only group boot' taken' =
      let (e, (boot, le, within), (source, newer), good) =
        was-At P (calls floats date_parse (ingest floats date_parse c first now handle).0 ks) second
          now' handle' taken'
          (subst
            (λ g.
              At g P
                (calls floats date_parse (ingest floats date_parse c first now handle).0
                  ks).ingress_state)
            (sym group) stays) in
      (number_lt_trans 0xffffffff first.frame_seq e.frame_seq second.frame_seq within
        (supported-integer second good) le (newer_than e second (boot' ∙ sym boot) newer)).0
    where
      P : GroupIngressState → Type 0
      P e =
          (e.boot_id ≡ first.boot_id)
          × (number_le first.frame_seq e.frame_seq ≡ true)
          × (integer_within 0 0xffffffff e.frame_seq ≡ true)

      newer_than :
          (e : GroupIngressState) (frame : AethorArmMotorFrame F)
          → frame.boot_id ≡ e.boot_id
          → (text_eq frame.boot_id e.boot_id && number_le frame.frame_seq e.frame_seq) ≡ false
          → number_le frame.frame_seq e.frame_seq ≡ false
      newer_than e frame same newer =
          sym (
            ap (λ b. b && number_le frame.frame_seq e.frame_seq)
              (ap (λ t. text_eq t e.boot_id) same ∙ text_eq_refl e.boot_id))
          ∙ newer

      keeps :
          (frame : AethorArmMotorFrame F)
          → OfBoot first.joint_group_id first.boot_id frame
          → Keeps floats date_parse first.joint_group_id P frame
      keeps frame (inl other_group) prior entry here good h source newer source' boot' seq =
          absurd (let e = sym here ∙ other_group in cc)
      keeps frame (inr boot) prior entry here good (was, le, within) source newer source' boot'
            seq =
          (
            boot' ∙ boot,
            subst (λ n. number_le first.frame_seq n ≡ true) (sym seq)
                (number_lt_trans 0xffffffff first.frame_seq prior.frame_seq frame.frame_seq within
                  (supported-integer frame good) le
                  (newer_than prior frame (boot ∙ sym was) newer)).1,
            subst (λ n. integer_within 0 0xffffffff n ≡ true) (sym seq)
                (supported-integer frame good),
          )

      stays :
          At first.joint_group_id P
            (calls floats date_parse
              (ingest floats date_parse c first now handle).0
              ks).ingress_state
      stays =
          calls-At floats date_parse first.joint_group_id P
            (ingest floats date_parse c first now handle).0 ks
            (IngestsOnly-map (OfBoot first.joint_group_id first.boot_id)
              (Keeps floats date_parse first.joint_group_id P) ks keeps only)
            (stored-At P c first now handle taken (λ e good source boot seq. (
              boot,
              subst (λ n. number_le first.frame_seq n ≡ true) (sym seq)
                  (number_le_refl 0xffffffff first.frame_seq (supported-integer first good)),
              subst (λ n. integer_within 0 0xffffffff n ≡ true) (sym seq)
                  (supported-integer first good),
            )))
