-- ===== src/Twin/Delivery.antt =====
-- The frame sink gets the newest accepted frame of each arm.
use mathlib.Core.Path.{subst}
use aethor_studio_v.Prelude.{
  ℕ, ℤ, true, false, Option, none, some, List, [], ◌∷◌, ◌++◌, Text, codes, lookup, insert,
  lookup-insert_self, text_eq, eq_of_text_eq, ◌≡◌, refl, ap, sym, ◌∙◌, ◌⊎◌, arith, Bool-cases,
  Option-cases, inl, inr,
}
use aethor_studio_v.Contracts.{Floats, AethorArmMotorFrame}
use aethor_studio_v.Twin.Frames.{is_arm}
use aethor_studio_v.Twin.{
  Coordinator, Commit, ingest, received, rejected, accepted, admit, run_scheduled, commit_pending,
  commit_frames, as_list, pending_of,
}
use aethor_studio_v.Twin.Counts.{admit-supported, supported-is_arm}

abbrev pub Has : {A : Type 0} → A → List A → Type 0
Has a [] = ⊥
Has a (b ∷ l) = (b ≡ a) ⊎ Has a l

Has-append_left : {A : Type 0} (a : A) (l m : List A) → Has a l → Has a (l ++ m)
Has-append_left a (b ∷ l) m (inl e) = inl e
Has-append_left a (b ∷ l) m (inr h) = inr (Has-append_left a l m h)
Has-append_left a [] m h = absurd h

Has-append_right : {A : Type 0} (a : A) (l m : List A) → Has a m → Has a (l ++ m)
Has-append_right a [] m h = h
Has-append_right a (b ∷ l) m h = inr (Has-append_right a l m h)

no_entry : {A : Type 0} (group : Text) (a : A) → lookup group [] ≡ some a → ⊥
unfolding lookup
no_entry group a h = cc

module _ {F : Type 0} where
  -- A commit hands over what an arm has.
  commit-Has :
      (c : Coordinator F) (p : List (Text × AethorArmMotorFrame F)) (now : ℤ) (group : Text)
      (frame : AethorArmMotorFrame F)
      → is_arm group ≡ true
      → lookup group p ≡ some frame
      → (commit : Commit F) × ((commit_frames c p now).1 ≡ some commit)
        × Has frame commit.frames
        × ((commit_frames c p now).0.pending_frames ≡ [])
  unfolding commit_frames
  commit-Has c [] now group frame arm found = absurd (no_entry group frame found)
  commit-Has c (q ∷ p) now group frame arm found = (
    _,
    refl,
    elim (Bool-cases (text_eq group (codes "left-arm"))) [
      | inl left ↦
          Has-append_left frame (pending_of (codes "left-arm") (q ∷ p))
            (pending_of (codes "right-arm") (q ∷ p))
            (at (codes "left-arm") (eq_of_text_eq group (codes "left-arm") left))
      | inr not_left ↦
          Has-append_right frame (pending_of (codes "left-arm") (q ∷ p))
            (pending_of (codes "right-arm") (q ∷ p))
            (at (codes "right-arm") (eq_of_text_eq group (codes "right-arm") (right not_left)))
    ],
    refl,
  )
    where
      right : text_eq group (codes "left-arm") ≡ false → text_eq group (codes "right-arm") ≡ true
      right not_left = ground arith

      at : (arm : Text) → group ≡ arm → Has frame (pending_of arm (q ∷ p))
      at arm same =
          subst (λ o. Has frame (as_list o)) (sym (ap (λ g. lookup g (q ∷ p)) (sym same) ∙ found))
            (inl refl)

module _ {F : Type 0} (floats : Floats F) (date_parse : Text → Option ℤ) where
  -- A frame that was accepted waits: the commit of the scheduled callback, if it comes next, hands
  -- it to the frame sink, whatever the coordinator held before.
  pub run_scheduled-ingest :
      (c : Coordinator F) (frame : AethorArmMotorFrame F) (now : ℤ) (handle : ℕ) (later : ℤ)
      → (ingest floats date_parse c frame now handle).1 ≡ true
      → (commit : Commit F) × ((run_scheduled
            (ingest floats date_parse c frame now handle).0
            later).1
          ≡ some commit)
        × Has frame commit.frames
        × ((run_scheduled (ingest floats date_parse c frame now handle).0 later).0.pending_frames
            ≡ [])
  unfolding ingest run_scheduled commit_pending received accepted rejected
  run_scheduled-ingest c frame now handle later taken =
      elim (Option-cases (admit floats date_parse c.ingress_state frame)) [
        | inl refused ↦ absurd (let e = rw refused at taken in cc)
        | inr (next, admitted) ↦ rw admitted (
            commit-Has
              (record (accepted (received c now) frame next handle) { scheduled_handle = none })
              (insert frame.joint_group_id frame c.pending_frames) later frame.joint_group_id frame
              (supported-is_arm floats date_parse frame
                (admit-supported floats date_parse c.ingress_state frame next admitted))
              (lookup-insert_self frame.joint_group_id frame c.pending_frames))
      ]
