-- ===== src/Twin/Order.antt =====
-- Which frames of an arm follow one another, and what a commit hands over.
use mathlib.Core.Path.{subst}
use aethor_studio_v.Prelude.{
  ℕ, ℤ, ltb_ℤ, Bool, true, false, ◌&&◌, Option, none, some, List, [], ◌∷◌, Text, lookup, insert,
  lookup-insert_self, lookup-insert_ne, text_eq, eq_of_text_eq, ◌≡◌, refl, sym, ◌∙◌, arith,
  Bool-cases, Option-cases, inl, inr,
}
use aethor_studio_v.Contracts.{Number, whole, Floats, AethorArmMotorFrame}
use aethor_studio_v.Twin.Frames.{is_supported_frame}
use aethor_studio_v.Twin.{
  Coordinator, GroupIngressState, source_of, new_ingress, advance, accept_sequence, accept_after,
  stored, admit, ingest, received, rejected, accepted, run_scheduled, flush_now, commit_pending,
  commit_frames, number_le,
}
use aethor_studio_v.Twin.Counts.{Call, ingested, scheduled, flushed, was_reset, call, calls}

-- `a < b`, for integers.
abbrev pub number_lt : Number → Number → Bool
number_lt (whole a) (whole b) = ltb_ℤ a b
number_lt _ _ = false

module _ {F : Type 0} (date_parse : Text → Option ℤ) where
  -- The entry of a known group after an accepted frame is of the frame's source, boot and sequence,
  -- and was of its source before.
  pub advance-same_source :
      (prior : GroupIngressState) (frame : AethorArmMotorFrame F) (next : GroupIngressState)
      → advance date_parse prior frame ≡ some next
      → (prior.source_id ≡ source_of frame)
        × (next.source_id ≡ source_of frame)
        × (next.boot_id ≡ frame.boot_id)
        × (next.frame_seq ≡ frame.frame_seq)
        × ((text_eq frame.boot_id prior.boot_id && number_le frame.frame_seq prior.frame_seq)
            ≡ false)
  unfolding advance
  advance-same_source prior frame next h = ground (
    arith,
    eq_of_text_eq prior.source_id (source_of frame),
    eq_of_text_eq frame.boot_id prior.boot_id,
  )

  abbrev pub NewTo : Option GroupIngressState → AethorArmMotorFrame F → Type 0
  NewTo none frame = Unit
  NewTo (some prior) frame =
      (prior.source_id ≡ source_of frame)
      × ((text_eq frame.boot_id prior.boot_id && number_le frame.frame_seq prior.frame_seq) ≡ false)

  -- What `acceptSequence` stores, and what the group's entry was.
  abbrev pub Stored :
      List (Text × GroupIngressState)
      → AethorArmMotorFrame F
      → List (Text × GroupIngressState)
      → Type 0
  Stored ingress frame next =
      (entry : GroupIngressState) × (next ≡ insert frame.joint_group_id entry ingress)
      × (entry.source_id ≡ source_of frame)
      × (entry.boot_id ≡ frame.boot_id)
      × (entry.frame_seq ≡ frame.frame_seq)
      × NewTo (lookup frame.joint_group_id ingress) frame

  accept_sequence-Stored :
      (ingress : List (Text × GroupIngressState)) (frame : AethorArmMotorFrame F)
      (next : List (Text × GroupIngressState))
      → accept_sequence date_parse ingress frame ≡ some next
      → Stored ingress frame next
  unfolding accept_sequence
  accept_sequence-Stored ingress frame next h = known (lookup frame.joint_group_id ingress) h
    where
      known :
          (prior : Option GroupIngressState)
          → stored ingress frame.joint_group_id (accept_after date_parse prior frame) ≡ some next
          → (entry : GroupIngressState) × (next ≡ insert frame.joint_group_id entry ingress)
            × (entry.source_id ≡ source_of frame)
            × (entry.boot_id ≡ frame.boot_id)
            × (entry.frame_seq ≡ frame.frame_seq)
            × NewTo prior frame
      known none e = (new_ingress date_parse frame, cc, refl, refl, refl, tt)
      known (some prior) e = elim (Option-cases (advance date_parse prior frame)) [
        | inl stays ↦ absurd (let d = rw stays at e in cc)
        | inr (entry, moves) ↦
            let (source, source', boot, seq, new) = advance-same_source prior frame entry moves in
            (entry, (let d = rw moves at e in cc), source', boot, seq, (source, new))
      ]

-- The entry of a group, if it has one with the property `P`.
abbrev pub At : Text → (GroupIngressState → Type 0) → List (Text × GroupIngressState) → Type 0
At group P ingress = (e : GroupIngressState) × (lookup group ingress ≡ some e) × P e

abbrev pub IngestsOnly : {F : Type 0} → (AethorArmMotorFrame F → Type 0) → List (Call F) → Type 0
IngestsOnly P [] = Unit
IngestsOnly P (ingested frame now handle ∷ ks) = P frame × IngestsOnly P ks
IngestsOnly P (was_reset ∷ ks) = ⊥
IngestsOnly P (_ ∷ ks) = IngestsOnly P ks

module _ {F : Type 0} (floats : Floats F) (date_parse : Text → Option ℤ) where
  -- An accepted frame was supported and stored.
  pub accepted-Stored :
      (c : Coordinator F) (frame : AethorArmMotorFrame F) (now : ℤ) (handle : ℕ)
      → (ingest floats date_parse c frame now handle).1 ≡ true
      → (is_supported_frame floats date_parse frame ≡ true)
        × Stored date_parse c.ingress_state frame
            (ingest floats date_parse c frame now handle).0.ingress_state
  unfolding ingest received accepted rejected admit
  accepted-Stored c frame now handle h =
      elim (Bool-cases (is_supported_frame floats date_parse frame)) [
        | inr bad ↦ absurd (let e = rw bad at h in cc)
        | inl good ↦ elim (Option-cases (accept_sequence date_parse c.ingress_state frame)) [
          | inl refused ↦ absurd (let e = rw refused at (rw good at h) in cc)
          | inr (next, taken) ↦
              rw (good, taken)
                (refl, accept_sequence-Stored date_parse c.ingress_state frame next taken)
        ]
      ]

  -- A rejected frame leaves the entries as they are.
  ingest-rejected :
      (c : Coordinator F) (frame : AethorArmMotorFrame F) (now : ℤ) (handle : ℕ)
      → (ingest floats date_parse c frame now handle).1 ≡ false
      → (ingest floats date_parse c frame now handle).0.ingress_state ≡ c.ingress_state
  unfolding ingest received accepted rejected
  ingest-rejected c frame now handle h =
      elim (Option-cases (admit floats date_parse c.ingress_state frame)) [
        | inl refused ↦ rw refused refl
        | inr (next, taken) ↦ absurd (let e = rw taken at h in cc)
      ]

  -- A property of a group's entry that accepted frames keep.
  abbrev pub Keeps : Text → (GroupIngressState → Type 0) → AethorArmMotorFrame F → Type 0
  Keeps group P frame =
      (prior entry : GroupIngressState)
      → text_eq frame.joint_group_id group ≡ true
      → is_supported_frame floats date_parse frame ≡ true
      → P prior
      → prior.source_id ≡ source_of frame
      → (text_eq frame.boot_id prior.boot_id && number_le frame.frame_seq prior.frame_seq) ≡ false
      → entry.source_id ≡ source_of frame
      → entry.boot_id ≡ frame.boot_id
      → entry.frame_seq ≡ frame.frame_seq
      → P entry

  ingest-At :
      (group : Text) (P : GroupIngressState → Type 0) (c : Coordinator F)
      (frame : AethorArmMotorFrame F) (now : ℤ) (handle : ℕ)
      → Keeps group P frame
      → At group P c.ingress_state
      → At group P (ingest floats date_parse c frame now handle).0.ingress_state
  ingest-At group P c frame now handle keeps (e, found, h) =
      elim (Bool-cases (ingest floats date_parse c frame now handle).1) [
        | inr refused ↦
            subst (At group P) (sym (ingest-rejected c frame now handle refused)) (e, found, h)
        | inl taken ↦ moved (accepted-Stored c frame now handle taken)
      ]
    where
      moved :
          (is_supported_frame floats date_parse frame ≡ true)
            × Stored date_parse c.ingress_state frame
                (ingest floats date_parse c frame now handle).0.ingress_state
          → At group P (ingest floats date_parse c frame now handle).0.ingress_state
      moved (good, (entry, is, source, boot, seq, new)) =
          elim (Bool-cases (text_eq frame.joint_group_id group)) [
            | inl here ↦
                let same = eq_of_text_eq frame.joint_group_id group here in
                let (source', newer) =
                  subst (λ o. NewTo date_parse o frame) found
                    (subst (λ g. NewTo date_parse (lookup g c.ingress_state) frame) same new) in
                (
                  entry,
                  subst (λ m. lookup group m ≡ some entry) (sym is)
                      (subst
                        (λ g.
                          lookup g (insert frame.joint_group_id entry c.ingress_state) ≡ some entry)
                        same (lookup-insert_self frame.joint_group_id entry c.ingress_state)),
                  keeps e entry here good h source' newer source boot seq,
                )
            | inr away ↦ (
              e,
              subst (λ m. lookup group m ≡ some e) (sym is)
                  (lookup-insert_ne frame.joint_group_id group entry c.ingress_state away ∙ found),
              h,
            )
          ]

  commit-same_entries :
      (c : Coordinator F) (p : List (Text × AethorArmMotorFrame F)) (now : ℤ)
      → (commit_frames c p now).0.ingress_state ≡ c.ingress_state
  unfolding commit_frames
  commit-same_entries c [] now = refl
  commit-same_entries c (f ∷ p) now = refl

  pub calls-At :
      (group : Text) (P : GroupIngressState → Type 0) (c : Coordinator F) (ks : List (Call F))
      → IngestsOnly (Keeps group P) ks
      → At group P c.ingress_state
      → At group P (calls floats date_parse c ks).ingress_state
  unfolding calls call run_scheduled flush_now commit_pending
  calls-At group P c [] only h = h
  calls-At group P c (ingested frame now handle ∷ ks) (keeps, only) h =
      calls-At group P (ingest floats date_parse c frame now handle).0 ks only
        (ingest-At group P c frame now handle keeps h)
  calls-At group P c (scheduled now ∷ ks) only h =
      calls-At group P (call floats date_parse c (scheduled now)) ks only (
        subst (At group P)
          (sym (commit-same_entries (record c { scheduled_handle = none }) c.pending_frames now)) h)
  calls-At group P c (flushed now ∷ ks) only h =
      calls-At group P (call floats date_parse c (flushed now)) ks only (
        subst (At group P)
          (sym (commit-same_entries (record c { scheduled_handle = none }) c.pending_frames now)) h)
  calls-At group P c (was_reset ∷ ks) only h = absurd only
