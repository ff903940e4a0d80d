-- ===== src/DummyAscii/Allowed.antt =====
-- What the validator of raw Dummy commands lets through.
use mathlib.Core.Path.{subst}
use aethor_studio_v.Prelude.{
  ℕ, ◌<◌, true, false, not, ◌&&◌, ◌||◌, Option, none, some, List, [], ◌∷◌, ◌++◌, Text, codes,
  is_empty, length, ltb, leb, ◌==◌, if◌then◌else◌, All, text_eq, eq_of_text_eq, text_mem, trim,
  has_unit, starts_with, any, drop, split, ◌≡◌, refl, sym, ap, ◌∙◌, arith, Bool-cases, inl, inr,
}
use aethor_studio_v.Numerals.{value}
use aethor_studio_v.DummyAscii.{dummy_ascii_max_line_chars}
use aethor_studio_v.DummyAscii.Commands.{
  Decimals, DummyCommandKind, system, query, mode, joints, DummyCommandRisk, low, high,
  DummyRawCommandValidation, valid, invalid, dummy_ascii_motion_queue_bytes, is_allowed_mode,
  mode_digit, exact_commands, find_exact, mode_match, is_printable_text, is_bad_value,
  has_bad_speed, validate_joint_group_line, validate_other, validate_line,
  validate_dummy_raw_command,
}

abbrev pub system_lines : List Text
system_lines =
    codes "!START" ∷ codes "!STOP" ∷ codes "!DISABLE" ∷ codes "!HOME" ∷ codes "!RESET" ∷ []

abbrev pub query_lines : List Text
query_lines = codes "#GETJPOS" ∷ codes "#GETMODE" ∷ codes "#GETENABLE" ∷ []

find_exact-All :
    (P : Text → DummyCommandKind → DummyCommandRisk → Type 0) (line : Text)
    (l : List (Text × (DummyCommandKind × DummyCommandRisk))) (kind : DummyCommandKind)
    (risk : DummyCommandRisk)
    → All (λ e. P e.0 e.1.0 e.1.1) l
    → find_exact line l ≡ some (kind, risk)
    → P line kind risk
find_exact-All P line [] kind risk h e = absurd cc
find_exact-All P line ((name, (k, r)) ∷ l) kind risk (here, h) e =
    elim (Bool-cases (text_eq name line)) [
      | inl same ↦
          let found : (k, r) ≡ (kind, risk) =
            some-pair (k, r) (kind, risk)
              (sym (ap (λ b. if b then some (k, r) else find_exact line l) same) ∙ e) in
          subst (λ p. P line p.0 p.1) found
            (subst (λ t. P t k r) (eq_of_text_eq name line same) here)
      | inr other ↦
          find_exact-All P line l kind risk h
            (sym (ap (λ b. if b then some (k, r) else find_exact line l) other) ∙ e)
    ]
  where
    some-pair :
        (p q : DummyCommandKind × DummyCommandRisk)
        → ◌≡◌ {A = Option (DummyCommandKind × DummyCommandRisk)} (some p) (some q)
        → p ≡ q
    some-pair p q h = cc

module _ {F : Type 0} (numbers : Decimals F) where
  -- `>` and six finite values or six and a positive speed, shorter than a queue entry.
  pub record IsJointLine (line : Text) : Type 0 where
    pub begins : starts_with (codes ">") line ≡ true
    pub count :
        (length (split 44 (drop 1 line)) == 6 || length (split 44 (drop 1 line)) == 7) ≡ true
    pub finite : any (is_bad_value numbers) (split 44 (drop 1 line)) ≡ false
    pub speed : has_bad_speed numbers (split 44 (drop 1 line)) ≡ false
    pub short : length line < 64

  -- A line that is let through, by its kind.
  abbrev pub IsAllowed : Text → DummyCommandKind → DummyCommandRisk → Text → Type 0
  IsAllowed raw system risk line =
      (risk ≡ high) × (line ≡ trim raw) × (text_mem line system_lines ≡ true)
  IsAllowed raw query risk line =
      (risk ≡ low) × (line ≡ trim raw) × (text_mem line query_lines ≡ true)
  IsAllowed raw mode risk line =
      (risk ≡ high)
      × ((n : ℕ) × (is_allowed_mode n ≡ true) × (line ≡ codes "#CMDMODE " ++ mode_digit n))
  IsAllowed raw joints risk line = (risk ≡ high) × (line ≡ trim raw) × IsJointLine line

  -- What comes of a raw text: a line that is let through has one line of at most 255 printable
  -- characters behind it.
  abbrev pub IsSound : Text → DummyRawCommandValidation → Type 0
  IsSound raw (invalid code) = Unit
  IsSound raw (valid kind risk line) =
      (has_unit 13 raw ≡ false)
      × (has_unit 10 raw ≡ false)
      × (ltb 255 (length (trim raw)) ≡ false)
      × (is_printable_text (trim raw) ≡ true)
      × IsAllowed raw kind risk line

  -- The last part alone.
  abbrev AllowedOnly : Text → DummyRawCommandValidation → Type 0
  AllowedOnly raw (invalid code) = Unit
  AllowedOnly raw (valid kind risk line) = IsAllowed raw kind risk line

  joint_line-AllowedOnly :
      (raw : Text)
      → starts_with (codes ">") (trim raw) ≡ true
      → AllowedOnly raw (validate_joint_group_line numbers (trim raw))
  unfolding validate_joint_group_line dummy_ascii_motion_queue_bytes
  joint_line-AllowedOnly raw begins =
      let values = split 44 (drop 1 (trim raw)) in
      elim (Bool-cases (not (length values == 6) && not (length values == 7))) [
        | inl miscounted ↦ rw miscounted tt
        | inr counted ↦ elim (Bool-cases (any (is_bad_value numbers) values)) [
          | inl bad ↦ rw (counted, bad) tt
          | inr finite ↦ elim (Bool-cases (has_bad_speed numbers values)) [
            | inl slow ↦ rw (counted, finite, slow) tt
            | inr speed ↦ elim (Bool-cases (leb 64 (length (trim raw)))) [
              | inl long ↦ rw (counted, finite, speed, long) tt
              | inr short ↦
                  rw (counted, finite, speed, short)
                    (
                      refl,
                      refl,
                      record {
                        begins = begins;
                        count = ground arith;
                        finite = finite;
                        speed = speed;
                        short = ground arith;
                      },
                    )
            ]
          ]
        ]
      ]

  other-AllowedOnly :
      (raw : Text) (digits : Option Text)
      → AllowedOnly raw (validate_other numbers (trim raw) digits)
  other-AllowedOnly raw (some digits) = elim (Bool-cases (is_allowed_mode (value 10 digits))) [
    | inl allowed ↦ rw allowed (refl, (value 10 digits, allowed, refl))
    | inr refused ↦ rw refused tt
  ]
  other-AllowedOnly raw none = elim (Bool-cases (starts_with (codes ">") (trim raw))) [
    | inl begins ↦ rw begins (joint_line-AllowedOnly raw begins)
    | inr other ↦ rw other tt
  ]

  line-AllowedOnly :
      (raw : Text) (policy : Option (DummyCommandKind × DummyCommandRisk))
      → find_exact (trim raw) exact_commands ≡ policy
      → AllowedOnly raw (validate_line numbers (trim raw) policy)
  unfolding exact_commands
  line-AllowedOnly raw none e = other-AllowedOnly raw (mode_match (trim raw))
  line-AllowedOnly raw (some (kind, risk)) e =
      find_exact-All (λ line k r. line ≡ trim raw → IsAllowed raw k r line) (trim raw)
        exact_commands kind risk
        (
          λ h. (refl, h, refl),
          (
            λ h. (refl, h, refl),
            (
              λ h. (refl, h, refl),
              (
                λ h. (refl, h, refl),
                (
                  λ h. (refl, h, refl),
                  (λ h. (refl, h, refl), (λ h. (refl, h, refl), (λ h. (refl, h, refl), tt))),
                ),
              ),
            ),
          ),
        )
        e refl

  allowed-IsSound :
      (raw : Text) (v : DummyRawCommandValidation)
      → has_unit 13 raw ≡ false
      → has_unit 10 raw ≡ false
      → ltb 255 (length (trim raw)) ≡ false
      → is_printable_text (trim raw) ≡ true
      → AllowedOnly raw v
      → IsSound raw v
  allowed-IsSound raw (invalid code) cr lf fits printable h = tt
  allowed-IsSound raw (valid kind risk line) cr lf fits printable h = (cr, lf, fits, printable, h)

  -- A raw text is refused or is let through as follows. It is one line of 1 to 255 printable
  -- characters once trimmed; a system command or a query is one of the fixed lines, the queries
  -- alone with a low risk; a mode command has mode 1, 2 or 3; a joint command has six finite values,
  -- or six and a positive speed, in fewer than 64 characters.
  pub validate_dummy_raw_command-IsSound :
      (raw : Text) → IsSound raw (validate_dummy_raw_command numbers raw)
  unfolding validate_dummy_raw_command dummy_ascii_max_line_chars
  validate_dummy_raw_command-IsSound raw = elim (Bool-cases (is_empty (trim raw))) [
    | inl nothing ↦ rw nothing tt
    | inr something ↦ elim (Bool-cases (has_unit 13 raw || has_unit 10 raw)) [
      | inl lines ↦ rw (something, lines) tt
      | inr one ↦ elim (Bool-cases (ltb 255 (length (trim raw)))) [
        | inl long ↦ rw (something, one, long) tt
        | inr fits ↦ elim (Bool-cases (is_printable_text (trim raw))) [
          | inr strange ↦ rw (something, one, fits, strange) tt
          | inl printable ↦
              rw (something, one, fits, printable)
                (allowed-IsSound raw _ (ground (arith, one)) (ground (arith, one)) fits printable
                  (line-AllowedOnly raw (find_exact (trim raw) exact_commands) refl))
        ]
      ]
    ]
  ]
