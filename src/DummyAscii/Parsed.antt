-- ===== src/DummyAscii/Parsed.antt =====
-- What the parser of Dummy responses makes of a line.
use mathlib.Core.Path.{subst}
use aethor_studio_v.Prelude.{
  ℕ, true, false, not, ◌&&◌, Option, none, some, List, [], ◌∷◌, Text, codes, is_empty, leb, ◌==◌,
  text_eq, eq_of_text_eq, trim, starts_with, any, drop, ◌≡◌, refl, sym, ap, ◌∙◌, arith, Bool-cases,
  inl, inr,
}
use aethor_studio_v.Numerals.{value}
use aethor_studio_v.DummyAscii.Commands.{Decimals, is_allowed_mode}
use aethor_studio_v.DummyAscii.Responses.{
  DummySystemAck, started, stopped, disabled, homing, mode_report, mode_ack, enable, unknown,
  mode_name, find_system_ack, first_or_unknown, split_spaces, is_digits, mode_ack_match,
  parse_error, parse_queue, parse_mode, is_bit, parse_positions, parse_ok, parse_tokens,
  parse_mode_ack, parse_line, parse_dummy_response_line,
}
use aethor_studio_v.DummyAscii.Matched.{mode_ack_match-IsAckLine, starts_with-append}
use aethor_studio_v.DummyAscii.Meaning.{
  ack_text, IsReport, IsAck, is_ok_reply, is_reply, IsSix, IsParsed,
}

find_system_ack-text :
    (raw : Text) (ack : DummySystemAck) → find_system_ack raw ≡ some ack → raw ≡ ack_text ack
find_system_ack-text raw started h = ground (arith, eq_of_text_eq raw (codes "Started ok"))
find_system_ack-text raw stopped h = ground (arith, eq_of_text_eq raw (codes "Stopped ok"))
find_system_ack-text raw disabled h = ground (arith, eq_of_text_eq raw (codes "Disabled ok"))
find_system_ack-text raw homing h = ground (arith, eq_of_text_eq raw (codes "Homing ok"))

first_or_unknown-is_empty : (tokens : List Text) → is_empty (first_or_unknown tokens) ≡ false
first_or_unknown-is_empty [] = refl
first_or_unknown-is_empty (token ∷ tokens) = elim (Bool-cases (is_empty token)) [
  | inl nothing ↦ rw nothing refl
  | inr something ↦ rw something something
]

module _ {F : Type 0} (numbers : Decimals F) where
  queue-IsParsed :
      (raw : Text)
      → is_digits raw ≡ true
      → IsParsed numbers raw (parse_queue numbers raw (value 10 raw))
  unfolding parse_queue
  queue-IsParsed raw digits = elim (Bool-cases (value 10 raw == 255)) [
    | inl full ↦ rw full (refl, (digits, refl, ground (arith, full), ground (arith, full)))
    | inr other ↦ elim (Bool-cases (leb (value 10 raw) 15)) [
      | inl room ↦ rw (other, room) (refl, (digits, refl, sym room, ground (arith, room)))
      | inr far ↦ rw (other, far) (refl, (digits, ground (arith, other, far)))
    ]
  ]

  report-IsParsed :
      (raw : Text) (n : ℕ) (name : Text)
      → IsReport raw n name
      → IsParsed numbers raw (parse_mode numbers (mode_report raw) raw n name)
  unfolding parse_mode
  report-IsParsed raw n name h = elim (Bool-cases (is_allowed_mode n)) [
    | inr refused ↦ rw refused (refl, (inl h, refused))
    | inl allowed ↦ elim (Bool-cases (text_eq (mode_name n) name)) [
      | inl named ↦
          rw (allowed, named)
            (
              refl,
              (
                subst (IsReport raw n) (sym (eq_of_text_eq (mode_name n) name named)) h,
                allowed,
                refl,
              ),
            )
      | inr other ↦ rw (allowed, other) (refl, (n, name, inl h, allowed, other))
    ]
  ]

  ack-IsParsed :
      (raw : Text) (n : ℕ) (name : Text)
      → IsAck raw n name
      → IsParsed numbers raw (parse_mode numbers (mode_ack raw) raw n name)
  unfolding parse_mode
  ack-IsParsed raw n name h = elim (Bool-cases (is_allowed_mode n)) [
    | inr refused ↦ rw refused (refl, (inr h, refused))
    | inl allowed ↦ elim (Bool-cases (text_eq (mode_name n) name)) [
      | inl named ↦
          rw (allowed, named)
            (
              refl,
              (subst (IsAck raw n) (sym (eq_of_text_eq (mode_name n) name named)) h, allowed, refl),
            )
      | inr other ↦ rw (allowed, other) (refl, (n, name, inr h, allowed, other))
    ]
  ]

  positions-IsParsed :
      (raw : Text) (l : List F)
      → IsSix numbers raw l
      → IsParsed numbers raw (parse_positions numbers raw l)
  unfolding parse_positions
  positions-IsParsed raw l h = elim (Bool-cases (any (λ v. not (numbers.is_finite v)) l)) [
    | inl infinite ↦ rw infinite (refl, (l, h, infinite))
    | inr finite ↦ rw finite (refl, (h, finite))
  ]

  bit-IsParsed :
      (raw token : Text)
      → split_spaces raw ≡ codes "ok" ∷ token ∷ []
      → is_bit numbers token ≡ true
      → IsParsed numbers raw (enable raw (text_eq token (codes "1")))
  bit-IsParsed raw token words bit = elim (Bool-cases (text_eq token (codes "1"))) [
    | inl one ↦
        rw one (refl, words ∙ ap (λ t. codes "ok" ∷ t ∷ []) (eq_of_text_eq token (codes "1") one))
    | inr other ↦ rw other (
      refl,
      words
          ∙ ap (λ t. codes "ok" ∷ t ∷ [])
              (eq_of_text_eq token (codes "0") (ground (arith, bit, other))),
    )
  ]

  -- What is left if the line has no other form.
  abbrev IsRest : Text → Type 0
  IsRest raw =
      (find_system_ack raw ≡ none)
      × (text_eq raw (codes "ok") ≡ false)
      × (starts_with (codes "error") raw ≡ false)
      × (is_digits raw ≡ false)
      × (mode_ack_match raw ≡ none)

  foreign-IsParsed :
      (raw : Text)
      → IsRest raw
      → is_reply (split_spaces raw) ≡ false
      → IsParsed numbers raw (unknown raw)
  foreign-IsParsed raw (system, ok_line, failed, digits, ack) reply = (
    refl,
    inr (record {
      no_system_ack = system;
      no_ok = ok_line;
      no_error = failed;
      no_digits = digits;
      no_mode_ack = ack;
      no_reply = reply;
    }),
  )

  ok-IsParsed :
      (raw : Text) (tokens : List Text)
      → split_spaces raw ≡ codes "ok" ∷ tokens
      → IsRest raw
      → IsParsed numbers raw (parse_ok numbers raw tokens)
  ok-IsParsed raw [] words rest = foreign-IsParsed raw rest (ap is_reply words)
  ok-IsParsed raw (a ∷ []) words rest = elim (Bool-cases (is_bit numbers a)) [
    | inl bit ↦ rw bit (bit-IsParsed raw a words bit)
    | inr other ↦ rw other (foreign-IsParsed raw rest (ap is_reply words ∙ other))
  ]
  ok-IsParsed raw (a ∷ b ∷ []) words rest = elim (Bool-cases (is_digits a)) [
    | inl digits ↦ rw digits (
        report-IsParsed raw (value 10 a) b
          (record { number = a; words = words; digits = digits; read = refl }))
    | inr other ↦ rw other (foreign-IsParsed raw rest (ap is_reply words ∙ other))
  ]
  ok-IsParsed raw (a ∷ b ∷ c ∷ []) words rest = foreign-IsParsed raw rest (ap is_reply words)
  ok-IsParsed raw (a ∷ b ∷ c ∷ d ∷ []) words rest = foreign-IsParsed raw rest (ap is_reply words)
  ok-IsParsed raw (a ∷ b ∷ c ∷ d ∷ e ∷ []) words rest =
      foreign-IsParsed raw rest (ap is_reply words)
  ok-IsParsed raw (a ∷ b ∷ c ∷ d ∷ e ∷ f ∷ []) words rest =
      positions-IsParsed raw _
        (record { tokens = a ∷ b ∷ c ∷ d ∷ e ∷ f ∷ []; words = words; six = refl; read = refl })
  ok-IsParsed raw (a ∷ b ∷ c ∷ d ∷ e ∷ f ∷ g ∷ l) words rest =
      foreign-IsParsed raw rest (ap is_reply words)

  tokens-IsParsed :
      (raw : Text) (tokens : List Text)
      → split_spaces raw ≡ tokens
      → IsRest raw
      → IsParsed numbers raw (parse_tokens numbers raw tokens)
  tokens-IsParsed raw [] words rest = foreign-IsParsed raw rest (ap is_reply words)
  tokens-IsParsed raw (first ∷ tokens) words rest = elim (Bool-cases (text_eq first (codes "ok"))) [
    | inl accepted ↦ rw accepted (
        ok-IsParsed raw tokens
          (words ∙ ap (λ t. t ∷ tokens) (eq_of_text_eq first (codes "ok") accepted)) rest)
    | inr other ↦
        rw other
          (foreign-IsParsed raw rest (ap is_reply words ∙ ap (λ b. b && is_ok_reply tokens) other))
  ]

  mode_ack-IsParsed :
      (raw : Text) (m : Option (Text × Text))
      → mode_ack_match raw ≡ m
      → (mode_ack_match raw ≡ none → IsRest raw)
      → IsParsed numbers raw (parse_mode_ack numbers raw m)
  mode_ack-IsParsed raw (some (digits, name)) e rest =
      ack-IsParsed raw (value 10 digits) name
        (record { digits = digits; line = mode_ack_match-IsAckLine raw e; read = refl })
  mode_ack-IsParsed raw none e rest = tokens-IsParsed raw (split_spaces raw) refl (rest e)

  line-IsParsed :
      (raw : Text) (ack : Option DummySystemAck)
      → find_system_ack raw ≡ ack
      → IsParsed numbers raw (parse_line numbers raw ack)
  unfolding parse_error
  line-IsParsed raw (some ack) e = (refl, find_system_ack-text raw ack e)
  line-IsParsed raw none e = elim (Bool-cases (text_eq raw (codes "ok"))) [
    | inl generic ↦ rw generic (refl, eq_of_text_eq raw (codes "ok") generic)
    | inr other ↦ elim (Bool-cases (starts_with (codes "error") raw)) [
      | inl failed ↦
          rw (other, failed)
            (
              refl,
              (
                drop 5 raw,
                starts_with-append (codes "error") raw failed,
                refl,
                refl,
                first_or_unknown-is_empty (split_spaces (trim (drop 5 raw))),
              ),
            )
      | inr fine ↦ elim (Bool-cases (is_digits raw)) [
        | inl digits ↦ rw (other, fine, digits) (queue-IsParsed raw digits)
        | inr words ↦
            rw (other, fine, words)
              (mode_ack-IsParsed raw (mode_ack_match raw) refl
                (λ no_ack. (e, other, fine, words, no_ack)))
      ]
    ]
  ]

  -- Every response repeats the trimmed line, and says what that line says. A system or generic
  -- acknowledgement is its fixed line. Joint positions are the numbers of the six words behind `ok`,
  -- in their order and finite; an enable reply has the bit of its one word. A mode is the number of
  -- `ok NUMBER NAME` or of the acknowledgement `ok Set command mode to [NUMBER] (NAME)`, is 1, 2 or 3
  -- and has its own name; an unsupported mode is read there too and is none of them. A queue reply is
  -- the number of the line, 255 or at most 15, and accepts exactly if it is at most 15. An error has
  -- the text behind `error` and its first word. A malformed line has the fault of its reason, and an
  -- unknown one is empty or of none of these forms.
  pub parse_dummy_response_line-IsParsed :
      (input : Text) → IsParsed numbers (trim input) (parse_dummy_response_line numbers input)
  unfolding parse_dummy_response_line
  parse_dummy_response_line-IsParsed input = elim (Bool-cases (is_empty (trim input))) [
    | inl nothing ↦ rw nothing (refl, inl nothing)
    | inr something ↦ rw something (line-IsParsed (trim input) (find_system_ack (trim input)) refl)
  ]
