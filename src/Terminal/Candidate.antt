-- ===== src/Terminal/Candidate.antt =====
-- The terminal accepts what the request formatter prints.
use mathlib.Core.Path.{subst}
use mathlib.Core.List.{reverse, reverse-append, reverse-reverse}
use aethor_studio_v.Prelude.{
  ℕ, ◌<◌, true, false, not, some, List, [], ◌∷◌, ◌++◌, Text, codes, length, all, map, if◌then◌else◌,
  text_eq, text_eq_refl, text_mem, trim, trim_start, is_space, leb, join, Result, ok, ◌>>=◌, guard,
  guard-eq-ok, >>=-eq-ok, append_assoc, ◌≡◌, refl, pos, sym, ap, ◌∙◌, arith, Bool-cases, inl, inr,
}
use aethor_studio_v.Contracts.{whole}
use aethor_studio_v.Numerals.{to_radix, is_upper_hex_digit}
use aethor_studio_v.AethorAscii.{
  AsciiError, request_operations, compute_crc16, format_crc, max_line_bytes,
}
use aethor_studio_v.AethorAscii.Crc.{format_crc_lem, compute_crc16-lt}
use aethor_studio_v.AethorAscii.Frames.{
  Frame, FrameKind, req, Request, format_request, request_sequence, field_tokens, is_req,
  parse_frame,
}
use aethor_studio_v.AethorAscii.Frames
use aethor_studio_v.AethorAscii.RoundTrip.{parse_frame-format_request}
use aethor_studio_v.DummyAscii.Commands.{DummyCommandRisk}
use aethor_studio_v.Terminal.{
  CommandValidation, operation_policy, find_policy, verified_message, with_policy, judge,
  invalid_command, validate_aethor_candidate_command,
}

-- A text without white space at either end.
trim_start_closed : (c : ℕ) (s : Text) → is_space c ≡ false → trim_start (c ∷ s) ≡ c ∷ s
unfolding trim_start
trim_start_closed c s h = rw h refl

trim_closed :
    (c d : ℕ) (m : Text)
    → is_space c ≡ false
    → is_space d ≡ false
    → trim (c ∷ m ++ (d ∷ [])) ≡ c ∷ m ++ (d ∷ [])
unfolding trim
trim_closed c d m hc hd =
    ap (λ s. reverse (trim_start (reverse s))) (trim_start_closed c (m ++ (d ∷ [])) hc)
    ∙ ap (λ s. reverse (trim_start s)) (reverse-append (c ∷ m) (d ∷ []))
    ∙ ap reverse (trim_start_closed d (reverse (c ∷ m)) hd)
    ∙ ap reverse (sym (reverse-append (c ∷ m) (d ∷ [])))
    ∙ reverse-reverse (c ∷ m ++ (d ∷ []))

-- Four hexadecimal digits end in one.
ends_in_digit :
    (s : Text)
    → length s ≡ 4
    → all is_upper_hex_digit s ≡ true
    → (front : Text) × (d : ℕ) × (s ≡ front ++ (d ∷ [])) × (is_upper_hex_digit d ≡ true)
ends_in_digit (a ∷ b ∷ c ∷ d ∷ []) four digits = (a ∷ b ∷ c ∷ [], d, refl, ground arith)
ends_in_digit [] four digits = absurd (omega (arith, four))
ends_in_digit (a ∷ []) four digits = absurd (omega (arith, four))
ends_in_digit (a ∷ b ∷ []) four digits = absurd (omega (arith, four))
ends_in_digit (a ∷ b ∷ c ∷ []) four digits = absurd (omega (arith, four))
ends_in_digit (a ∷ b ∷ c ∷ d ∷ e ∷ s) four digits = absurd (omega (arith, four))

digit-is_space : (d : ℕ) → is_upper_hex_digit d ≡ true → is_space d ≡ false
unfolding is_upper_hex_digit is_space
digit-is_space d h = ground arith

-- A line that begins with R and ends in the text of a checksum.
trim_line :
    (m : Text) (crc : ℕ)
    → crc < 65536
    → trim (b'R' ∷ m ++ format_crc crc) ≡ b'R' ∷ m ++ format_crc crc
unfolding is_space
trim_line m crc h =
    let (four, digits, printable, same) = format_crc_lem crc h in
    let (front, d, e, digit) = ends_in_digit (format_crc crc) four digits in
    let shape : m ++ format_crc crc ≡ (m ++ front) ++ (d ∷ []) =
      ap (λ s. m ++ s) e ∙ sym (append_assoc m front (d ∷ [])) in
    subst (λ s. trim (b'R' ∷ s) ≡ b'R' ∷ s) (sym shape)
      (trim_closed b'R' d (m ++ front) refl (digit-is_space d digit))

ok-injective : (a b : Text) → ◌≡◌ {A = Result AsciiError Text} (ok a) (ok b) → a ≡ b
ok-injective a b h = cc

trim-format_request :
    (request : Request) {line : Text} → format_request request ≡ ok line → trim line ≡ line
unfolding format_request join
trim-format_request request {line} h =
    let (n, seq, h1) = >>=-eq-ok (request_sequence request.request_id) _ h in
    let (u, known, h2) = >>=-eq-ok (guard (text_mem request.operation request_operations) _) _ h1 in
    let (tokens, reads, h3) = >>=-eq-ok (field_tokens request.fields []) _ h2 in
    let (crc, sum, h4) =
      >>=-eq-ok (compute_crc16 (join 32 (codes "REQ" ∷ to_radix 10 n ∷ request.operation ∷ tokens)))
        _ h3 in
    let rest = codes "EQ " ++ join 32 (to_radix 10 n ∷ request.operation ∷ tokens) in
    let (v, fits, same) =
      >>=-eq-ok (guard (leb (length (b'R' ∷ rest ++ (32 ∷ 42 ∷ format_crc crc))) max_line_bytes) _)
        _ h4 in
    subst (λ s. trim s ≡ s) (ok-injective _ line same)
      (subst (λ s. trim (b'R' ∷ s) ≡ b'R' ∷ s) (append_assoc rest (32 ∷ 42 ∷ []) (format_crc crc))
        (trim_line (rest ++ (32 ∷ 42 ∷ [])) crc (compute_crc16-lt _ sum)))

find_policy-known :
    (s : Text) (l : List (Text × (Text × DummyCommandRisk)))
    → text_mem s (map (λ e. e.0) l) ≡ true
    → (policy : Text × DummyCommandRisk) × (find_policy s l ≡ some policy)
find_policy-known s [] h = absurd (ground arith)
find_policy-known s ((name, policy) ∷ l) h = elim (Bool-cases (text_eq s name)) [
  | inl here ↦ (policy, rw here refl)
  | inr away ↦
      let (found, e) = find_policy-known s l (ground (arith, away, h)) in (found, rw away e)
]

operation_policy-known :
    (s : Text)
    → text_mem s request_operations ≡ true
    → (policy : Text × DummyCommandRisk) × (find_policy s operation_policy ≡ some policy)
unfolding request_operations operation_policy
operation_policy-known s h = find_policy-known s operation_policy h

operation-known :
    (request : Request) {line : Text}
    → format_request request ≡ ok line
    → text_mem request.operation request_operations ≡ true
unfolding format_request
operation-known request {line} h =
    let (n, seq, h1) = >>=-eq-ok (request_sequence request.request_id) _ h in
    let (u, known, h2) = >>=-eq-ok (guard (text_mem request.operation request_operations) _) _ h1 in
    guard-eq-ok _ _ known

-- The policy of an operation and a message that names the request's id and operation.
abbrev pub IsVerified : Request → CommandValidation → Type 0
IsVerified request validation =
    (policy : Text × DummyCommandRisk) × (frame : Frame) × (find_policy request.operation
        operation_policy
      ≡ some policy)
    × (request.request_id ≡ whole (pos frame.sequence))
    × (frame.subject ≡ request.operation)
    × (validation ≡ record {
      valid = true;
      kind = policy.0;
      message = verified_message frame;
      risk = policy.1;
    })

-- Every line that `formatAethorArmRequest` returns is accepted by the terminal's validation, with the
-- kind and the risk that the policy has for its operation and a message with its id and operation.
pub validate-format_request :
    (request : Request) {line : Text}
    → format_request request ≡ ok line
    → (validation : CommandValidation) × (validate_aethor_candidate_command line ≡ ok validation)
      × IsVerified request validation
unfolding validate_aethor_candidate_command
validate-format_request request {line} h =
    let f = parse_frame-format_request request h in
    let (policy, found) = operation_policy-known request.operation (operation-known request h) in
    let accepted : judge (Frames.valid f.frame) ≡ with_policy f.frame (some policy) =
      ap
        (λ k.
          if not (is_req k)
          then invalid_command (codes "终端输入只接受 REQ 请求帧")
          else with_policy f.frame (find_policy f.frame.subject operation_policy))
        f.kind
      ∙ ap (λ s. with_policy f.frame (find_policy s operation_policy)) f.subject
      ∙ ap (with_policy f.frame) found in
    (
      judge (Frames.valid f.frame),
      ap
            (λ b.
              if not b
              then ok (invalid_command (codes "帧首尾不能包含空格；CRC 覆盖精确 ASCII body"))
              else (parse_frame line >>= λ parsed. ok (judge parsed)))
            (ap (text_eq line) (trim-format_request request h) ∙ text_eq_refl line)
          ∙ ap (λ r. r >>= λ parsed. ok (judge parsed)) f.parsed,
      (policy, f.frame, found, f.sequence, f.subject, accepted),
    )
