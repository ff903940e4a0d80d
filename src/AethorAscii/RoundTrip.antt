-- ===== src/AethorAscii/RoundTrip.antt =====
-- A frame that `formatAethorArmRequest` writes is read back by `parseAethorArmAsciiFrame`.
use mathlib.Core.Path.{subst}
use aethor_studio_v.Prelude.{
  ℕ, ◌<◌, ◌≤◌, true, false, some, List, [], ◌∷◌, Text, codes, text_mem, is_empty, length, all, any,
  All, split, split-join, join, Lacks, has_unit-append, ok, guard, ◌≡◌, refl, ap, ◌∙◌, arith, leb,
  leb→le, pos, negsuc, >>=-eq-ok, guard-eq-ok, length-append,
}
use aethor_studio_v.Contracts.{Number, whole, other}
use aethor_studio_v.Numerals.{to_radix}
use aethor_studio_v.Numerals.RoundTrip.{all-to_radix, value-to_radix, length-to_radix}
use aethor_studio_v.AethorAscii.{
  request_operations, is_printable_unit, is_upper, is_upper_token_unit, compute_crc16, format_crc,
  max_line_bytes, uint32_max, matches_upper_token,
}
use aethor_studio_v.AethorAscii.Crc.{compute_crc16-lt, format_crc_lem}
use aethor_studio_v.AethorAscii.Frames.{
  Fields, field_tokens, parse_fields, Frame, Request, req, valid, request_sequence, format_request,
  parse_frame, parse_tokens, frame_kind, is_valid_subject, requires_non_zero_sequence,
}
use aethor_studio_v.AethorAscii.Tokens.{
  IsToken, is_token_unit, to_radix-IsToken, operation-IsToken, of_text_mem, token-printable,
  token-Lacks_blank, token-Lacks_asterisk, all-append,
}
use aethor_studio_v.AethorAscii.ReadBack.{ReadsBack, field_tokens-ReadsBack}
use aethor_studio_v.AethorAscii.Framing.{IsSound, line_of, parse_frame-line_of, is_empty-append}

-- The words of a request, joined by blanks.
record IsBody (body : Text) : Type 0 where
  printable : all is_printable_unit body ≡ true
  no_asterisk : Lacks b'*' body
  not_empty : is_empty body ≡ false

printable-blank : (s : Text) → all is_printable_unit (b' ' ∷ s) ≡ all is_printable_unit s
unfolding is_printable_unit
printable-blank s = refl

join-IsBody : (p : Text) (ps : List Text) → IsToken p → All IsToken ps → IsBody (join b' ' (p ∷ ps))
unfolding join
join-IsBody p [] t _ = record {
  printable = token-printable p t;
  no_asterisk = token-Lacks_asterisk p t;
  not_empty = t.not_empty;
}
join-IsBody p (q ∷ ps) t (tq, ts) =
    let rest = join-IsBody q ps tq ts in
    record {
      printable =
          rw (all-append, token-printable p t)
            (printable-blank (join b' ' (q ∷ ps)) ∙ rest.printable);
      no_asterisk = rw (has_unit-append, token-Lacks_asterisk p t) rest.no_asterisk;
      not_empty = is_empty-append p (b' ' ∷ join b' ' (q ∷ ps)) t.not_empty;
    }

All-Lacks : (ps : List Text) → All IsToken ps → All (Lacks b' ') ps
All-Lacks [] _ = tt
All-Lacks (p ∷ ps) (t, ts) = (token-Lacks_blank p t, All-Lacks ps ts)

any-is_empty : (ps : List Text) → All IsToken ps → any is_empty ps ≡ false
any-is_empty [] _ = refl
any-is_empty (p ∷ ps) (t, ts) = rw t.not_empty (any-is_empty ps ts)

operation-upper : (s : Text) → text_mem s request_operations ≡ true → matches_upper_token s ≡ true
unfolding matches_upper_token is_upper is_upper_token_unit request_operations
operation-upper s e =
    of_text_mem (λ s. matches_upper_token s ≡ true) s request_operations (assumption (refl)) e

request_sequence-range :
    (id : Number) {n : ℕ}
    → request_sequence id ≡ ok n
    → (id ≡ whole (pos n)) × (1 ≤ n) × (n ≤ uint32_max)
unfolding request_sequence
request_sequence-range (whole (pos k)) h = ground arith
request_sequence-range (whole (negsuc k)) h = cc
request_sequence-range other h = cc

parse_tokens-request :
    (n : ℕ) (operation : Text) (tokens : List Text) (fields : Fields) (body raw : Text) (crc : ℕ)
    → 1 ≤ n
    → n ≤ uint32_max
    → text_mem operation request_operations ≡ true
    → All IsToken (codes "REQ" ∷ to_radix 10 n ∷ operation ∷ tokens)
    → parse_fields tokens [] ≡ some fields
    → parse_tokens (codes "REQ" ∷ to_radix 10 n ∷ operation ∷ tokens) body raw crc
      ≡ valid (record {
        kind = req;
        sequence = n;
        subject = operation;
        fields = fields;
        body = body;
        raw = raw;
        crc16 = crc;
      })
unfolding parse_tokens frame_kind is_valid_subject requires_non_zero_sequence
parse_tokens-request n operation tokens fields body raw crc low high known ts parsed =
    let empties = any-is_empty (codes "REQ" ∷ to_radix 10 n ∷ operation ∷ tokens) ts in
    let (some_digits, few_digits) = length-to_radix n 9 (omega arith) in
    rw (empties, all-to_radix, value-to_radix, operation-upper operation known, known, parsed)
      (ground (arith, value-to_radix n))

-- The frame that a line stands for, and how it comes from the request.
pub record IsFrameOf (request : Request) (line : Text) : Type 0 where
  pub frame : Frame
  pub parsed : parse_frame line ≡ ok (valid frame)
  pub kind : frame.kind ≡ req
  pub sequence : request.request_id ≡ whole (pos frame.sequence)
  pub subject : frame.subject ≡ request.operation
  pub fields : frame.fields ≡ request.fields
  pub raw : frame.raw ≡ line
  pub sum : compute_crc16 frame.body ≡ ok frame.crc16

-- The words behind `REQ`.
abbrev words : ℕ → Text → List Text → List Text
words n operation tokens = to_radix 10 n ∷ operation ∷ tokens

req-IsToken : IsToken (codes "REQ")
unfolding is_token_unit is_printable_unit
req-IsToken = record { units = refl; not_empty = refl }

decimal-IsToken : (n : ℕ) → n ≤ uint32_max → IsToken (to_radix 10 n)
decimal-IsToken n h =
    to_radix-IsToken n (not_empty (to_radix 10 n) (length-to_radix n 9 (omega arith)).0)
  where
    not_empty : (s : Text) → 0 < length s → is_empty s ≡ false
    not_empty [] lt = absurd (omega arith)
    not_empty (c ∷ s) lt = refl

-- What is left of `formatAethorArmRequest` once the sequence and the tokens are known.
finish_line :
    (request : Request) (n crc : ℕ) (tokens : List Text) (body line : Text)
    → request.request_id ≡ whole (pos n)
    → 1 ≤ n
    → n ≤ uint32_max
    → text_mem request.operation request_operations ≡ true
    → ReadsBack request.fields [] tokens
    → body ≡ join b' ' (codes "REQ" ∷ to_radix 10 n ∷ request.operation ∷ tokens)
    → compute_crc16 body ≡ ok crc
    → leb (length (line_of body crc)) max_line_bytes ≡ true
    → line_of body crc ≡ line
    → IsFrameOf request line
finish_line request n crc tokens body line id low high known reads made sum fits same =
    subst (IsFrameOf request) same (record {
      frame = record {
        kind = req;
        sequence = n;
        subject = request.operation;
        fields = request.fields;
        body = body;
        raw = line_of body crc;
        crc16 = crc;
      };
      parsed =
          parse_frame-line_of body crc sound
          ∙ ap (λ ws. ok (parse_tokens ws body (line_of body crc) crc))
              (ap (split b' ') made
                ∙ split-join b' ' (codes "REQ") (words n request.operation tokens) refl
                    (All-Lacks (words n request.operation tokens) ts.1))
          ∙ ap ok (
              parse_tokens-request n request.operation tokens request.fields body (line_of body crc)
                crc low high known ts reads.parsed);
      kind = refl;
      sequence = id;
      subject = refl;
      fields = refl;
      raw = refl;
      sum = sum;
    })
  where
    ts : IsToken (codes "REQ") × All IsToken (words n request.operation tokens)
    ts = (
      req-IsToken,
      (decimal-IsToken n high, (operation-IsToken request.operation known, reads.are_tokens)),
    )

    sound : IsSound body crc
    sound =
        let b = join-IsBody (codes "REQ") (words n request.operation tokens) ts.0 ts.1 in
        record {
          printable = rw made b.printable;
          no_asterisk = rw made b.no_asterisk;
          not_empty = rw made b.not_empty;
          sum = sum;
          fits = omega (
            arith,
            leb→le (length (line_of body crc)) max_line_bytes fits,
            length-append body (b' ' ∷ b'*' ∷ format_crc crc),
            (format_crc_lem crc (compute_crc16-lt body sum)).0,
          );
        }

-- Every line that `formatAethorArmRequest` returns is parsed as a valid REQ frame with the
-- request's id, operation and fields (in their order), whose raw text is the line itself and whose
-- checksum is that of its body.
pub parse_frame-format_request :
    (request : Request) {line : Text} → format_request request ≡ ok line → IsFrameOf request line
unfolding format_request
parse_frame-format_request request {line} h =
    let (n, seq, h1) = >>=-eq-ok (request_sequence request.request_id) _ h in
    let (u, known, h2) = >>=-eq-ok (guard (text_mem request.operation request_operations) _) _ h1 in
    let (tokens, reads, h3) = >>=-eq-ok (field_tokens request.fields []) _ h2 in
    let (crc, sum, h4) =
      >>=-eq-ok
        (compute_crc16 (join b' ' (codes "REQ" ∷ to_radix 10 n ∷ request.operation ∷ tokens))) _
        h3 in
    let (v, fits, same) =
      >>=-eq-ok
        (guard
          (leb
            (length
              (line_of (join b' ' (codes "REQ" ∷ to_radix 10 n ∷ request.operation ∷ tokens)) crc))
            max_line_bytes)
          _)
        _ h4 in
    let (id, low, high) = request_sequence-range request.request_id seq in
    finish_line request n crc tokens _ line id low high (guard-eq-ok _ _ known)
      (field_tokens-ReadsBack request.fields [] [] tokens (λ k. refl) reads) refl sum
      (guard-eq-ok _ _ fits) (cc same)
