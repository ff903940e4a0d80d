-- ===== src/AethorAscii/Parsing.antt =====
-- What `parseAethorArmAsciiFrame` promises of any input.
use mathlib.Core.Path.{subst}
use aethor_studio_v.Prelude.{
  Result, ℕ, suc, ◌-◌, ◌≤◌, Bool, true, false, ◌||◌, some, List, [], ◌∷◌, Text, text_mem, codes,
  eq_of_text_eq, has_unit, length, all, take, drop, split, join, any, leb, ◌&&◌, All, map, ap, ◌∙◌,
  ok, ◌≡◌, ◌≢◌, refl, sym, arith, ◌⊎◌, inl, inr, zero, Option-cases, is_empty, ◌+◌,
}
use aethor_studio_v.Numerals.{value, is_decimal_digit, is_upper_hex_digit}
use aethor_studio_v.AethorAscii.Keys.{Distinct, parse_fields-Distinct}
use aethor_studio_v.AethorAscii.Words.{IsField, join-split, parse_fields-tokens}
use aethor_studio_v.AethorAscii.{
  request_operations, matches_upper_token, is_printable_unit, is_printable_ascii, AsciiError,
  compute_crc16, max_line_bytes, uint32_max,
}
use aethor_studio_v.AethorAscii.ReadBack.{keys_of}
use aethor_studio_v.AethorAscii.Frames.{
  field_token, is_valid_subject, unit_differs, parse_fields, Frame, ParseResult, FrameKind, req,
  ack, rsp, done, evt, tel, valid, requires_non_zero_sequence, parse_frame, parse_tokens,
  frame_kind,
}

all-take : (p : ℕ → Bool) (n : ℕ) (s : Text) → all p s ≡ true → all p (take n s) ≡ true
all-take p zero s h = refl
all-take p (suc n) [] h = refl
all-take p (suc n) (c ∷ s) h = ground (arith, all-take p n s)

parse_frame-ne-err : (input : Text) (e : AsciiError) → parse_frame input ≢ Result.err e
unfolding parse_frame compute_crc16 is_printable_ascii
parse_frame-ne-err input e = ground (arith, all-take is_printable_unit (length input - 6) input)

Result-cases {ℓ κ} :
    {E : Type ℓ} {A : Type κ} (r : Result E A)
    → ((a : A) × (r ≡ ok a)) ⊎ ((e : E) × (r ≡ Result.err e))
Result-cases (ok a) = inl (a, refl)
Result-cases (Result.err e) = inr (e, refl)

ok_of_ne_err {ℓ κ} :
    {E : Type ℓ} {A : Type κ} (r : Result E A) → ((e : E) → r ≢ Result.err e) → (a : A) × (r ≡ ok a)
ok_of_ne_err (ok a) h = (a, refl)
ok_of_ne_err (Result.err e) h = absurd (h e refl)

-- `parseAethorArmAsciiFrame` returns a result for every input: the checksum, which throws on other
-- text, is only computed of printable text.
pub parse_frame_total : (input : Text) → (r : ParseResult) × (parse_frame input ≡ ok r)
parse_frame_total input = ok_of_ne_err (parse_frame input) (parse_frame-ne-err input)

-- `accepted` for an acknowledgement, `ok` for a response, else an upper-case token.
abbrev pub IsSubject : FrameKind → Text → Type 0
IsSubject ack subject = subject ≡ codes "accepted"
IsSubject rsp subject = subject ≡ codes "ok"
IsSubject _ subject = matches_upper_token subject ≡ true

is_valid_subject-IsSubject :
    (kind : FrameKind) (subject : Text)
    → is_valid_subject kind subject ≡ true
    → IsSubject kind subject
unfolding is_valid_subject
is_valid_subject-IsSubject ack subject h = eq_of_text_eq subject (codes "accepted") h
is_valid_subject-IsSubject rsp subject h = eq_of_text_eq subject (codes "ok") h
is_valid_subject-IsSubject req subject h = h
is_valid_subject-IsSubject FrameKind.err subject h = h
is_valid_subject-IsSubject done subject h = h
is_valid_subject-IsSubject evt subject h = h
is_valid_subject-IsSubject tel subject h = h

-- The words of a frame: kind, sequence number, subject and fields.
pub record IsWords (words : List Text) (f : Frame) : Type 0 where
  pub kind_word : Text
  pub number_word : Text
  pub are_words : words ≡ kind_word ∷ number_word ∷ f.subject ∷ map field_token f.fields
  pub none_empty : any is_empty words ≡ false
  pub kind_read : frame_kind kind_word ≡ some f.kind
  pub number_digits : all is_decimal_digit number_word ≡ true
  pub number_length : (leb 1 (length number_word) && leb (length number_word) 10) ≡ true
  pub number_read : value 10 number_word ≡ f.sequence
  pub valid_subject : IsSubject f.kind f.subject
  pub fields_read : All IsField f.fields

spelled-IsWords :
    (body : Text) (f : Frame) (w : IsWords (split b' ' body) f)
    → body ≡ join b' ' (w.kind_word ∷ w.number_word ∷ f.subject ∷ map field_token f.fields)
spelled-IsWords body f w = sym (join-split b' ' body) ∙ ap (join b' ') w.are_words

-- What a frame that the parser accepts satisfies.
pub record IsAccepted (input : Text) (f : Frame) : Type 0 where
  pub short : length input ≤ max_line_bytes
  pub printable : all is_printable_unit input ≡ true
  pub same_raw : f.raw ≡ input
  pub is_body : f.body ≡ take (length input - 6) input
  pub no_asterisk : has_unit b'*' f.body ≡ false
  pub sum : compute_crc16 f.body ≡ ok f.crc16
  pub sum_read : value 16 (drop (length input - 4) input) ≡ f.crc16
  pub sequence_range : f.sequence ≤ uint32_max
  pub sequence_given : requires_non_zero_sequence f.kind ≡ true → f.sequence ≢ 0
  pub known_operation : f.kind ≡ req → text_mem f.subject request_operations ≡ true
  pub distinct_keys : Distinct (keys_of f.fields)
  pub space_and_asterisk :
      (unit_differs input (length input - 6) b' ' || unit_differs input (length input - 6 + 1) b'*')
      ≡ false
  pub sum_digits : all is_upper_hex_digit (drop (length input - 4) input) ≡ true
  pub words : IsWords (split b' ' f.body) f
  pub spelled :
      f.body
      ≡ join b' ' (words.kind_word ∷ words.number_word ∷ f.subject ∷ map field_token f.fields)

-- What `parse_tokens` makes sure of.
record IsRead (words : List Text) (body raw : Text) (crc : ℕ) (f : Frame) : Type 0 where
  same_body : f.body ≡ body
  same_raw : f.raw ≡ raw
  same_sum : f.crc16 ≡ crc
  range : f.sequence ≤ uint32_max
  given : requires_non_zero_sequence f.kind ≡ true → f.sequence ≢ 0
  known : f.kind ≡ req → text_mem f.subject request_operations ≡ true
  distinct : Distinct (keys_of f.fields)
  words_read : IsWords words f

parse_tokens-IsRead :
    (words : List Text) (body raw : Text) (crc : ℕ) {f : Frame}
    → parse_tokens words body raw crc ≡ valid f
    → IsRead words body raw crc f
unfolding parse_tokens
parse_tokens-IsRead [] body raw crc h = cc
parse_tokens-IsRead (k ∷ []) body raw crc h = cc
parse_tokens-IsRead (k ∷ n ∷ []) body raw crc h = cc
parse_tokens-IsRead (k ∷ n ∷ subject ∷ tokens) body raw crc {f} h =
    elim (Option-cases (parse_fields tokens [])) [
      | inl bad ↦ absurd (ground arith)
      | inr (fields, good) ↦ elim (Option-cases (frame_kind k)) [
        | inl odd ↦ absurd (ground arith)
        | inr (kind, name) ↦
            let fresh : Frame = record {
              kind = kind;
              sequence = value 10 n;
              subject = subject;
              fields = fields;
              body = body;
              raw = raw;
              crc16 = crc;
            } in
            let (new, same_fields, printed, fields_read) =
              parse_fields-tokens tokens [] {fields = fields} good in
            let read : IsRead (k ∷ n ∷ subject ∷ tokens) body raw crc fresh = record {
              same_body = refl;
              same_raw = refl;
              same_sum = refl;
              range = ground arith;
              given = ground arith;
              known = ground arith;
              distinct = parse_fields-Distinct tokens [] tt good;
              words_read = record {
                kind_word = k;
                number_word = n;
                are_words =
                    ap (λ l. k ∷ n ∷ subject ∷ l)
                      (sym (ap (map field_token) same_fields ∙ printed));
                none_empty = ground arith;
                kind_read = name;
                number_digits = ground arith;
                number_length = ground arith;
                number_read = refl;
                valid_subject = is_valid_subject-IsSubject _ subject (ground arith);
                fields_read = subst (All IsField) (sym same_fields) fields_read;
              };
            } in
            subst (IsRead (k ∷ n ∷ subject ∷ tokens) body raw crc) (ground arith) read
      ]
    ]

-- A frame that the parser accepts: the line is short enough and printable; a space and an asterisk
-- stand between the body and the last four characters, which are upper-case hexadecimal digits and
-- give the checksum of the body. The body is the words, joined by spaces and none of them empty, of
-- the frame's kind, its sequence in 1 to 10 digits, its subject and its fields in their order. The
-- sequence fits 32 bits and is not 0 where the kind needs one, the subject is valid for the kind, a
-- request names a known operation, keys and values have the form of a field, and no key comes twice.
pub parse_frame-IsAccepted :
    (input : Text) {f : Frame} → parse_frame input ≡ ok (valid f) → IsAccepted input f
unfolding parse_frame is_printable_ascii
parse_frame-IsAccepted input {f} h = elim (Result-cases (compute_crc16 body)) [
  | inr (e, bad) ↦ absurd (ground arith)
  | inl (crc, sum) ↦
      let read =
        parse_tokens-IsRead (split b' ' body) body input (value 16 digits) {f = f} (ground arith) in
      let spoken : IsWords (split b' ' f.body) f =
        subst (λ b. IsWords (split b' ' b) f) (sym read.same_body) read.words_read in
      record {
        short = ground arith;
        printable = ground arith;
        same_raw = read.same_raw;
        is_body = read.same_body;
        no_asterisk = ground arith;
        sum = ground arith;
        sum_read = sym read.same_sum;
        sequence_range = read.range;
        sequence_given = read.given;
        known_operation = read.known;
        distinct_keys = read.distinct;
        space_and_asterisk = ground arith;
        sum_digits = ground arith;
        words = spoken;
        spelled = spelled-IsWords f.body f spoken;
      }
]
  where
    body : Text
    body = take (length input - 6) input

    digits : Text
    digits = drop (length input - 4) input
