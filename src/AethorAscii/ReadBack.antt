-- ===== src/AethorAscii/ReadBack.antt =====
-- The fields of a formatted request are read back by the loop of the parser.
use mathlib.Core.Path.{subst}
use aethor_studio_v.Prelude.{
  append-nil, ◌||◌, some, List, [], ◌∷◌, ◌++◌, map, Text, text_mem, All, ok, ◌≡◌, refl, arith,
  append_assoc, map-append, >>=-eq-ok,
}
use aethor_studio_v.AethorAscii.Frames.{
  Fields, assert_field, field_token, field_tokens, parse_fields,
}
use aethor_studio_v.AethorAscii.Tokens.{
  IsToken, IsChecked, assert_field-IsChecked, field_token-IsToken, split_field-field_token,
}

abbrev pub keys_of : Fields → List Text
keys_of fields = map (λ f. f.0) fields

text_mem-append :
    (s : Text) (l m : List Text) → text_mem s (l ++ m) ≡ (text_mem s l || text_mem s m)
text_mem-append s [] m = refl
text_mem-append s (t ∷ l) m = ground (arith, text_mem-append s l m)

-- The tokens of checked fields are tokens, and the parser reads the fields back in their order.
pub record ReadsBack (fields : Fields) (found : Fields) (tokens : List Text) : Type 0 where
  pub are_tokens : All IsToken tokens
  pub parsed : parse_fields tokens found ≡ some (found ++ fields)

same_keys :
    (key value : Text) (keys : List Text) (found : Fields)
    → ((k : Text) → text_mem k keys ≡ text_mem k (keys_of found))
    → (k : Text) → text_mem k (key ∷ keys) ≡ text_mem k (keys_of (found ++ ((key, value) ∷ [])))
same_keys key value keys found same k = rw (map-append, text_mem-append) (ground (arith, same k))

parse_fields-cons :
    (key value : Text) (keys : List Text) (fields found : Fields) (rest : List Text)
    → IsChecked key value keys
    → ((k : Text) → text_mem k keys ≡ text_mem k (keys_of found))
    → parse_fields rest (found ++ ((key, value) ∷ []))
      ≡ some ((found ++ ((key, value) ∷ [])) ++ fields)
    → parse_fields (field_token (key, value) ∷ rest) found ≡ some (found ++ ((key, value) ∷ fields))
unfolding parse_fields
parse_fields-cons key value keys fields found rest c same h =
    rw (split_field-field_token key value keys c, parse_fields)
      (rw (← same key, c.fresh, h, append_assoc))

pub field_tokens-ReadsBack :
    (fields : Fields) (keys : List Text) (found : Fields) (tokens : List Text)
    → ((k : Text) → text_mem k keys ≡ text_mem k (keys_of found))
    → field_tokens fields keys ≡ ok tokens
    → ReadsBack fields found tokens
unfolding field_tokens
field_tokens-ReadsBack [] keys found tokens same h =
    let r : ReadsBack [] found [] = record {
      are_tokens = tt;
      parsed = unfold parse_fields in rw append-nil;
    } in
    subst (λ t. ReadsBack [] found t) (cc) r
field_tokens-ReadsBack ((key, value) ∷ fields) keys found tokens same h =
    let (u, checks, h2) = >>=-eq-ok (assert_field key value keys) _ h in
    let (rest, reads, made) = >>=-eq-ok (field_tokens fields (key ∷ keys)) _ h2 in
    let checked = assert_field-IsChecked key value keys checks in
    let ih =
      field_tokens-ReadsBack fields (key ∷ keys) (found ++ ((key, value) ∷ [])) rest
        (same_keys key value keys found same) reads in
    let r : ReadsBack ((key, value) ∷ fields) found (field_token (key, value) ∷ rest) = record {
      are_tokens = (field_token-IsToken key value keys checked, ih.are_tokens);
      parsed = parse_fields-cons key value keys fields found rest checked same ih.parsed;
    } in
    subst (λ t. ReadsBack ((key, value) ∷ fields) found t) (cc made) r
