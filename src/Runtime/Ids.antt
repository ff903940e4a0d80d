-- ===== src/Runtime/Ids.antt =====
-- Frames with distinct ids, for the protocol frames of useGatewayRuntimeStore.ts.
use mathlib.Core.List.{reverse, reverse-cons}
use mathlib.Core.Path.{subst}
use aethor_studio_v.Prelude.{
  ℕ, zero, suc, ◌-◌, ◌≤◌, true, false, ◌||◌, List, [], ◌∷◌, ◌++◌, Text, length, length-append,
  length-drop, drop, take_last, any, text_eq, text_eq_refl, eq_of_text_eq, text_mem, ◌≡◌, refl, sym,
  ap, ◌∙◌, arith, Bool-cases, inl, inr,
}
use aethor_studio_v.Contracts.{ProtocolFrame}
use aethor_studio_v.Runtime.Frames.{ids_of, unique_newest, unique_protocol_frames, append_frame}

-- `x` is no frame's id.
abbrev pub Absent : Text → List ProtocolFrame → Type 0
Absent x l = text_mem x (ids_of l) ≡ false

abbrev pub DistinctIds : List ProtocolFrame → Type 0
DistinctIds [] = Unit
DistinctIds (f ∷ l) = Absent f.id l × DistinctIds l

pub text_eq_sym : (s t : Text) → text_eq s t ≡ text_eq t s
text_eq_sym s t = elim (Bool-cases (text_eq s t)) [
  | inl same ↦
      ap (λ x. text_eq x t) (eq_of_text_eq s t same) ∙ ap (text_eq t) (sym (eq_of_text_eq s t same))
  | inr other ↦ elim (Bool-cases (text_eq t s)) [
    | inl same ↦
        absurd (let e = sym other ∙ ap (text_eq s) (eq_of_text_eq t s same) ∙ text_eq_refl s in cc)
    | inr other' ↦ other ∙ sym other'
  ]
]

pub any-Absent :
    (x : Text) (l : List ProtocolFrame)
    → any (λ (c : ProtocolFrame). text_eq c.id x) l ≡ false
    → Absent x l
any-Absent x [] h = refl
any-Absent x (f ∷ l) h = rw (text_eq_sym x f.id) (ground (arith, any-Absent x l))

pub mem-append :
    (x : Text) (l m : List ProtocolFrame)
    → text_mem x (ids_of (l ++ m)) ≡ (text_mem x (ids_of l) || text_mem x (ids_of m))
mem-append x [] m = refl
mem-append x (f ∷ l) m = rw (mem-append x l m) (ground arith)

pub Absent-drop : (x : Text) (n : ℕ) (l : List ProtocolFrame) → Absent x l → Absent x (drop n l)
Absent-drop x zero l h = h
Absent-drop x (suc n) [] h = refl
Absent-drop x (suc n) (f ∷ l) h = Absent-drop x n l (ground arith)

Absent-reverse : (x : Text) (l : List ProtocolFrame) → Absent x l → Absent x (reverse l)
Absent-reverse x [] h = refl
Absent-reverse x (f ∷ l) h =
    rw (reverse-cons f l, mem-append x (reverse l) (f ∷ []), Absent-reverse x l (ground arith))
      (ground arith)

DistinctIds-drop : (n : ℕ) (l : List ProtocolFrame) → DistinctIds l → DistinctIds (drop n l)
DistinctIds-drop zero l h = h
DistinctIds-drop (suc n) [] h = h
DistinctIds-drop (suc n) (f ∷ l) (_, h) = DistinctIds-drop n l h

DistinctIds-snoc :
    (l : List ProtocolFrame) (f : ProtocolFrame)
    → DistinctIds l
    → Absent f.id l
    → DistinctIds (l ++ (f ∷ []))
DistinctIds-snoc [] f h absent = (refl, tt)
DistinctIds-snoc (g ∷ l) f (here, h) absent = (
  rw (mem-append g.id l (f ∷ []), here, text_eq_sym g.id f.id) (ground arith),
  DistinctIds-snoc l f h (ground arith),
)

DistinctIds-reverse : (l : List ProtocolFrame) → DistinctIds l → DistinctIds (reverse l)
DistinctIds-reverse [] h = h
DistinctIds-reverse (f ∷ l) (here, h) =
    subst DistinctIds (sym (reverse-cons f l))
      (DistinctIds-snoc (reverse l) f (DistinctIds-reverse l h) (Absent-reverse f.id l here))

length-reverse : (l : List ProtocolFrame) → length (reverse l) ≡ length l
length-reverse [] = refl
length-reverse (f ∷ l) =
    ap length (reverse-cons f l)
    ∙ length-append (reverse l) (f ∷ [])
    ∙ omega (arith, length-reverse l)

-- What the loop takes: nothing seen before, no id twice, at most `room`.
record Taken (room : ℕ) (seen : List Text) (l : List ProtocolFrame) : Type 0 where
  fresh : (x : Text) → text_mem x seen ≡ true → Absent x l
  distinct : DistinctIds l
  fits : length l ≤ room

unique_newest-Taken :
    (room : ℕ) (seen : List Text) (l : List ProtocolFrame)
    → Taken room seen (unique_newest room seen l)
unfolding unique_newest
unique_newest-Taken room seen [] = record { fresh = λ x h. refl; distinct = tt; fits = omega arith }
unique_newest-Taken zero seen (f ∷ l) = record {
  fresh = λ x h. refl;
  distinct = tt;
  fits = omega arith;
}
unique_newest-Taken (suc room) seen (f ∷ l) = elim (Bool-cases (text_mem f.id seen)) [
  | inl known ↦ rw known (unique_newest-Taken (suc room) seen l)
  | inr new ↦ rw new (
      let rest = unique_newest-Taken room (f.id ∷ seen) l in
      record {
        fresh = λ x h. ground (arith, rest.fresh x, eq_of_text_eq x f.id);
        distinct = (rest.fresh f.id (rw (text_eq_refl f.id) refl), rest.distinct);
        fits = omega (arith, rest.fits);
      })
]

pub unique-DistinctIds : (l : List ProtocolFrame) → DistinctIds (unique_protocol_frames l)
unfolding unique_protocol_frames
unique-DistinctIds l = DistinctIds-reverse _ (unique_newest-Taken 256 [] (reverse l)).distinct

pub length-unique_protocol_frames :
    (l : List ProtocolFrame) → length (unique_protocol_frames l) ≤ 256
unfolding unique_protocol_frames
length-unique_protocol_frames l = omega (
  arith,
  length-reverse (unique_newest 256 [] (reverse l)),
  (unique_newest-Taken 256 [] (reverse l)).fits,
)

pub append_frame-DistinctIds :
    (l : List ProtocolFrame) (f : ProtocolFrame)
    → DistinctIds l
    → Absent f.id l
    → DistinctIds (append_frame l f)
unfolding append_frame
append_frame-DistinctIds l f h absent =
    DistinctIds-snoc (take_last 255 l) f (DistinctIds-drop (length l - 255) l h)
      (Absent-drop f.id (length l - 255) l absent)

pub length-append_frame :
    (l : List ProtocolFrame) (f : ProtocolFrame) → length (append_frame l f) ≤ 256
unfolding append_frame
length-append_frame l f =
    omega (arith, length-append (take_last 255 l) (f ∷ []), length-drop (length l - 255) l)
