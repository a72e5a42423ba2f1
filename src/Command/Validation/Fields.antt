-- ===== src/Command/Validation/Fields.antt =====
-- `FieldValidator::validate` decides which fields are present.
use difs.Prelude.{◌≡◌, ◌↔◌, refl, Bool, true, false, ◌||◌, List, [], ◌∷◌, none, some, All, arith}
use difs.Command.Parameter.{RepoCommandParameter}
use difs.Command.Validation.{
  ParameterField, node_prefix, name, from, to, start_block_id, end_block_id, process_id,
  interest_lifetime, cluster_prefix, all_fields, is_present, FieldValidator, ArgumentError, missing,
  forbidden, start_after_end, no_end, validate_fields, validate,
}

-- A required field is there; any other is absent or allowed.
abbrev pub Fits : FieldValidator → RepoCommandParameter → ParameterField → Type 0
Fits v p f =
    (v.is_required f ≡ true → is_present p f ≡ true)
    × (is_present p f ≡ true → (v.is_required f || v.is_optional f) ≡ true)

Fits-of_none :
    (v : FieldValidator) (p : RepoCommandParameter) (fs : List ParameterField)
    → validate_fields v p fs ≡ none
    → All (Fits v p) fs
unfolding validate_fields
Fits-of_none v p [] h = tt
Fits-of_none v p (f ∷ fs) h = ground (arith, Fits-of_none v p fs)

none_of_Fits :
    (v : FieldValidator) (p : RepoCommandParameter) (fs : List ParameterField)
    → All (Fits v p) fs
    → validate_fields v p fs ≡ none
unfolding validate_fields
none_of_Fits v p [] h = refl
none_of_Fits v p (f ∷ fs) h = ground (arith, none_of_Fits v p fs h.1)

every_field : (P : ParameterField → Type 0) → All P all_fields → (f : ParameterField) → P f
every_field P h node_prefix = h.0
every_field P h name = h.1.0
every_field P h from = h.1.1.0
every_field P h to = h.1.1.1.0
every_field P h start_block_id = h.1.1.1.1.0
every_field P h end_block_id = h.1.1.1.1.1.0
every_field P h process_id = h.1.1.1.1.1.1.0
every_field P h interest_lifetime = h.1.1.1.1.1.1.1.0
every_field P h cluster_prefix = h.1.1.1.1.1.1.1.1.0

All-of_every :
    {P : ParameterField → Type 0} (fs : List ParameterField)
    → ((f : ParameterField) → P f)
    → All P fs
All-of_every [] h = tt
All-of_every (f ∷ fs) h = (h f, All-of_every fs h)

-- The parameters pass exactly if every required field is present and every present field is
-- required or optional.
pub validate-eq-none_iff :
    (v : FieldValidator) (p : RepoCommandParameter)
    → (validate v p ≡ none) ↔ ((f : ParameterField) → Fits v p f)
unfolding validate
validate-eq-none_iff v p = (
  λ h. every_field (Fits v p) (Fits-of_none v p all_fields h),
  λ h. none_of_Fits v p all_fields (All-of_every all_fields h),
)

-- What an error says of the field that it names.
abbrev pub Blames : FieldValidator → RepoCommandParameter → ParameterField → ArgumentError → Type 0
Blames v p f (missing g) = (g ≡ f) × (v.is_required f ≡ true) × (is_present p f ≡ false)
Blames v p f (forbidden g) =
    (g ≡ f) × (is_present p f ≡ true) × ((v.is_required f || v.is_optional f) ≡ false)
Blames v p f start_after_end = ⊥
Blames v p f no_end = ⊥

pub data FirstFault (v : FieldValidator) (p : RepoCommandParameter) (e : ArgumentError)
    : List ParameterField → Type 0 where
  here :
      (f : ParameterField) (fs : List ParameterField) → Blames v p f e → FirstFault v p e (f ∷ fs)
  later :
      (f : ParameterField) (fs : List ParameterField)
      → Fits v p f
      → FirstFault v p e fs
      → FirstFault v p e (f ∷ fs)

first_fault :
    (v : FieldValidator) (p : RepoCommandParameter) (fs : List ParameterField) (e : ArgumentError)
    → validate_fields v p fs ≡ some e
    → FirstFault v p e fs
unfolding validate_fields
first_fault v p [] e h = cc
first_fault v p (f ∷ fs) e h =
    split e (v.is_required f) (is_present p f) (v.is_optional f) refl refl refl h
      (first_fault v p fs e)
  where
    split :
        (e : ArgumentError) (r a o : Bool)
        → v.is_required f ≡ r
        → is_present p f ≡ a
        → v.is_optional f ≡ o
        → validate_fields v p (f ∷ fs) ≡ some e
        → (validate_fields v p fs ≡ some e → FirstFault v p e fs)
        → FirstFault v p e (f ∷ fs)
    split e true true o re ae oe h ih = later f fs (ground arith) (ih (ground arith))
    split (missing g) true false o re ae oe h ih = here f fs (ground arith)
    split (forbidden g) true false o re ae oe h ih = absurd (ground arith)
    split start_after_end true false o re ae oe h ih = absurd (ground arith)
    split no_end true false o re ae oe h ih = absurd (ground arith)
    split e false false o re ae oe h ih = later f fs (ground arith) (ih (ground arith))
    split e false true true re ae oe h ih = later f fs (ground arith) (ih (ground arith))
    split (missing g) false true false re ae oe h ih = absurd (ground arith)
    split (forbidden g) false true false re ae oe h ih = here f fs (ground arith)
    split start_after_end false true false re ae oe h ih = absurd (ground arith)
    split no_end false true false re ae oe h ih = absurd (ground arith)

-- A refusal names the first field, in the order of the enumeration, that is missing or forbidden:
-- every field before it fits.
pub validate-first :
    (v : FieldValidator) (p : RepoCommandParameter) (e : ArgumentError)
    → validate v p ≡ some e
    → FirstFault v p e all_fields
unfolding validate
validate-first v p e h = first_fault v p all_fields e h
