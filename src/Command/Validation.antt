-- ===== src/Command/Validation.antt =====
-- src/repo-command.hpp and repo-command.cpp: which fields a command requires, allows and forbids.
pub mod Fields
pub mod Commands
use difs.Prelude.{
  ℕ, ltb, ◌==◌, Bool, true, false, ◌&&◌, ◌||◌, not, List, [], ◌∷◌, Option, none, some, is_some,
  if◌then◌else◌,
}
use difs.Command.Parameter.{RepoCommandParameter}

-- `RepoParameterField`, in its order.
pub data ParameterField : Type 0 where
  node_prefix name from to start_block_id end_block_id : ParameterField
  process_id interest_lifetime cluster_prefix : ParameterField

abbrev pub index : ParameterField → ℕ
index node_prefix = 0
index name = 1
index from = 2
index to = 3
index start_block_id = 4
index end_block_id = 5
index process_id = 6
index interest_lifetime = 7
index cluster_prefix = 8

abbrev pub all_fields : List ParameterField
all_fields =
    node_prefix ∷ name ∷ from ∷ to ∷ start_block_id ∷ end_block_id ∷ process_id ∷ interest_lifetime
    ∷ cluster_prefix ∷ []

-- `getPresentFields()`.
unfoldable pub is_present : RepoCommandParameter → ParameterField → Bool
is_present p node_prefix = is_some p.node_prefix
is_present p name = is_some p.name
is_present p from = is_some p.from
is_present p to = is_some p.to
is_present p start_block_id = is_some p.start_block_id
is_present p end_block_id = is_some p.end_block_id
is_present p process_id = is_some p.process_id
is_present p interest_lifetime = is_some p.interest_lifetime
is_present p cluster_prefix = is_some p.cluster_prefix

-- `m_required` and `m_optional`.
pub record FieldValidator : Type 0 where
  pub is_required : ParameterField → Bool
  pub is_optional : ParameterField → Bool

abbrev pub no_fields : FieldValidator
no_fields = record { is_required = λ f. false; is_optional = λ f. false }

unfoldable pub required : ParameterField → FieldValidator → FieldValidator
required f v = record v { is_required = λ g. index g == index f || v.is_required g }

unfoldable pub optional : ParameterField → FieldValidator → FieldValidator
optional f v = record v { is_optional = λ g. index g == index f || v.is_optional g }

-- The `ArgumentError`s.
pub data ArgumentError : Type 0 where
  missing forbidden : ParameterField → ArgumentError
  start_after_end no_end : ArgumentError

-- `FieldValidator::validate`: the first error, or `none`.
unfoldable pub validate_fields :
    FieldValidator → RepoCommandParameter → List ParameterField → Option ArgumentError
unfolding is_present
validate_fields v p [] = none
validate_fields v p (f ∷ fs) =
    let rest = validate_fields v p fs in
    if v.is_required f
    then (if is_present p f then rest else some (missing f))
    else if is_present p f && not (v.is_optional f)
    then some (forbidden f)
    else rest

unfoldable pub validate : FieldValidator → RepoCommandParameter → Option ArgumentError
validate v p = validate_fields v p all_fields

-- The subclasses of `RepoCommand`.
pub data Command : Type 0 where
  insert insert_check info add create find delete delete_manifest delete_data : Command

-- What their constructors require and allow.
unfoldable pub request_validator : Command → FieldValidator
unfolding required optional
request_validator insert =
    optional node_prefix (optional end_block_id (optional start_block_id (required name no_fields)))
request_validator insert_check =
    optional node_prefix (required process_id (required name no_fields))
request_validator info = optional to (optional from no_fields)
request_validator add = required to (required from no_fields)
request_validator create = required cluster_prefix (required process_id (required name no_fields))
request_validator find = required name no_fields
request_validator delete = required process_id (required name no_fields)
request_validator delete_manifest = required process_id (required name no_fields)
request_validator delete_data =
    required process_id (required end_block_id (required start_block_id (required name no_fields)))

-- `getStartBlockId()` past its assertion that there is one.
abbrev pub value : Option ℕ → ℕ
value none = 0
value (some n) = n

-- The `check` of the two commands that delete segments.
unfoldable pub check_range : RepoCommandParameter → Option ArgumentError
check_range p =
    if is_some p.start_block_id || is_some p.end_block_id
    then (if is_some p.end_block_id
        then (if ltb (value p.end_block_id) (value p.start_block_id)
            then some start_after_end
            else none)
        else some no_end)
    else none

unfoldable pub check : Command → RepoCommandParameter → Option ArgumentError
unfolding check_range
check delete p = check_range p
check delete_data p = check_range p
check _ p = none

abbrev or_else : Option ArgumentError → Option ArgumentError → Option ArgumentError
or_else none next = next
or_else (some e) next = some e

-- `validateRequest`: the fields, then the check. `CommandBaseHandle::validateParameters` is
-- whether there is no error.
unfoldable pub validate_request : Command → RepoCommandParameter → Option ArgumentError
unfolding validate check
validate_request c p = or_else (validate (request_validator c) p) (check c p)

unfoldable pub validate_parameters : Command → RepoCommandParameter → Bool
unfolding validate_request
validate_parameters c p = not (is_some (validate_request c p))
