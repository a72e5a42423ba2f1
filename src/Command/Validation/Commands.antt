-- ===== src/Command/Validation/Commands.antt =====
-- Which parameters the commands accept.
use difs.Prelude.{◌≡◌, ◌&&◌, not, leb, none, is_some, arith}
use difs.Command.Parameter.{RepoCommandParameter}
use difs.Command.Validation.{
  validate_fields, validate, insert, delete, delete_data, request_validator, value, check,
  validate_request, validate_parameters,
}

-- `insert` takes a name, with or without a range and a forwarding hint, and nothing else; the
-- range is not checked here.
pub validate_parameters-insert :
    (p : RepoCommandParameter)
    → validate_parameters insert p ≡ (
        is_some p.name
        && (not (is_some p.from)
            && (not (is_some p.to)
                && (not (is_some p.process_id)
                    && (not (is_some p.interest_lifetime) && not (is_some p.cluster_prefix))))))
unfolding validate_parameters validate_request validate request_validator validate_fields check
validate_parameters-insert p = ground arith

-- The range check of `delete` can never fail: a delete that passes the validator has no range.
pub check-delete :
    (p : RepoCommandParameter)
    → validate (request_validator delete) p ≡ none
    → check delete p ≡ none
unfolding validate request_validator validate_fields check
check-delete p h = ground arith

-- `delete_data` takes a name, a process and a range that is not empty, and nothing else.
pub validate_parameters-delete_data :
    (p : RepoCommandParameter)
    → validate_parameters delete_data p ≡ (
        is_some p.name
        && (is_some p.process_id
            && (is_some p.start_block_id
                && (is_some p.end_block_id
                    && (leb (value p.start_block_id) (value p.end_block_id)
                        && (not (is_some p.node_prefix)
                            && (not (is_some p.from)
                                && (not (is_some p.to)
                                    && (not (is_some p.interest_lifetime)
                                        && not (is_some p.cluster_prefix))))))))))
unfolding validate_parameters validate_request validate request_validator validate_fields check
validate_parameters-delete_data p = ground arith
