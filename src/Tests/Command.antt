-- ===== src/Tests/Command.antt =====
-- The packets of the commands, and their validation.
use difs.Prelude.{Text, codes, ◌≡◌, refl, [], ◌∷◌, none, some, arith, length, ◌↔◌}
use difs.Tlv.{Encoder}
use difs.Command.Parameter
use difs.Command.Parameter.{RepoCommandParameter}
use difs.Command.Parameter.RoundTrip.{HasBlockTypes, HasWords, wire_decode-wire_encode}
use difs.Command.Response
use difs.Command.Response.{RepoCommandResponse, make, set_process_id, set_code}
use difs.Command.Response.RoundTrip.{HasWords as HasReplyWords, wire_decode-encode}
use difs.Command.Validation.{
  ParameterField, insert, delete, request_validator, validate, validate_fields, check,
}
use difs.Command.Validation.Fields.{Fits, validate-eq-none_iff}
use difs.Command.Validation.Commands.{check-delete}
use difs.Examples.Protocol.{tlv}

abbrev parameter : RepoCommandParameter
parameter = record Parameter.empty {
  name = some (codes "/a/b");
  from = some (record { type = 202; value = codes "/m" });
  start_block_id = some 0;
  end_block_id = some 7;
  process_id = some 5;
}

parameter-HasBlockTypes : HasBlockTypes parameter
parameter-HasBlockTypes = record { from = λ b e. grind arith; to = λ b e. cc; cluster = λ b e. cc }

parameter-HasWords : HasWords parameter
parameter-HasWords = record {
  start = omega arith;
  end = omega arith;
  process = omega arith;
  lifetime = tt;
}

wire_decode-wire_encode_example :
    Parameter.wire_decode tlv (Parameter.wire_encode tlv parameter).0 Parameter.empty
    ≡ some (Parameter.wire_encode tlv parameter).1
wire_decode-wire_encode_example =
    wire_decode-wire_encode tlv parameter parameter-HasBlockTypes parameter-HasWords refl

abbrev response : RepoCommandResponse
response = record Response.empty { code = some 200; process_id = some 5; insert_num = some 3 }

response-HasWords : HasReplyWords response
response-HasWords = record {
  start = tt;
  end = tt;
  process = omega arith;
  insert = omega arith;
  delete = tt;
}

wire_decode-encode_example :
    (e : Encoder) × (Response.encode tlv response ≡ some e)
    × (e.total ≡ length e.buffer)
    × (Response.wire_decode tlv e.buffer Response.empty
        ≡ some (record response { text = []; body = []; wire = some e.buffer }))
wire_decode-encode_example =
    wire_decode-encode tlv 200 response Response.empty refl (omega arith) response-HasWords

abbrev sent : Text
sent = 207 ∷ 3 ∷ 208 ∷ 1 ∷ 100 ∷ []

abbrev waiting : RepoCommandResponse
waiting = record Response.empty { code = some 100 }

wire_of_waiting :
    Response.wire_encode tlv waiting ≡ some (sent, record waiting { wire = some sent })
unfolding Response.wire_encode
wire_of_waiting = refl

abbrev named : RepoCommandParameter
named = record Parameter.empty { name = some (codes "/a") }

validate-eq-none_iff_example :
    (validate (request_validator insert) named ≡ none)
    ↔ ((f : ParameterField) → Fits (request_validator insert) named f)
validate-eq-none_iff_example = validate-eq-none_iff (request_validator insert) named

check-delete_example : check delete (record named { process_id = some 3 }) ≡ none
unfolding validate request_validator validate_fields
check-delete_example = check-delete (record named { process_id = some 3 }) refl
