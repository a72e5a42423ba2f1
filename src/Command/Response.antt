-- ===== src/Command/Response.antt =====
-- src/repo-command-response.hpp and repo-command-response.cpp, with the part of
-- `ndn::mgmt::ControlResponse` that they set. A flag `m_has…` and its value are an `Option`;
-- `wire` is the cached `m_wire` of this class.
pub mod RoundTrip
use difs.Prelude.{
  Text, ℕ, ◌%◌, ◌^◌, Bool, true, false, ◌==◌, List, [], Option, none, some, if◌then◌else◌,
}
use difs.Json.{◌>>=◌}
use difs.Tlv.{Element, Tlv, Encoder, start, prepend_integer, close_block}
use difs.Tlv.Fields.{find, optional}
use difs.Command.Parameter.{tlv_start_block_id, tlv_end_block_id, tlv_process_id}

abbrev pub tlv_response : ℕ
tlv_response = 207

abbrev pub tlv_status_code : ℕ
tlv_status_code = 208

abbrev pub tlv_insert_num : ℕ
tlv_insert_num = 209

abbrev pub tlv_delete_num : ℕ
tlv_delete_num = 210

pub record RepoCommandResponse : Type 0 where
  pub code : Option ℕ
  pub text : Text
  pub body : Text
  pub start_block_id : Option ℕ
  pub end_block_id : Option ℕ
  pub process_id : Option ℕ
  pub insert_num : Option ℕ
  pub delete_num : Option ℕ
  pub wire : Option Text

-- The default constructor, where the memory was set to zero before, as in a map's new entry.
abbrev pub empty : RepoCommandResponse
empty = record {
  code = none;
  text = [];
  body = [];
  start_block_id = none;
  end_block_id = none;
  process_id = none;
  insert_num = none;
  delete_num = none;
  wire = none;
}

-- The constructor with a code and a text.
unfoldable pub make : ℕ → Text → RepoCommandResponse
make code text = record empty { code = some (code % 2 ^ 32); text = text }

unfoldable pub set_start_block_id : ℕ → RepoCommandResponse → RepoCommandResponse
set_start_block_id n r = record r { start_block_id = some n; wire = none }

unfoldable pub set_end_block_id : ℕ → RepoCommandResponse → RepoCommandResponse
set_end_block_id n r = record r { end_block_id = some n; wire = none }

unfoldable pub set_process_id : ℕ → RepoCommandResponse → RepoCommandResponse
set_process_id n r = record r { process_id = some n; wire = none }

-- The base class resets its own cache, and this one stays.
unfoldable pub set_code : ℕ → RepoCommandResponse → RepoCommandResponse
set_code c r = record r { code = some (c % 2 ^ 32) }

unfoldable pub set_insert_num : ℕ → RepoCommandResponse → RepoCommandResponse
set_insert_num n r = record r { insert_num = some n; wire = none }

unfoldable pub set_delete_num : ℕ → RepoCommandResponse → RepoCommandResponse
set_delete_num n r = record r { delete_num = some n; wire = none }

unfoldable pub set_text : Text → RepoCommandResponse → RepoCommandResponse
set_text t r = record r { text = t }

unfoldable pub set_body : Text → RepoCommandResponse → RepoCommandResponse
set_body b r = record r { body = b }

module _ (T : Tlv) where
  -- `wireEncode(encoder)` with the status code `code`, up to the last two lines.
  unfoldable pub encode_fields : ℕ → RepoCommandResponse → Encoder
  encode_fields code r =
      let e1 = optional r.delete_num (prepend_integer T tlv_delete_num) start in
      let e2 = optional r.insert_num (prepend_integer T tlv_insert_num) e1 in
      let e3 = optional r.end_block_id (prepend_integer T tlv_end_block_id) e2 in
      let e4 = optional r.start_block_id (prepend_integer T tlv_start_block_id) e3 in
      let e5 = prepend_integer T tlv_status_code code e4 in
      optional r.process_id (prepend_integer T tlv_process_id) e5

  -- `none` is "required field StatusCode is missing".
  unfoldable pub encode : RepoCommandResponse → Option Encoder
  unfolding encode_fields
  encode r = do code ← r.code; some (close_block T tlv_response (encode_fields code r))

  abbrev cached : Option Text → Option Encoder → Option Text
  cached (some w) fresh = some w
  cached none fresh = do e ← fresh; some e.buffer

  -- `wireEncode()`: the cached wire, or a new one, which is kept.
  unfoldable pub wire_encode : RepoCommandResponse → Option (Text × RepoCommandResponse)
  unfolding encode
  wire_encode r = do w ← cached r.wire (encode r); some (w, record r { wire = some w })

  -- A field of `wireDecode` that may be missing; the outer `none` is an exception.
  abbrev take_integer : Option Text → Option (Option ℕ)
  take_integer none = some none
  take_integer (some v) = do n ← T.read_nonneg v; some (some n)

  unfoldable pub decode_elements : List Element → RepoCommandResponse → Option RepoCommandResponse
  decode_elements es r = do
    start ← take_integer (find tlv_start_block_id es)
    end ← take_integer (find tlv_end_block_id es)
    process ← take_integer (find tlv_process_id es)
    status ← take_integer (find tlv_status_code es)
    code ← status
    insert ← take_integer (find tlv_insert_num es)
    delete ← take_integer (find tlv_delete_num es)
    some (record r {
      code = some (code % 2 ^ 32);
      start_block_id = start;
      end_block_id = end;
      process_id = process;
      insert_num = insert;
      delete_num = delete;
    })

  -- `wireDecode(wire)`: every flag is reset first.
  unfoldable pub wire_decode : Text → RepoCommandResponse → Option RepoCommandResponse
  unfolding decode_elements
  wire_decode wire r = do
    (type, es) ← T.parse_block wire
    if type == tlv_response then decode_elements es (record r { wire = some wire }) else none
