-- ===== src/Command/Parameter.antt =====
-- src/repo-command-parameter.hpp and repo-command-parameter.cpp. A flag of `m_hasFields` and its
-- value are an `Option`; `wire` is the cached `m_wire`.
pub mod RoundTrip
use difs.Prelude.{
  Text, ℕ, Bool, true, false, ◌==◌, List, Option, none, some, is_some, if◌then◌else◌,
}
use difs.Json.{◌>>=◌}
use difs.Tlv.{Element, Tlv, Encoder, start, prepend_integer, prepend_block, close_block}
use difs.Tlv.Fields.{find, optional, map_option}

-- src/repo-tlv.hpp, and the types of ndn-cxx that the packets use.
abbrev pub tlv_name : ℕ
tlv_name = 7

abbrev pub tlv_interest_lifetime : ℕ
tlv_interest_lifetime = 12

abbrev pub tlv_forwarding_hint : ℕ
tlv_forwarding_hint = 30

abbrev pub tlv_parameter : ℕ
tlv_parameter = 201

abbrev pub tlv_from : ℕ
tlv_from = 202

abbrev pub tlv_to : ℕ
tlv_to = 203

abbrev pub tlv_start_block_id : ℕ
tlv_start_block_id = 204

abbrev pub tlv_end_block_id : ℕ
tlv_end_block_id = 205

abbrev pub tlv_process_id : ℕ
tlv_process_id = 206

abbrev pub tlv_cluster_prefix : ℕ
tlv_cluster_prefix = 211

pub record RepoCommandParameter : Type 0 where
  pub node_prefix : Option Text
  pub name : Option Text
  pub from : Option Element
  pub to : Option Element
  pub start_block_id : Option ℕ
  pub end_block_id : Option ℕ
  pub process_id : Option ℕ
  pub interest_lifetime : Option ℕ
  pub cluster_prefix : Option Element
  pub wire : Option Text

-- The default constructor.
abbrev pub empty : RepoCommandParameter
empty = record {
  node_prefix = none;
  name = none;
  from = none;
  to = none;
  start_block_id = none;
  end_block_id = none;
  process_id = none;
  interest_lifetime = none;
  cluster_prefix = none;
  wire = none;
}

unfoldable pub set_node_prefix : Text → RepoCommandParameter → RepoCommandParameter
set_node_prefix h p = record p { node_prefix = some h; wire = none }

unfoldable pub set_from : Element → RepoCommandParameter → RepoCommandParameter
set_from b p = record p { from = some b; wire = none }

unfoldable pub set_to : Element → RepoCommandParameter → RepoCommandParameter
set_to b p = record p { to = some b; wire = none }

unfoldable pub set_name : Text → RepoCommandParameter → RepoCommandParameter
set_name n p = record p { name = some n; wire = none }

unfoldable pub set_start_block_id : ℕ → RepoCommandParameter → RepoCommandParameter
set_start_block_id n p = record p { start_block_id = some n; wire = none }

unfoldable pub set_end_block_id : ℕ → RepoCommandParameter → RepoCommandParameter
set_end_block_id n p = record p { end_block_id = some n; wire = none }

unfoldable pub set_process_id : ℕ → RepoCommandParameter → RepoCommandParameter
set_process_id n p = record p { process_id = some n; wire = none }

unfoldable pub set_interest_lifetime : ℕ → RepoCommandParameter → RepoCommandParameter
set_interest_lifetime n p = record p { interest_lifetime = some n; wire = none }

unfoldable pub set_cluster_prefix : Element → RepoCommandParameter → RepoCommandParameter
set_cluster_prefix b p = record p { cluster_prefix = some b; wire = none }

module _ (T : Tlv) where
  abbrev name_block : Text → Element
  name_block n = record { type = tlv_name; value = T.name_value n }

  abbrev hint_block : Text → Element
  hint_block h = record { type = tlv_forwarding_hint; value = T.hint_value h }

  -- `wireEncode(encoder)`, up to the last two lines.
  unfoldable pub encode_fields : RepoCommandParameter → Encoder
  encode_fields p =
      let e1 = optional p.cluster_prefix (prepend_block T) start in
      let e2 = optional p.process_id (prepend_integer T tlv_process_id) e1 in
      let e3 = optional p.end_block_id (prepend_integer T tlv_end_block_id) e2 in
      let e4 = optional p.start_block_id (prepend_integer T tlv_start_block_id) e3 in
      let e5 = optional p.interest_lifetime (prepend_integer T tlv_interest_lifetime) e4 in
      let e6 = optional (map_option name_block p.name) (prepend_block T) e5 in
      let e7 = optional p.from (prepend_block T) e6 in
      let e8 = optional p.to (prepend_block T) e7 in
      optional (map_option hint_block p.node_prefix) (prepend_block T) e8

  unfoldable pub encode : RepoCommandParameter → Encoder
  unfolding encode_fields
  encode p = close_block T tlv_parameter (encode_fields p)

  -- `wireEncode()`: the cached wire, or a new one, which is kept.
  abbrev cached : Option Text → Text → Text
  cached (some w) fresh = w
  cached none fresh = fresh

  unfoldable pub wire_encode : RepoCommandParameter → Text × RepoCommandParameter
  unfolding encode
  wire_encode p = let w = cached p.wire (encode p).buffer in (w, record p { wire = some w })

  -- The steps of `wireDecode`; `none` is an exception.
  abbrev take_name : Option Text → RepoCommandParameter → Option RepoCommandParameter
  take_name none p = some p
  take_name (some v) p = do n ← T.read_name v; some (record p { name = some n })

  abbrev take_from : Option Text → RepoCommandParameter → Option RepoCommandParameter
  take_from none p = some p
  take_from (some v) p = some (record p { from = some (record { type = tlv_from; value = v }) })

  abbrev take_to : Option Text → RepoCommandParameter → Option RepoCommandParameter
  take_to none p = some p
  take_to (some v) p = some (record p { to = some (record { type = tlv_to; value = v }) })

  abbrev take_hint : Option Text → RepoCommandParameter → Option RepoCommandParameter
  take_hint none p = some p
  take_hint (some v) p = do h ← T.read_hint v; some (record p { node_prefix = some h })

  abbrev take_start : Option Text → RepoCommandParameter → Option RepoCommandParameter
  take_start none p = some p
  take_start (some v) p = do n ← T.read_nonneg v; some (record p { start_block_id = some n })

  abbrev take_end : Option Text → RepoCommandParameter → Option RepoCommandParameter
  take_end none p = some p
  take_end (some v) p = do n ← T.read_nonneg v; some (record p { end_block_id = some n })

  abbrev take_process : Option Text → RepoCommandParameter → Option RepoCommandParameter
  take_process none p = some p
  take_process (some v) p = do n ← T.read_nonneg v; some (record p { process_id = some n })

  abbrev take_lifetime : Option Text → RepoCommandParameter → Option RepoCommandParameter
  take_lifetime none p = some p
  take_lifetime (some v) p = do n ← T.read_nonneg v; some (record p { interest_lifetime = some n })

  abbrev take_cluster : Option Text → RepoCommandParameter → Option RepoCommandParameter
  take_cluster none p = some p
  take_cluster (some v) p =
      some (record p { cluster_prefix = some (record { type = tlv_cluster_prefix; value = v }) })

  unfoldable pub decode_elements : List Element → RepoCommandParameter → Option RepoCommandParameter
  decode_elements es p = do
    p1 ← take_name (find tlv_name es) p
    p2 ← take_from (find tlv_from es) p1
    p3 ← take_to (find tlv_to es) p2
    p4 ← take_hint (find tlv_forwarding_hint es) p3
    p5 ← take_start (find tlv_start_block_id es) p4
    p6 ← take_end (find tlv_end_block_id es) p5
    p7 ← take_process (find tlv_process_id es) p6
    p8 ← take_lifetime (find tlv_interest_lifetime es) p7
    take_cluster (find tlv_cluster_prefix es) p8

  -- `wireDecode(wire)` into a parameter that may have fields already: they are kept where the wire
  -- has none.
  unfoldable pub wire_decode : Text → RepoCommandParameter → Option RepoCommandParameter
  unfolding decode_elements
  wire_decode wire p = do
    (type, es) ← T.parse_block wire
    if type == tlv_parameter then decode_elements es (record p { wire = some wire }) else none
