-- ===== src/Client/Commands.antt =====
-- lib/difs.cpp and lib/difs.hpp: the commands that the class `DIFS` sends, the callbacks for their
-- answers, and the retries. An answer comes in decoded. The timers, the face and the output are
-- what a call sends; an interest is the command with its parameter and its flags.
use Prim.Native.String.{String}
use difs.Prelude.{Text, codes, ℕ, Bool, true, false, List, [], Option, none, some}
use difs.Prelude.Int.{ℤ, pos}
use difs.Command.Parameter
use difs.Command.Parameter.{
  RepoCommandParameter, tlv_from, tlv_to, set_from, set_to, set_name, set_process_id,
}
use difs.Client.{Segment}

-- The callbacks that an interest was expressed with.
pub data Expects : Type 0 where
  delete_node delete get_info get insert check : Expects

pub record Request : Type 0 where
  pub prefix : Text
  pub command : Text
  pub parameter : RepoCommandParameter
  pub forwarding_hint : Option Text
  pub lifetime : ℕ
  pub can_be_prefix : Bool
  pub must_be_fresh : Bool
  pub identity : Text
  pub expects : Expects

-- An interest, the fetcher of a file from a node, the filter for a prefix, the two timers, and the
-- end of the event loop.
pub data Sent : Type 0 where
  expressed : Request → Sent
  fetched : Text → Text → Sent
  filtered : Text → Sent
  check_later stop_later : ℕ → Sent
  stopped : Sent

-- The members that the commands use. `timeout` and `time_out` are the members `timeout`, which
-- nothing sets, and `m_timeout`; `retry_count` has no initial value in the source.
pub record Difs : Type 0 where
  pub common_name : Text
  pub repo_prefix : Text
  pub node_prefix : Option Text
  pub forwarding_hint : Option Text
  pub interest_lifetime : ℕ
  pub has_timeout : Bool
  pub time_out : ℕ
  pub timeout : ℕ
  pub block_size : ℕ
  pub identity_for_command : Text
  pub process_id : ℕ
  pub check_period : ℕ
  pub current_segment_no : ℕ
  pub ndn_name : Text
  pub data_prefix : Text
  pub retry_count : ℤ
  pub manifest : Text
  pub packets : List Segment

-- A call ends, throws, or reads a vector where it has no element.
pub data Outcome : Type 0 where
  done : Difs → List Sent → Outcome
  threw : Difs → Outcome
  undefined : Difs → Outcome

abbrev pub max_retry : ℤ
max_retry = pos 3

unfoldable pub set_node_prefix : Option Text → Difs → Difs
set_node_prefix h d = record d { node_prefix = h }

unfoldable pub set_forwarding_hint : Option Text → Difs → Difs
set_forwarding_hint h d = record d { forwarding_hint = h }

unfoldable pub set_repo_prefix : Text → Difs → Difs
set_repo_prefix n d = record d { repo_prefix = n }

unfoldable pub set_time_out : ℕ → Difs → Difs
set_time_out t d = record d { time_out = t }

unfoldable pub set_interest_lifetime : ℕ → Difs → Difs
set_interest_lifetime t d = record d { interest_lifetime = t }

unfoldable pub set_has_timeout : Bool → Difs → Difs
set_has_timeout b d = record d { has_timeout = b }

unfoldable pub set_block_size : ℕ → Difs → Difs
set_block_size n d = record d { block_size = n }

unfoldable pub set_identity_for_command : Text → Difs → Difs
set_identity_for_command i d = record d { identity_for_command = i }

-- A command to a prefix, with the hint and the lifetime that the class sets on all of them.
abbrev request : Text → String → RepoCommandParameter → Expects → Difs → Request
request prefix command p expects d = record {
  prefix = prefix;
  command = codes command;
  parameter = p;
  forwarding_hint = d.forwarding_hint;
  lifetime = d.interest_lifetime;
  can_be_prefix = false;
  must_be_fresh = false;
  identity = [];
  expects = expects;
}

unfoldable pub delete_node_request : Text → Text → Difs → Request
unfolding set_from set_to
delete_node_request from to d =
    record (request d.common_name "del-node"
      (set_to (record { type = tlv_to; value = to })
        (set_from (record { type = tlv_from; value = from }) Parameter.empty))
      delete_node d) { must_be_fresh = true }

unfoldable pub delete_file : Text → Difs → Request
unfolding set_process_id set_name
delete_file name d =
    record (request d.common_name "delete" (set_name name (set_process_id 0 Parameter.empty)) delete
      d) { must_be_fresh = true }

unfoldable pub get_info_request : Difs → Request
get_info_request d = request d.repo_prefix "info" Parameter.empty get_info d

-- The interest is expressed with the callbacks of `getInfo`.
unfoldable pub get_key_space_info : Difs → Request
get_key_space_info d = request d.repo_prefix "ringInfo" Parameter.empty get_info d

unfoldable pub get_file : Text → Difs → Request
unfolding set_name
get_file name d = record (request d.repo_prefix "get" (set_name name Parameter.empty) get d) {
  can_be_prefix = true;
  must_be_fresh = true;
}

abbrev with_node_prefix : Option Text → RepoCommandParameter → RepoCommandParameter
with_node_prefix none p = p
with_node_prefix (some h) p = Parameter.set_node_prefix h p

unfoldable pub put_file_start_insert_command : Difs → Request
unfolding set_name Parameter.set_node_prefix
put_file_start_insert_command d =
    record (request d.repo_prefix "insert"
      (with_node_prefix d.node_prefix (set_name d.data_prefix Parameter.empty)) insert d) {
        identity = d.identity_for_command;
      }

unfoldable pub put_file_start_check_command : Difs → Request
unfolding set_name Parameter.set_node_prefix set_process_id
put_file_start_check_command d =
    record (request d.repo_prefix "insert check"
      (set_process_id d.process_id
        (with_node_prefix d.node_prefix (set_name d.ndn_name Parameter.empty)))
      check d) { identity = d.identity_for_command }
