-- ===== src/WriteHandle/State.antt =====
-- src/handles/write-handle.hpp: the processes of `WriteHandle`, and what its handlers send.
use difs.Prelude.{
  Text, ℕ, ◌+◌, ◌-◌, ◌%◌, ◌^◌, ltb, ◌==◌, Bool, false, [], ◌∷◌, Option, none, some, if◌then◌else◌,
}
use difs.Prelude.Int.{ℤ, pos}
use difs.Manifest.{Manifest}
use difs.Command.Parameter.{RepoCommandParameter}
use difs.Command.Response
use difs.Command.Response.{
  RepoCommandResponse, set_code, set_body, set_process_id, set_insert_num, set_start_block_id,
  set_end_block_id, wire_encode,
}

-- `ProcessInfo`, without the fields that nothing uses.
pub record ProcessInfo : Type 0 where
  pub response : RepoCommandResponse
  pub no_end_time : ℕ
  pub repo : Text
  pub name : Text
  pub start_block_id : ℤ
  pub end_block_id : ℤ
  pub manifest : Option Manifest
  pub manifest_sent : Bool

-- A new entry of the map, which the map sets to zero.
abbrev pub no_process : ProcessInfo
no_process = record {
  response = Response.empty;
  no_end_time = 0;
  repo = [];
  name = [];
  start_block_id = pos 0;
  end_block_id = pos 0;
  manifest = none;
  manifest_sent = false;
}

-- A segment fetcher that is started, for the process that gets its segments.
pub record Fetch : Type 0 where
  pub name : Text
  pub segment : ℕ
  pub credit : ℕ
  pub hint : Option Text
  pub process : ℕ

-- The answer of a control command, a reply, the interests to other nodes, the start and the stop
-- of a fetcher, the deferred deletion of a process, and `afterDataInsertion`.
pub data Sent : Type 0 where
  answered : RepoCommandResponse → Sent
  replied_text : Text → Sent
  asked_find : Text → RepoCommandParameter → Sent
  asked_create : Text → RepoCommandParameter → Sent
  asked_data : Text → Option Text → ℕ → Sent
  fetched : Fetch → Sent
  stopped : Sent
  deferred : ℕ → Sent
  signalled : Text → Sent

abbrev pub some_or {ℓ} : {A : Type ℓ} → A → Option A → A
some_or a none = a
some_or a (some b) = b

-- `min(m_credit, end - start + 1)`, in 64-bit words.
unfoldable pub initial_credit : Option ℕ → ℕ → ℕ
initial_credit none start = 12
initial_credit (some end) start =
    let n = (end + 2 ^ 64 - start + 1) % 2 ^ 64 in if ltb n 12 then n else 12

-- `name.substr(name.rfind("/") + 1)`; with no slash the whole name.
unfoldable pub after_slash : Text → Text → Text
after_slash best [] = best
after_slash best (c ∷ t) = after_slash (if c == 47 then t else best) t

abbrev pub last_component : Text → Text
last_component name = after_slash name name
