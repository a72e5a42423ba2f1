-- ===== src/Client/Callbacks.antt =====
-- lib/difs.cpp: what the class `DIFS` does when an interest is answered, refused or not answered,
-- and `putFile` and `fetch`. What is only printed is left out.
use difs.Prelude.{
  Text, ℕ, ◌+◌, leb, ◌==◌, List, [], ◌∷◌, ◌++◌, Option, none, some, length, is_nil, if◌then◌else◌,
}
use difs.Prelude.Int.{◌-ℤ◌, negsuc, int_lt}
use difs.Json.{JsonCodec}
use difs.Manifest.{Manifest, Repo, ManifestDoc, from_json}
use difs.Command.Response.{RepoCommandResponse}
use difs.Client.{put_file_prepare_next_data}
use difs.Client.Commands.{
  Expects, delete_node, delete, get_info, get, insert, check, Request, expressed, fetched, filtered,
  check_later, stop_later, stopped, Difs, Outcome, done, threw, undefined, max_retry, delete_file,
  get_info_request, get_key_space_info, get_file, put_file_start_insert_command,
  put_file_start_check_command,
}

abbrev pub some_or {ℓ} : {A : Type ℓ} → A → Option A → A
some_or a none = a
some_or a (some b) = b

-- `if (m_retryCount++ < MAX_RETRY)` and the command that is sent again.
unfoldable pub retry : (Difs → Request) → Difs → Outcome
unfolding int_lt ◌-ℤ◌
retry again d =
    let d' = record d { retry_count = d.retry_count -ℤ negsuc 0 } in
    if int_lt d.retry_count max_retry then done d' (expressed (again d') ∷ []) else done d' []

-- The callbacks for a timeout, and those for a Nack, which do the same; `name` is the name of the
-- interest.
unfoldable pub on_delete_command_timeout : Text → Difs → Outcome
unfolding retry
on_delete_command_timeout name d = retry (delete_file name) d

unfoldable pub on_get_info_command_timeout : Difs → Outcome
unfolding retry
on_get_info_command_timeout d = retry get_info_request d

-- Nothing binds this one.
unfoldable pub on_get_key_space_info_command_timeout : Difs → Outcome
unfolding retry
on_get_key_space_info_command_timeout d = retry get_key_space_info d

unfoldable pub on_get_command_timeout : Text → Difs → Outcome
unfolding retry
on_get_command_timeout name d = retry (get_file name) d

unfoldable pub on_put_file_insert_command_timeout : Difs → Outcome
unfolding retry
on_put_file_insert_command_timeout d = retry put_file_start_insert_command d

unfoldable pub on_put_file_check_command_timeout : Difs → Outcome
unfolding retry
on_put_file_check_command_timeout d = retry put_file_start_check_command d

-- Whichever callback the interest was expressed with.
unfoldable pub on_timeout : Expects → Text → Difs → Outcome
unfolding on_delete_command_timeout on_get_info_command_timeout on_get_command_timeout
    on_put_file_insert_command_timeout on_put_file_check_command_timeout
on_timeout delete_node name d = done d []
on_timeout delete name d = on_delete_command_timeout name d
on_timeout get_info name d = on_get_info_command_timeout d
on_timeout get name d = on_get_command_timeout name d
on_timeout insert name d = on_put_file_insert_command_timeout d
on_timeout check name d = on_put_file_check_command_timeout d

-- `fetch`: the hint is the first repository, if there is one.
abbrev pub fetch_repos : Text → Difs → List Repo → Outcome
fetch_repos name d [] = undefined d
fetch_repos name d (r ∷ rs) = done d (fetched name r.name ∷ [])

abbrev pub fetch_from : (Text → ℕ → Text) → Difs → Option Manifest → Outcome
fetch_from append_segment d none = threw d
fetch_from append_segment d (some m) = fetch_repos (append_segment m.name 0) d m.repos

unfoldable pub fetch : (Text → ℕ → Text) → JsonCodec ManifestDoc → Difs → Outcome
fetch append_segment json d = fetch_from append_segment d (from_json json d.manifest)

unfoldable pub on_get_command_response :
    (Text → ℕ → Text) → JsonCodec ManifestDoc → Text → Difs → Outcome
unfolding fetch
on_get_command_response append_segment json content d =
    if is_nil content
    then done d []
    else fetch append_segment json (record d { manifest = content })

-- `putFile`: the packets are put before those that the object has already.
unfoldable pub put_file : Text → Text → Difs → Outcome
put_file name file d =
    let prepared = put_file_prepare_next_data file d.block_size in
    let d' = record d {
      data_prefix = name;
      ndn_name = name;
      packets = prepared ++ d.packets;
      current_segment_no = d.current_segment_no + length prepared;
    } in
    done d' (filtered name ∷ (if d.has_timeout then stop_later d.timeout ∷ [] else []))

unfoldable pub on_put_file_register_success : Difs → Outcome
on_put_file_register_success d = done d (expressed (put_file_start_insert_command d) ∷ [])

unfoldable pub on_put_file_register_failed : Difs → Outcome
on_put_file_register_failed d = threw d

-- `unset` is what `getProcessId` and `getInsertNum` return where the response has no such field.
unfoldable pub on_put_file_insert_command_response : ℕ → RepoCommandResponse → Difs → Outcome
on_put_file_insert_command_response unset response d =
    if leb 400 (some_or 0 response.code)
    then threw d
    else done (record d { process_id = some_or unset response.process_id })
        (check_later d.check_period ∷ [])

unfoldable pub on_put_file_check_command_response : ℕ → RepoCommandResponse → Difs → Outcome
on_put_file_check_command_response unset response d =
    if leb 400 (some_or 0 response.code)
    then threw d
    else if some_or unset response.insert_num == d.current_segment_no
    then done d (stopped ∷ [])
    else done d (check_later d.check_period ∷ [])

-- The two timers.
unfoldable pub on_check_timer : Difs → Outcome
on_check_timer d = done d (expressed (put_file_start_check_command d) ∷ [])

unfoldable pub put_file_stop_process : Difs → Outcome
put_file_stop_process d = done d (stopped ∷ [])

-- What the event loop hands to the object. Responses that only print are left out.
pub data Event : Type 0 where
  timed_out : Expects → Text → Event
  got : Text → Event
  registered register_failed : Event
  insert_answered check_answered : RepoCommandResponse → Event
  check_timer stop_timer : Event

unfoldable pub handle : (Text → ℕ → Text) → JsonCodec ManifestDoc → ℕ → Event → Difs → Outcome
unfolding on_timeout on_get_command_response on_put_file_register_success
    on_put_file_register_failed on_put_file_insert_command_response
    on_put_file_check_command_response on_check_timer put_file_stop_process
handle append_segment json unset (timed_out expects name) d = on_timeout expects name d
handle append_segment json unset (got content) d =
    on_get_command_response append_segment json content d
handle append_segment json unset registered d = on_put_file_register_success d
handle append_segment json unset register_failed d = on_put_file_register_failed d
handle append_segment json unset (insert_answered r) d =
    on_put_file_insert_command_response unset r d
handle append_segment json unset (check_answered r) d = on_put_file_check_command_response unset r d
handle append_segment json unset check_timer d = on_check_timer d
handle append_segment json unset stop_timer d = put_file_stop_process d
