-- ===== src/KeySpace/Handle.antt =====
-- src/handles/keyspace-handle.cpp: the state of `KeySpaceHandle`, its handlers and the callbacks
-- of the interests that it sends. Timeouts that only log are left out.
use difs.Prelude.{
  Text, text_eq, starts_with, ℕ, zero, suc, ◌+◌, ◌%◌, ◌^◌, ◌/◌, ◌==◌, ltb, List, [], ◌∷◌, ◌++◌,
  Option, none, some, if◌then◌else◌,
}
use difs.Prelude.Int.{ℤ}
use difs.Prelude.Hex.{hex, stoi_hex}
use difs.Json.{JsonCodec, ◌>>=◌}
use difs.Tlv.{Element}
use difs.Command.Parameter.{RepoCommandParameter}
use difs.Command.Response.{RepoCommandResponse, make}
use difs.KeySpace.{KeySpaceDoc, initial_doc, add_node, delete_node, next, rounds}

pub record KeySpaceHandle : Type 0 where
  pub repo_prefix : Text
  pub manager_prefix : Text
  pub version_num : ℕ
  pub version : Text
  pub key_space_file : Text
  pub manifest_list : Text
  pub start : ℤ
  pub end : ℤ
  pub from : Text
  pub to : Text

-- What a handler puts on the face: replies, and interests by the node, the command and its
-- argument.
pub data Sent : Type 0 where
  replied : RepoCommandResponse → Sent
  replied_text : Text → Sent
  asked_version : Text → Text → Sent
  asked_fetch : Text → Text → Sent
  asked_coordination : Text → Text → Sent
  asked_manifest_list : Text → Sent
  asked_complete : Text → Sent
  asked_manifest : Text → Text → Sent
  asked_delete_manifest : Text → Text → Sent

-- A handler ends, or throws; either way it may have changed the state and sent something.
pub data Outcome : Type 0 where
  done : KeySpaceHandle → List Sent → Outcome
  threw : KeySpaceHandle → List Sent → Outcome

-- A `std::string` made from a `const char*` ends before the first zero byte.
unfoldable pub c_text : Text → Text
c_text [] = []
c_text (c ∷ t) = let rest = c ∷ c_text t in if c == 0 then [] else rest

-- `std::to_string` of a 64-bit word, which has at most twenty digits.
unfoldable pub decimal_go : ℕ → ℕ → Text
decimal_go zero n = (48 + n % 10) ∷ []
decimal_go (suc k) n =
    let more = decimal_go k (n / 10) ++ (48 + n % 10) ∷ [] in
    if ltb n 10 then (48 + n % 10) ∷ [] else more

abbrev pub decimal : ℕ → Text
decimal n = decimal_go 19 n

-- `m_version = "v" + std::to_string(m_versionNum++)`.
unfoldable pub next_version : KeySpaceHandle → KeySpaceHandle
unfolding decimal_go
next_version h = record h {
  version = 118 ∷ decimal h.version_num;
  version_num = (h.version_num + 1) % 2 ^ 64;
}

-- `negativeReply(interest, "", 200)` of the base class.
abbrev pub ok_reply : Sent
ok_reply = replied (make 200 [])

abbrev tail : KeySpaceDoc → KeySpaceDoc
tail [] = []
tail (n ∷ ns) = ns

unfoldable pub ask_versions : Text → KeySpaceDoc → List Sent
ask_versions version [] = []
ask_versions version (n ∷ ns) = asked_version n.node version ∷ ask_versions version ns

-- The loop of `onFetchCommandResponse`: the range of the first entry of this node. The start is
-- set before the end is read.
unfoldable pub own_range : Text → KeySpaceDoc → Option (Option (ℤ × Option ℤ))
own_range name [] = some none
own_range name (n ∷ ns) =
    let rest = own_range name ns in
    if text_eq n.node name
    then (do start ← stoi_hex n.start; some (some (start, stoi_hex n.end)))
    else rest

-- The numbers `start`, `start + 1`, … whose hexadecimal digits, with no leading zero, the name
-- starts with, in the loops of `onManifestListCommandResponse` and `onCompleteCommandResponse`:
-- one `sent` for each.
unfoldable pub matches : ℕ → ℤ → Text → Sent → List Sent
matches zero start name sent = []
matches (suc left) start name sent =
    let rest = matches left (next start) name sent in
    if starts_with (hex start) name then sent ∷ rest else rest

unfoldable pub for_names : (Text → Sent) → ℤ → ℤ → List Text → List Sent
unfolding matches rounds
for_names sent start end [] = []
for_names sent start end (name ∷ names) =
    matches (rounds start end) start name (sent name) ++ for_names sent start end names

module _ (json : JsonCodec KeySpaceDoc) where
  unfoldable pub init_key_space_file : KeySpaceHandle → KeySpaceHandle
  unfolding next_version initial_doc
  init_key_space_file h =
      next_version (record h { key_space_file = json.write_json (initial_doc h.repo_prefix) })

  -- The new document, as `handleAddCommand` and `handleDeleteCommand` end: it is written, the
  -- command is answered, and `onVersionCommand` tells every node but the first.
  unfoldable pub tell_versions : KeySpaceHandle → Option KeySpaceDoc → Outcome
  unfolding ask_versions
  tell_versions h none = threw h (ok_reply ∷ [])
  tell_versions h (some doc) = done h (ok_reply ∷ ask_versions h.version (tail doc))

  unfoldable pub publish : KeySpaceHandle → KeySpaceDoc → Outcome
  unfolding next_version tell_versions
  publish h doc =
      let h' = next_version (record h { key_space_file = json.write_json doc }) in
      tell_versions h' (json.read_json h'.key_space_file)

  unfoldable pub publish_added : KeySpaceHandle → Option (Option KeySpaceDoc) → Outcome
  unfolding publish
  publish_added h none = threw h []
  publish_added h (some none) = done h []
  publish_added h (some (some doc)) = publish h doc

  unfoldable pub publish_left : KeySpaceHandle → Option KeySpaceDoc → Outcome
  unfolding publish
  publish_left h none = threw h []
  publish_left h (some doc) = publish h doc

  -- The first lines of both: a missing field is a null pointer, and counts as a throw.
  unfoldable pub take_names : RepoCommandParameter → KeySpaceHandle → Option KeySpaceHandle
  unfolding c_text
  take_names p h = do
    from ← p.from
    to ← p.to
    some (record h { from = c_text from.value; to = c_text to.value })

  abbrev with_names : KeySpaceHandle → Option KeySpaceHandle → (KeySpaceHandle → Outcome) → Outcome
  with_names h none f = threw h []
  with_names h (some h') f = f h'

  unfoldable pub handle_add_command : RepoCommandParameter → KeySpaceHandle → Outcome
  unfolding take_names publish_added
  handle_add_command p h = with_names h (take_names p h) (λ h'.
      publish_added h' (do doc ← json.read_json h'.key_space_file; add_node h'.from h'.to doc))

  -- `unset` is what the stack holds where `fromStart` and `fromEnd` lie.
  unfoldable pub handle_delete_command : ℤ × ℤ → RepoCommandParameter → KeySpaceHandle → Outcome
  unfolding take_names publish_left
  handle_delete_command unset p h = with_names h (take_names p h) (λ h'.
      publish_left h'
        (do doc ← json.read_json h'.key_space_file; delete_node h'.from h'.to unset doc))

  unfoldable pub handle_ring_info_command : KeySpaceHandle → Outcome
  handle_ring_info_command h = done h (replied_text h.key_space_file ∷ [])

  -- The handlers on versions: `version` is the last component of the interest's name.
  unfoldable pub handle_version_command : Text → KeySpaceHandle → Outcome
  handle_version_command version h =
      if text_eq version h.version
      then done h (ok_reply ∷ [])
      else done h (asked_fetch h.manager_prefix version ∷ ok_reply ∷ [])

  unfoldable pub handle_fetch_command : Text → KeySpaceHandle → Outcome
  handle_fetch_command version h = done h (
      replied_text (if text_eq version h.version then h.key_space_file else [])
      ∷ asked_coordination h.to h.from
      ∷ [])

  abbrev take_range : KeySpaceHandle → Option (Option (ℤ × Option ℤ)) → Outcome
  take_range h none = threw h []
  take_range h (some none) = done h []
  take_range h (some (some (start, none))) = threw (record h { start = start }) []
  take_range h (some (some (start, some end))) = done (record h { start = start; end = end }) []

  unfoldable pub on_fetch_command_response : Text → Text → KeySpaceHandle → Outcome
  unfolding c_text own_range
  on_fetch_command_response version [] h = done h []
  on_fetch_command_response version (c ∷ content) h =
      let h' = record h { version = version; key_space_file = c_text (c ∷ content) } in
      take_range h' (do doc ← json.read_json h'.key_space_file; own_range h'.repo_prefix doc)

  -- `handleCoordinationCommand` ends with `onManifestListCommand`.
  abbrev take_from : Option Element → KeySpaceHandle → KeySpaceHandle
  take_from none h = h
  take_from (some e) h = record h { from = c_text e.value }

  unfoldable pub handle_coordination_command : RepoCommandParameter → KeySpaceHandle → Outcome
  unfolding c_text
  handle_coordination_command p h =
      let h' = take_from p.from h in done h' (ok_reply ∷ asked_manifest_list h'.from ∷ [])

-- The manifests that change hands. The list is a document of the names.
module _ (lists : JsonCodec (List Text)) where
  abbrev send_all : KeySpaceHandle → Option (List Sent) → Outcome
  send_all h none = threw h []
  send_all h (some sent) = done h sent

  unfoldable pub on_manifest_list_command_response : Text → KeySpaceHandle → Outcome
  unfolding c_text for_names
  on_manifest_list_command_response [] h = done h []
  on_manifest_list_command_response (c ∷ content) h =
      let h' = record h { manifest_list = c_text (c ∷ content) } in
      send_all h' (do
        names ← lists.read_json h'.manifest_list
        some (
            for_names (asked_manifest h'.from) h'.start h'.end names
            ++ asked_complete h'.manager_prefix ∷ []))

  unfoldable pub handle_complete_command : KeySpaceHandle → Outcome
  handle_complete_command h = done h (ok_reply ∷ [])

  unfoldable pub on_complete_command_response : KeySpaceHandle → Outcome
  unfolding for_names
  on_complete_command_response h = send_all h (do
    names ← lists.read_json h.manifest_list
    some (for_names (asked_delete_manifest h.from) h.start h.end names))
