-- ===== src/Client/Retry.antt =====
-- The retries of the commands: how many there are, and which of them repeat the command.
use difs.Prelude.{
  Text, ℕ, ◌+◌, ◌≤◌, ◌<◌, ◌≡◌, ◌≢◌, ◌⊎◌, inl, inr, refl, ap, true, List, [], ◌∷◌, Option, none,
  some, length, arith,
}
use difs.Prelude.Int.{pos_part, ◌-ℤ◌, int_lt}
use difs.Json.{JsonCodec}
use difs.Manifest.{Manifest, Repo, from_json, ManifestDoc}
use difs.Client.Commands.{
  Expects, delete_node, delete, get_info, get, insert, check, Request, Sent, expressed, Difs,
  Outcome, done, threw, undefined, max_retry, delete_file, get_info_request, get_key_space_info,
  get_file, put_file_start_insert_command, put_file_start_check_command,
}
use difs.Client.Callbacks.{
  retry, on_timeout, on_get_command_response, fetch, fetch_repos, fetch_from, Event, timed_out, got,
  registered, register_failed, insert_answered, check_answered, check_timer, stop_timer, handle,
}

abbrev pub state_of : Outcome → Difs
state_of (done d sent) = d
state_of (threw d) = d
state_of (undefined d) = d

abbrev pub sent_by : Outcome → List Sent
sent_by (done d sent) = sent
sent_by (threw d) = []
sent_by (undefined d) = []

-- The retries that are left.
abbrev pub budget : Difs → ℕ
budget d = pos_part (max_retry -ℤ d.retry_count)

-- The commands that a failure makes the object send.
abbrev pub resent : Event → Outcome → ℕ
resent (timed_out expects name) o = length (sent_by o)
resent e o = 0

retry-budget :
    (again : Difs → Request) (d : Difs)
    → length (sent_by (retry again d)) + budget (state_of (retry again d)) ≤ budget d
unfolding retry int_lt ◌-ℤ◌
retry-budget again d = ground arith

fetch_repos-retry_count :
    (name : Text) (d : Difs) (rs : List Repo)
    → (state_of (fetch_repos name d rs)).retry_count ≡ d.retry_count
fetch_repos-retry_count name d [] = refl
fetch_repos-retry_count name d (r ∷ rs) = refl

fetch_from-retry_count :
    (append_segment : Text → ℕ → Text) (d : Difs) (m : Option Manifest)
    → (state_of (fetch_from append_segment d m)).retry_count ≡ d.retry_count
fetch_from-retry_count append_segment d none = refl
fetch_from-retry_count append_segment d (some m) =
    fetch_repos-retry_count (append_segment m.name 0) d m.repos

module _ (append_segment : Text → ℕ → Text) (json : JsonCodec ManifestDoc) (unset : ℕ) where
  pub resends : List Event → Difs → ℕ
  resends [] d = 0
  resends (e ∷ es) d =
      resent e (handle append_segment json unset e d)
      + resends es (state_of (handle append_segment json unset e d))

  handle-budget :
      (e : Event) (d : Difs)
      → let o = handle append_segment json unset e d in resent e o + budget (state_of o) ≤ budget d
  unfolding handle on_get_command_response fetch
  handle-budget (timed_out delete_node name) d = omega arith
  handle-budget (timed_out delete name) d = retry-budget (delete_file name) d
  handle-budget (timed_out get_info name) d = retry-budget get_info_request d
  handle-budget (timed_out get name) d = retry-budget (get_file name) d
  handle-budget (timed_out insert name) d = retry-budget put_file_start_insert_command d
  handle-budget (timed_out check name) d = retry-budget put_file_start_check_command d
  handle-budget (got content) d = ground (
    arith,
    fetch_from-retry_count append_segment (record d { manifest = content })
        (from_json json content),
  )
  handle-budget registered d = omega arith
  handle-budget register_failed d = omega arith
  handle-budget (insert_answered r) d = ground arith
  handle-budget (check_answered r) d = ground arith
  handle-budget check_timer d = omega arith
  handle-budget stop_timer d = omega arith

  -- In any run of the object, with responses, timers and failures in any order, the failures make
  -- it send at most as many commands as its counter was below 3 at first: the counter is for all
  -- commands together, and no success resets it.
  pub resends-le-budget : (es : List Event) (d : Difs) → resends es d ≤ budget d
  unfolding resends
  resends-le-budget [] d = omega arith
  resends-le-budget (e ∷ es) d = omega (
    arith,
    handle-budget e d,
    resends-le-budget es (state_of (handle append_segment json unset e d)),
  )

-- While retries are left, the failure of an insertion, of a check or of a request for the
-- information makes the object send the same command once more.
pub retry-same :
    (name : Text) (d : Difs)
    → int_lt d.retry_count max_retry ≡ true
    → (sent_by (on_timeout insert name d) ≡ expressed (put_file_start_insert_command d) ∷ [])
      × (sent_by (on_timeout check name d) ≡ expressed (put_file_start_check_command d) ∷ [])
      × (sent_by (on_timeout (get_info_request d).expects name d)
          ≡ expressed (get_info_request d) ∷ [])
unfolding on_timeout put_file_start_insert_command put_file_start_check_command get_info_request
retry-same name d h = ground arith

file_retry :
    (x : Expects) (name : Text) (d : Difs)
    → ((x ≡ delete) ⊎ (x ≡ get))
    → int_lt d.retry_count max_retry ≡ true
    → (r : Request) × (sent_by (on_timeout x name d) ≡ expressed r ∷ [])
      × (r.expects ≡ x)
      × (r.parameter.name ≡ some name)
unfolding on_timeout delete_file get_file
file_retry x name d (inl k) h = rw k (delete_file name d, ground arith, refl, refl)
file_retry x name d (inr k) h = rw k (get_file name d, ground arith, refl, refl)

-- The retry of a deletion, or of a request for a file, asks for the name of the interest that
-- failed, not for the name of the file in its parameter; if the name of an interest is longer than
-- a name in its parameter, which is encoded there, the two differ.
pub retry-other_file :
    (name_of : Request → Text)
    → ((r : Request) (n : Text) → r.parameter.name ≡ some n → length n < length (name_of r))
    → (r : Request) (n : Text) (d : Difs) → r.parameter.name ≡ some n
    → ((r.expects ≡ delete) ⊎ (r.expects ≡ get))
    → int_lt d.retry_count max_retry ≡ true
    → (r' : Request) × (sent_by (on_timeout r.expects (name_of r) d) ≡ expressed r' ∷ [])
      × (r'.expects ≡ r.expects)
      × (r'.parameter.name ≡ some (name_of r))
      × (r'.parameter.name ≢ some n)
retry-other_file name_of longer r n d e k h =
    let (r', sent, same, name) = file_retry r.expects (name_of r) d k h in
    (
      r',
      sent,
      same,
      name,
      λ (x : r'.parameter.name ≡ some n).
          let equal : name_of r ≡ n = cc (name, x) in
          absurd (omega (arith, longer r n e, ap length equal)),
    )

-- While retries are left, a failure of the request for the key space makes the object send the
-- request for the information of the node, and nothing else; that is another command.
pub get_key_space_info-retry :
    (name : Text) (d : Difs)
    → int_lt d.retry_count max_retry ≡ true
    → (sent_by (on_timeout (get_key_space_info d).expects name d)
        ≡ expressed (get_info_request d) ∷ [])
      × ((get_info_request d).command ≢ (get_key_space_info d).command)
unfolding on_timeout get_key_space_info get_info_request
get_key_space_info-retry name d h = (ground arith, cc)
