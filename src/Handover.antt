-- ===== src/Handover.antt =====
-- src/handles/keyspace-handle.cpp, with manifest-handle.cpp and delete-handle.cpp: how a node that
-- has got a range of the key space takes the manifests over from the node that had it. The
-- messages of `onManifestListCommandResponse` and `onCompleteCommandResponse` are handed to the
-- handlers of the old node, one after another, and the answers to the new one.
pub mod Picked
pub mod Fetched
pub mod Removed
pub mod Moved
pub mod Complete
use difs.Prelude.{
  Text, text_eq, ℕ, Bool, true, false, ◌||◌, List, [], ◌∷◌, ◌++◌, Option, none, some,
}
use difs.Json.{JsonCodec}
use difs.Tlv.{Tlv}
use difs.Manifest.{Manifest, from_json}
use difs.Command.Parameter
use difs.Command.Parameter.{RepoCommandParameter}
use difs.Storage.{Libs, Storage}
use difs.Storage.RepoStorage.{insert_manifest}
use difs.KeySpace.Handle.{
  KeySpaceHandle, Outcome, done, threw, replied_text, Sent, asked_manifest, asked_delete_manifest,
}
use difs.ManifestHandle
use difs.ManifestHandle.{ManifestHandle, handle_find_command}
use difs.DeleteHandle
use difs.DeleteHandle.{DeleteHandle, handle_only_delete_manifest_command}

-- `handleManifestListCommand`, with what `readManifests` returns or throws.
unfoldable pub handle_manifest_list_command :
    JsonCodec (List Text) → Option (List Text) → KeySpaceHandle → Outcome
handle_manifest_list_command lists none h = threw h []
handle_manifest_list_command lists (some hashes) h =
    done h (replied_text (lists.write_json hashes) ∷ [])

-- The parameter with the hash as its name, whose URI begins with a slash.
abbrev pub named : Text → RepoCommandParameter
named hash = record Parameter.empty { name = some (47 ∷ hash) }

module _ (L : Libs) where
  -- `onManifestCommandResponse`; `none` is an exception of the reader.
  abbrev keep : (T : Storage L) → T.State → Option Manifest → Option T.State
  keep T s none = none
  keep T s (some m) = some (insert_manifest L T m s).1

  unfoldable pub on_manifest_command_response : (T : Storage L) → Text → T.State → Option T.State
  unfolding insert_manifest
  on_manifest_command_response T content s = keep T s (from_json L.json content)

  -- The text that a handler of the old node replies.
  abbrev pub replied_content : List ManifestHandle.Sent → Option Text
  replied_content [] = none
  replied_content (ManifestHandle.replied_text t ∷ sent) = some t
  replied_content (ManifestHandle.replied r ∷ sent) = replied_content sent
  replied_content (ManifestHandle.asked_info n p i ∷ sent) = replied_content sent
  replied_content (ManifestHandle.deferred i ∷ sent) = replied_content sent

  abbrev pub content_of : (S : Storage L) → ManifestHandle.Outcome L S → Option Text
  content_of S (ManifestHandle.done h sent) = replied_content sent
  content_of S (ManifestHandle.threw h sent) = none

  abbrev arrived : (T : Storage L) → T.State → Option Text → Option T.State
  arrived T s none = some s
  arrived T s (some content) = on_manifest_command_response T content s

  module _ (S T : Storage L) (D : Tlv) where
    -- One `find` to the old node, and its answer at the new node; with no answer nothing happens.
    unfoldable pub fetch_one : Text → ManifestHandle L S → T.State → Option T.State
    unfolding on_manifest_command_response
    fetch_one hash old new =
        arrived T new (content_of S (handle_find_command L S false (named hash) old))

    abbrev and_then : Option T.State → (T.State → Option T.State) → Option T.State
    and_then none f = none
    and_then (some s) f = f s

    -- The requests for manifests among the messages; `none` is an exception at the new node.
    unfoldable pub fetch_all : List Sent → ManifestHandle L S → T.State → Option T.State
    unfolding fetch_one
    fetch_all [] old new = some new
    fetch_all (asked_manifest node hash ∷ sent) old new =
        and_then (fetch_one hash old new) (λ s. fetch_all sent old s)
    fetch_all (_ ∷ sent) old new = fetch_all sent old new

    abbrev pub left_by : DeleteHandle.Outcome D L S → DeleteHandle D L S
    left_by (DeleteHandle.done h sent) = h
    left_by (DeleteHandle.threw h sent) = h

    -- The deletions among the messages, at the old node.
    unfoldable pub delete_all : List Sent → DeleteHandle D L S → DeleteHandle D L S
    delete_all [] old = old
    delete_all (asked_delete_manifest node hash ∷ sent) old =
        delete_all sent (left_by (handle_only_delete_manifest_command D L S [] (named hash) old))
    delete_all (_ ∷ sent) old = delete_all sent old
