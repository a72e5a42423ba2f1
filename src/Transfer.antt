-- ===== src/Transfer.antt =====
-- A whole transfer: lib/difs.cpp cuts a file into packets, src/handles/write-handle.cpp stores them,
-- and src/handles/read-handle.cpp answers the reads of lib/difs.cpp with them.
pub mod Kept
pub mod Fetched
pub mod Whole
pub mod Timely
pub mod Counted
pub mod Endless
pub mod Checked
use difs.Prelude.{Text, ℕ, zero, suc, ◌≡◌, List, [], ◌∷◌, ◌++◌, Option, none, some}
use difs.Prelude.Int.{ℤ, pos}
use difs.Json.{◌>>=◌}
use difs.Storage.{Libs, Storage}
use difs.Storage.RepoStorage.{insert_data}
use difs.Client.{Segment}
use difs.ReadHandle
use difs.ReadHandle.{ReadHandle, put_data, on_interest}

-- Packets as ndn-cxx makes and signs them: a name with the number of the segment, and the content.
pub record Packets (L : Libs) : Type 0 where
  pub append_segment : Text → ℤ → Text
  pub make_data : Text → Segment → L.Data
  pub get_content : L.Data → Text
  pub get_name-make_data :
      (n : Text) (s : Segment) → L.get_name (make_data n s) ≡ append_segment n s.number
  pub get_content-make_data : (n : Text) (s : Segment) → get_content (make_data n s) ≡ s.content

module _ (L : Libs) (S : Storage L) (K : Packets L) (name : Text) where
  -- The packet that a node answers with.
  abbrev pub answered : ReadHandle.Outcome L S → Option L.Data
  answered (ReadHandle.done h []) = none
  answered (ReadHandle.done h (put_data d ∷ sent)) = some d
  answered (ReadHandle.done h (_ ∷ sent)) = none
  answered (ReadHandle.threw h sent) = none

  -- The interests of a client for a number of segments from one on, and the contents of the
  -- answers, one after another; `none` where one is not answered with a packet.
  unfoldable pub fetch_file : ℕ → ℕ → ReadHandle L S → Option Text
  unfolding on_interest
  fetch_file zero first h = some []
  fetch_file (suc count) first h = do
    d ← answered (on_interest L S (K.append_segment name (pos first)) h)
    rest ← fetch_file count (suc first) h
    some (K.get_content d ++ rest)

  -- The packets of a list of segments, stored one after another.
  unfoldable pub insert_all : List Segment → S.State → S.State
  unfolding insert_data
  insert_all [] s = s
  insert_all (t ∷ ts) s = insert_all ts (insert_data L S (K.make_data name t) s).1
