-- ===== src/KeySpace.antt =====
-- src/handles/keyspace-handle.hpp and keyspace-handle.cpp: which node keeps which manifests. The
-- key space is divided by the first two hexadecimal digits of a manifest's hash.
pub mod Ring
pub mod Refines
pub mod Lookup
pub mod Takeover
pub mod Handle
pub mod Moves
pub mod Sync
pub mod Served
use difs.Prelude.{
  Text, codes, text_eq, starts_with, ℕ, zero, suc, ◌+◌, ◌≡◌, Bool, true, false, ◌||◌, List, [], ◌∷◌,
  ◌++◌, Option, none, some, if◌then◌else◌,
}
use difs.Prelude.Int.{ℤ, pos, negsuc, pos_part, sub_ℕ, ◌-ℤ◌, half, int_lt}
use difs.Prelude.Hex.{hex, stoi_hex, print_0x}
use difs.Json.{JsonCodec, ◌>>=◌}

-- An entry of "keyspaces". A document with a missing key counts as one that cannot be read.
pub record NodeDoc : Type 0 where
  pub node : Text
  pub start : Text
  pub end : Text

abbrev pub KeySpaceDoc : Type 0
KeySpaceDoc = List NodeDoc

-- The key space that `initKeySpaceFile` writes.
unfoldable pub initial_doc : Text → KeySpaceDoc
initial_doc repo_prefix =
    record { node = repo_prefix; start = codes "0x00"; end = codes "0xff" } ∷ []

-- The body of the `if` in `handleAddCommand`: what is left of the node, and the new node. `none`
-- is an exception of `stoi`.
unfoldable pub split_node : Text → NodeDoc → Option (NodeDoc × NodeDoc)
split_node to n = do
  start ← stoi_hex n.start
  end ← stoi_hex n.end
  let hash_size = half (end -ℤ start)
  let from_start = end -ℤ hash_size
  some (
    record n { end = print_0x (from_start -ℤ pos 1) },
    record { node = to; start = print_0x from_start; end = print_0x end },
  )

abbrev put_first : NodeDoc → Option KeySpaceDoc → Option KeySpaceDoc
put_first n none = none
put_first n (some l) = some (n ∷ l)

-- The loop of `handleAddCommand`. The outer `none` is an exception, the inner one says that no
-- node has the name.
unfoldable pub add_node : Text → Text → KeySpaceDoc → Option (Option KeySpaceDoc)
unfolding split_node
add_node from to [] = some none
add_node from to (n ∷ ns) =
    let rest = (do r ← add_node from to ns; some (put_first n r)) in
    if text_eq n.node from
    then (do (left, new) ← split_node to n; some (some (left ∷ (ns ++ new ∷ []))))
    else rest

-- The first loop of `handleDeleteCommand`: the range of the first node with the name, which is
-- erased; `unset` is what `fromStart` and `fromEnd` hold if there is none.
unfoldable pub take_node : Text → ℤ × ℤ → KeySpaceDoc → Option ((ℤ × ℤ) × KeySpaceDoc)
take_node from unset [] = some (unset, [])
take_node from unset (n ∷ ns) =
    let rest = (do (range, l) ← take_node from unset ns; some (range, n ∷ l)) in
    if text_eq n.node from
    then (do start ← stoi_hex n.start; end ← stoi_hex n.end; some ((start, end), ns))
    else rest

-- The body of the second loop: a node with the name takes the range over. `stream` is what the
-- string stream holds; it is declared before the loop and never emptied, so a second entry of the
-- node gets the numbers of both. The result has the stream after the entry.
unfoldable pub take_over : Text → ℤ × ℤ → Text → NodeDoc → Option (Text × NodeDoc)
take_over to (from_start, from_end) stream n =
    if text_eq n.node to
    then (do
      to_start ← stoi_hex n.start
      let low = stream ++ print_0x from_start
      let high = stream ++ print_0x from_end
      some (
          if int_lt from_end to_start
          then (low, record n { start = low })
          else (high, record n { end = high })))
    else some (stream, n)

unfoldable pub give_range : Text → ℤ × ℤ → Text → KeySpaceDoc → Option KeySpaceDoc
unfolding take_over
give_range to range stream [] = some []
give_range to range stream (n ∷ ns) = do
  (stream', m) ← take_over to range stream n
  rest ← give_range to range stream' ns
  some (m ∷ rest)

unfoldable pub delete_node : Text → Text → ℤ × ℤ → KeySpaceDoc → Option KeySpaceDoc
unfolding take_node give_range
delete_node from to unset doc = do
  (range, left) ← take_node from unset doc
  give_range to range [] left

-- `start++`.
abbrev pub next : ℤ → ℤ
next i = i -ℤ negsuc 0

-- How often `for (; start <= end; start++)` goes round.
unfoldable pub rounds : ℤ → ℤ → ℕ
rounds start end = pos_part (next end -ℤ start)

-- `boost::format("%02x")` of a string, a parameter.
module _ (format_02x : Text → Text) where
  -- The inner loop of `getManifestStorage`.
  unfoldable pub in_range : ℕ → ℤ → Text → Bool
  in_range zero start hash = false
  in_range (suc left) start hash =
      starts_with (format_02x (hex start)) hash || in_range left (next start) hash

  -- `getManifestStorage` on the entries; the empty name if no node has the hash.
  unfoldable pub storage_of : Text → KeySpaceDoc → Option Text
  unfolding in_range rounds
  storage_of hash [] = some []
  storage_of hash (n ∷ ns) = do
    start ← stoi_hex n.start
    end ← stoi_hex n.end
    if in_range (rounds start end) start hash then some n.node else storage_of hash ns

  unfoldable pub get_manifest_storage : JsonCodec KeySpaceDoc → Text → Text → Option Text
  unfolding storage_of
  get_manifest_storage json file hash = do doc ← json.read_json file; storage_of hash doc
