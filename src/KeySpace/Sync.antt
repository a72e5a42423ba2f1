-- ===== src/KeySpace/Sync.antt =====
-- How a node of the cluster comes to have the manager's key space.
use difs.Prelude.{
  Text, text_eq, text_eq_refl, ℕ, ◌≡◌, refl, sym, ap, ◌∙◌, inl, inr, Bool-cases, [], ◌∷◌, Option,
  none, some, if◌then◌else◌, arith,
}
use difs.Prelude.Int.{pos}
use difs.Json.{JsonCodec}
use difs.KeySpace.{KeySpaceDoc}
use difs.KeySpace.Ring.{Interval, Ring}
use difs.KeySpace.Refines.{Represents}
use difs.KeySpace.Served.{Keeps}
use difs.KeySpace.Handle.{
  KeySpaceHandle, replied_text, asked_coordination, done, c_text, own_range, handle_fetch_command,
  on_fetch_command_response,
}

-- The first interval of a node.
unfoldable pub range_of : Text → Ring → Option Interval
range_of name [] = none
range_of name (i ∷ r) = let rest = range_of name r in if text_eq i.node name then some i else rest

own_range_lem :
    (name : Text) (doc : KeySpaceDoc) (r : Ring) (i : Interval)
    → Represents doc r
    → range_of name r ≡ some i
    → own_range name doc ≡ some (some (pos i.lo, some (pos i.hi)))
unfolding own_range range_of
own_range_lem name [] [] i k e = absurd (ground (arith, e))
own_range_lem name [] (j ∷ r) i k e = absurd k
own_range_lem name (n ∷ ns) [] i k e = absurd k
own_range_lem name (n ∷ ns) (j ∷ r) i k e = elim (Bool-cases (text_eq j.node name)) [
  | inl same ↦
      let is_i : j ≡ i = ground (arith, e) in
      rw (k.0.0, same, k.0.1, k.0.2)
        (ap (λ (l : Interval). some (some (pos l.lo, some (pos l.hi)))) is_i)
  | inr other ↦ rw (k.0.0, other) (own_range_lem name ns r i k.1 (ground (arith, e)))
]

module _ (json : JsonCodec KeySpaceDoc) where
  -- A node that has an entry in the manager's file, and asks for the manager's version, is sent the
  -- file; if the file has no zero byte, the node takes the file, the version, and the range that
  -- the file has for it.
  pub fetched :
      (m n : KeySpaceHandle) (r : Ring) (i : Interval) (c : ℕ) (content : Text)
      → Keeps json m r
      → m.key_space_file ≡ c ∷ content
      → c_text m.key_space_file ≡ m.key_space_file
      → range_of n.repo_prefix r ≡ some i
      → (handle_fetch_command json m.version m
          ≡ done m (replied_text (c ∷ content) ∷ asked_coordination m.to m.from ∷ []))
        × (on_fetch_command_response json m.version (c ∷ content) n
            ≡ done
                (record n {
                  version = m.version;
                  key_space_file = m.key_space_file;
                  start = pos i.lo;
                  end = pos i.hi;
                })
                [])
  unfolding handle_fetch_command on_fetch_command_response
  fetched m n r i c content (doc, reads, shows) e z range = (
    rw (text_eq_refl m.version, e) refl,
    rw (ap c_text (sym e) ∙ z, reads, own_range_lem n.repo_prefix doc r i shows range) refl,
  )
