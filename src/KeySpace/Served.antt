-- ===== src/KeySpace/Served.antt =====
-- The commands that a manager of the key space serves, one after another.
use difs.Prelude.{Text, codes, ◌≡◌, refl, ap, ◌∙◌, List, [], ◌∷◌, Option, none, some, arith}
use difs.Prelude.Int.{ℤ, pos}
use difs.Prelude.Hex.{stoi_hex, scan}
use difs.Json.{JsonCodec, ◌>>=◌}
use difs.Tlv.{Element}
use difs.Command.Parameter.{RepoCommandParameter}
use difs.KeySpace.{KeySpaceDoc, initial_doc}
use difs.KeySpace.Ring.{
  Ring, holds, owners, IsPartition, add, Splits, delete, Adjoins, Beside-Once, owners-add,
  owners-delete,
}
use difs.KeySpace.Refines.{Represents, add_node-add}
use difs.KeySpace.Takeover.{delete_node-delete}
use difs.KeySpace.Handle.{
  KeySpaceHandle, Sent, Outcome, done, threw, c_text, next_version, take_names, tell_versions,
  publish, publish_added, publish_left, init_key_space_file, handle_add_command,
  handle_delete_command,
}

pub data Request : Type 0 where
  add_request : RepoCommandParameter → Request
  delete_request : ℤ × ℤ → RepoCommandParameter → Request

-- The intervals before and after a request that names a node with enough bytes to give away, or a
-- node to delete and one beside it.
pub data Step : Request → Ring → Ring → Type 0 where
  adds :
      (p : RepoCommandParameter) (from to : Element) (r s : Ring)
      → p.from ≡ some from
      → p.to ≡ some to
      → Splits (c_text from.value) r
      → add (c_text from.value) (c_text to.value) r ≡ some s
      → Step (add_request p) r s
  deletes :
      (unset : ℤ × ℤ) (p : RepoCommandParameter) (from to : Element) (r s : Ring)
      → p.from ≡ some from
      → p.to ≡ some to
      → Adjoins (c_text from.value) (c_text to.value) r
      → delete (c_text from.value) (c_text to.value) r ≡ some s
      → Step (delete_request unset p) r s

pub data Steps : List Request → Ring → Ring → Type 0 where
  stays : (r : Ring) → Steps [] r r
  goes :
      (q : Request) (qs : List Request) (r s t : Ring)
      → Step q r s
      → Steps qs s t
      → Steps (q ∷ qs) r t

unfoldable pub initial : Text → Ring
initial name = record { node = name; lo = 0; hi = 255 } ∷ []

reads_00 : stoi_hex (codes "0x00") ≡ some (pos 0)
unfolding stoi_hex scan
reads_00 = refl

reads_ff : stoi_hex (codes "0xff") ≡ some (pos 255)
unfolding stoi_hex scan
reads_ff = refl

initial-IsPartition : (name : Text) → IsPartition (initial name)
unfolding initial owners holds
initial-IsPartition name b h = ground arith

Step-IsPartition : (q : Request) (r s : Ring) → Step q r s → IsPartition r → IsPartition s
Step-IsPartition q r s (adds p from to _ _ _ _ h e) part b k =
    owners-add b (c_text from.value) (c_text to.value) r s h e ∙ part b k
Step-IsPartition q r s (deletes _ p from to _ _ _ _ h e) part b k =
    owners-delete b (c_text from.value) (c_text to.value) r s h e ∙ part b k

module _ (json : JsonCodec KeySpaceDoc) where
  -- The file of a handle is a document for these intervals.
  abbrev pub Keeps : KeySpaceHandle → Ring → Type 0
  Keeps h r = (doc : KeySpaceDoc) × (json.read_json h.key_space_file ≡ some doc) × Represents doc r

  abbrev pub serve : Request → KeySpaceHandle → Outcome
  serve (add_request p) h = handle_add_command json p h
  serve (delete_request unset p) h = handle_delete_command json unset p h

  -- A request is served without an exception, and the new file is for these intervals.
  abbrev pub Serves : Outcome → Ring → Type 0
  Serves o s = (h : KeySpaceHandle) × (sent : List Sent) × (o ≡ done h sent) × Keeps h s

  publish-Serves :
      (h : KeySpaceHandle) (doc : KeySpaceDoc) (s : Ring)
      → Represents doc s
      → Serves (publish json h doc) s
  unfolding publish next_version tell_versions
  publish-Serves h doc s k =
      let reads = json.read-write doc in
      let h' = next_version (record h { key_space_file = json.write_json doc }) in
      (h', _, ap (tell_versions json h') reads, (doc, reads, k))

  take_names_lem :
      (p : RepoCommandParameter) (h : KeySpaceHandle) (from to : Element)
      → p.from ≡ some from
      → p.to ≡ some to
      → take_names json p h ≡ some (record h { from = c_text from.value; to = c_text to.value })
  unfolding take_names
  take_names_lem p h from to e g = rw (e, g) refl

  Step-Serves :
      (q : Request) (h : KeySpaceHandle) (r s : Ring)
      → Keeps h r
      → Step q r s
      → Serves (serve q h) s
  unfolding handle_add_command handle_delete_command publish_added publish_left
  Step-Serves q h r s (doc, reads, shows) (adds p from to _ _ e g k a) =
      let (out, runs, shown) =
        add_node-add (c_text from.value) (c_text to.value) doc r s shows k a in
      rw (take_names_lem p h from to e g, reads, runs)
        (publish-Serves (record h { from = c_text from.value; to = c_text to.value }) out s shown)
  Step-Serves q h r s (doc, reads, shows) (deletes unset p from to _ _ e g beside a) =
      let (out, runs, shown) =
        delete_node-delete (c_text from.value) (c_text to.value) unset doc r s shows a
          (λ i t removed. Beside-Once i (c_text to.value) t (beside i t removed)) in
      rw (take_names_lem p h from to e g, reads, runs)
        (publish-Serves (record h { from = c_text from.value; to = c_text to.value }) out s shown)

  init-Keeps : (h : KeySpaceHandle) → Keeps (init_key_space_file json h) (initial h.repo_prefix)
  unfolding init_key_space_file next_version initial initial_doc
  init-Keeps h = (
    initial_doc h.repo_prefix,
    json.read-write (initial_doc h.repo_prefix),
    ((refl, reads_00, reads_ff, omega arith, omega arith), tt),
  )

  abbrev pub ended : Outcome → Option KeySpaceHandle
  ended (done h sent) = some h
  ended (threw h sent) = none

  -- The state after the requests; `none` if one throws.
  unfoldable pub serve_all : List Request → KeySpaceHandle → Option KeySpaceHandle
  serve_all [] h = some h
  serve_all (q ∷ qs) h = do h' ← ended (serve q h); serve_all qs h'

  ended-Serves :
      (o : Outcome) (s : Ring)
      → Serves o s
      → (h' : KeySpaceHandle) × (ended o ≡ some h') × Keeps h' s
  ended-Serves o s (h', sent, e, k) = (h', ap ended e, k)

  Steps-Serves :
      (qs : List Request) (h : KeySpaceHandle) (r s : Ring)
      → Keeps h r
      → IsPartition r
      → Steps qs r s
      → (h' : KeySpaceHandle) × (serve_all qs h ≡ some h') × Keeps h' s × IsPartition s
  unfolding serve_all
  Steps-Serves qs h r s k part (stays _) = (h, refl, k, part)
  Steps-Serves qs h r s k part (goes q qs' _ t _ step steps) =
      let (h1, e1, k1) = ended-Serves (serve q h) t (Step-Serves q h r t k step) in
      let (h2, e2, k2, part2) =
        Steps-Serves qs' h1 t s k1 (Step-IsPartition q r t step part) steps in
      (h2, rw e1 e2, k2, part2)

  -- A manager that starts with the whole key space and serves requests, each of which splits the
  -- first entry of a node that is not empty and not the byte 0 alone, or deletes a node in favour
  -- of one whose only entry lies beside it, throws no exception: at the end its file reads as
  -- entries in which every byte has exactly one owner.
  pub serve_all-IsPartition :
      (qs : List Request) (h : KeySpaceHandle) (s : Ring)
      → Steps qs (initial h.repo_prefix) s
      → (h' : KeySpaceHandle) × (serve_all qs (init_key_space_file json h) ≡ some h')
        × Keeps h' s
        × IsPartition s
  serve_all-IsPartition qs h s steps =
      Steps-Serves qs (init_key_space_file json h) (initial h.repo_prefix) s (init-Keeps h)
        (initial-IsPartition h.repo_prefix) steps
