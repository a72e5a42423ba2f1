-- ===== src/Daemon/Joining.antt =====
-- Nodes that start one after another, and the manager that adds them to its key space.
use difs.Prelude.{
  Text, codes, text_eq, ◌≡◌, refl, ap, ◌∙◌, true, false, List, [], ◌∷◌, Option, none, some, arith,
}
use difs.Prelude.Int.{ℤ}
use difs.Json.{JsonCodec, ◌>>=◌}
use difs.Tlv.{Tlv}
use difs.Command.Parameter.{RepoCommandParameter, empty, set_from, set_to, wire_encode, wire_decode}
use difs.Command.Parameter.RoundTrip.{wire_decode-wire_encode}
use difs.KeySpace.{KeySpaceDoc}
use difs.KeySpace.Ring.{Ring, IsPartition, add, Splits}
use difs.KeySpace.Handle.{KeySpaceHandle, c_text}
use difs.KeySpace.Served.{
  Request, add_request, adds, Steps, stays, goes, initial, Keeps, serve, ended, serve_all,
  serve_all-IsPartition,
}
use difs.Daemon.Libraries.{PropertyTree, Names}
use difs.Daemon.{RepoConfig, fresh_handle, make_key_space_handle, add_parameter, add_node}

module _ (P : PropertyTree) (N : Names) (T : Tlv) (json : JsonCodec KeySpaceDoc) where
  -- The command of a node that starts, at the manager. A node that is no `node` sends none.
  abbrev take_command : Option (Text × Text) → KeySpaceHandle → Option KeySpaceHandle
  take_command none h = some h
  take_command (some (prefix, wire)) h = do
    p ← wire_decode T wire empty
    ended json (serve json (add_request p) h)

  unfoldable pub start_all : List (RepoConfig P) → KeySpaceHandle → Option KeySpaceHandle
  unfolding add_node
  start_all [] h = some h
  start_all (c ∷ cs) h = do h' ← take_command (add_node P T c) h; start_all cs h'

  -- The intervals after the nodes have joined: each names a node to split, or is no `node`.
  pub data Joins : List (RepoConfig P) → Ring → Ring → Type 0 where
    joined : (r : Ring) → Joins [] r r
    joins :
        (c : RepoConfig P) (cs : List (RepoConfig P)) (r s t : Ring)
        → text_eq c.cluster_type (codes "node") ≡ true
        → Splits (c_text c.from) r
        → add (c_text c.from) (c_text c.to) r ≡ some s
        → Joins cs s t
        → Joins (c ∷ cs) r t
    stays_out :
        (c : RepoConfig P) (cs : List (RepoConfig P)) (r t : Ring)
        → text_eq c.cluster_type (codes "node") ≡ false
        → Joins cs r t
        → Joins (c ∷ cs) r t

  -- The parameter that the manager reads.
  abbrev read_back : RepoConfig P → RepoCommandParameter
  read_back c = (wire_encode T (add_parameter P c)).1

  decodes :
      (c : RepoConfig P)
      → wire_decode T (wire_encode T (add_parameter P c)).0 empty ≡ some (read_back c)
  unfolding add_parameter set_from set_to
  decodes c =
      wire_decode-wire_encode T (add_parameter P c)
        (record {
          from = λ b e. ground (arith, e);
          to = λ b e. ground (arith, e);
          cluster = λ b e. cc;
        })
        (record { start = tt; end = tt; process = tt; lifetime = tt }) refl

  took_from : (c : RepoConfig P) → (read_back c).from ≡ some (record { type = 202; value = c.from })
  unfolding add_parameter set_from set_to wire_encode
  took_from c = refl

  took_to : (c : RepoConfig P) → (read_back c).to ≡ some (record { type = 203; value = c.to })
  unfolding add_parameter set_from set_to wire_encode
  took_to c = refl

  taken :
      (c : RepoConfig P) (h : KeySpaceHandle)
      → text_eq c.cluster_type (codes "node") ≡ true
      → take_command (add_node P T c) h ≡ ended json (serve json (add_request (read_back c)) h)
  unfolding add_node
  taken c h node = rw (node, decodes c) refl

  after :
      {f g : KeySpaceHandle → Option KeySpaceHandle} (o : Option KeySpaceHandle)
      → ((h : KeySpaceHandle) → f h ≡ g h)
      → (o >>= f) ≡ (o >>= g)
  after none e = refl
  after (some h) e = e h

  -- What the manager serves.
  Joins-Steps :
      (cs : List (RepoConfig P)) (r t : Ring)
      → Joins cs r t
      → (qs : List Request) × Steps qs r t
        × ((h : KeySpaceHandle) → start_all cs h ≡ serve_all json qs h)
  unfolding start_all serve_all add_node
  Joins-Steps cs r t (joined _) = ([], stays r, λ h. refl)
  Joins-Steps cs r t (joins c cs' _ s _ node k e rest) =
      let (qs, steps, same) = Joins-Steps cs' s t rest in
      let q = add_request (read_back c) in
      (
        q ∷ qs,
        goes q qs r s t
            (adds (read_back c) (record { type = 202; value = c.from })
              (record { type = 203; value = c.to }) r s (took_from c) (took_to c) k e)
            steps,
        λ h.
            ap (λ o. o >>= λ h'. start_all cs' h') (taken c h node)
            ∙ after (ended json (serve json q h)) same,
      )
  Joins-Steps cs r t (stays_out c cs' _ _ other rest) =
      let (qs, steps, same) = Joins-Steps cs' r t rest in (qs, steps, λ h. rw other (same h))

  -- A manager that starts and gets the commands of the nodes that start after it, each of which
  -- names a node with enough bytes to split or is configured as no `node`, decodes every command
  -- and throws no exception: at the end its file reads as entries in which every byte of a hash
  -- has exactly one owner.
  pub start_all-IsPartition :
      (unset : ℤ × ℤ) (manager : RepoConfig P) (cs : List (RepoConfig P)) (s : Ring)
      → text_eq manager.cluster_type (codes "manager") ≡ true
      → Joins cs (initial (N.append manager.cluster_node_prefix manager.cluster_prefix)) s
      → (h : KeySpaceHandle) × (start_all cs (make_key_space_handle P N json unset manager)
          ≡ some h)
        × Keeps json h s
        × IsPartition s
  unfolding make_key_space_handle
  start_all-IsPartition unset manager cs s first join =
      let (qs, steps, same) =
        Joins-Steps cs (initial (N.append manager.cluster_node_prefix manager.cluster_prefix)) s
          join in
      let (h, runs, keeps, part) =
        serve_all-IsPartition json qs (fresh_handle P N unset manager) s steps in
      (h, rw first (same _ ∙ runs), keeps, part)
