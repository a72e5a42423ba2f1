-- ===== src/BulkInsert.antt =====
-- src/handles/tcp-bulk-insert-handle.cpp: what `TcpBulkInsertClient` does with the bytes that it
-- receives. The sockets are Boost's: a call to `async_receive` is the answer `receive`, with the
-- room in the buffer, and the bytes that come are the next event.
pub mod Stream
pub mod Room
use difs.Prelude.{
  Text, ℕ, zero, suc, ◌+◌, ◌-◌, ◌≤◌, ◌<◌, ◌≡◌, ltb, ◌==◌, Bool, true, false, ◌&&◌, not, List, [],
  ◌∷◌, ◌++◌, Option, none, some, length, take, drop, is_nil, if◌then◌else◌,
}
use difs.Storage.{Libs, Storage}
use difs.Storage.RepoStorage.{Reply, insert_data}

-- `ndn::MAX_NDN_PACKET_SIZE` and `ndn::tlv::Data`.
abbrev pub max_ndn_packet_size : ℕ
max_ndn_packet_size = 8800

abbrev pub tlv_data : ℕ
tlv_data = 6

-- An element at the front of a buffer: its type and the number of its bytes.
pub record Found : Type 0 where
  pub type : ℕ
  pub size : ℕ

-- `Data(element)`: the packet, a `std::runtime_error`, or another exception.
pub data Decoded (D : Type 0) : Type 0 where
  decoded : D → Decoded D
  runtime_error other_error : Decoded D

-- `Block::fromBuffer` of ndn-cxx, and the decoding of a packet: an element is read from its own
-- bytes, which are in the buffer, and what follows them does not matter.
pub record Blocks (L : Libs) : Type 0 where
  pub from_buffer : Text → Option Found
  pub decode : Text → Decoded L.Data
  pub from_buffer-bounds :
      (t : Text) (f : Found) → from_buffer t ≡ some f → (0 < f.size) × (f.size ≤ length t)
  pub from_buffer-append :
      (t u : Text) (f : Found) → from_buffer t ≡ some f → from_buffer (t ++ u) ≡ some f

-- What `async_receive` calls back with: bytes, or an error that may be `operation_canceled`.
pub data Event : Type 0 where
  bytes : Text → Event
  cancelled failed : Event

-- What comes after a call: another `async_receive`, a socket that is shut down, nothing at all, or
-- an exception that leaves the handler.
pub data Next : Type 0 where
  receive : ℕ → Next
  close finish throw : Next

module _ (L : Libs) (S : Storage L) (B : Blocks L) where
  -- The storage, and the signals that the insertions sent.
  pub record Store : Type 0 where
    pub state : S.State
    pub signals : List (Option Text)

  -- The body of the loop for one element; the flag says that an exception leaves it.
  unfoldable pub insert_element : ℕ → Text → Store → Bool × Store
  unfolding insert_data
  insert_element type wire s =
      if type == tlv_data
      then elim (B.decode wire) as (λ _. Bool × Store) [
        | decoded d ↦
            let (r, state) = insert_data L S d s.state in
            (false, record { state = state; signals = s.signals ++ r.signal ∷ [] })
        | runtime_error ↦ (false, s)
        | other_error ↦ (true, s)
      ]
      else (false, s)

  -- The loop: what it leaves in the buffer, `isOk`, and the exception.
  pub record Loop : Type 0 where
    pub rest : Text
    pub is_ok : Bool
    pub threw : Bool
    pub store : Store

  -- A round takes at least one byte, so that as much fuel as there are bytes is enough.
  unfoldable pub consume : ℕ → Text → Store → Loop
  consume zero t s = record { rest = t; is_ok = true; threw = false; store = s }
  consume (suc fuel) [] s = record { rest = []; is_ok = true; threw = false; store = s }
  consume (suc fuel) (c ∷ t) s = elim (B.from_buffer (c ∷ t)) as (λ _. Loop) [
    | none ↦ record { rest = c ∷ t; is_ok = false; threw = false; store = s }
    | some f ↦
        let (threw, s') = insert_element f.type (take f.size (c ∷ t)) s in
        elim threw as (λ _. Loop) [
          | true ↦ record { rest = drop f.size (c ∷ t); is_ok = true; threw = true; store = s' }
          | false ↦ consume fuel (drop f.size (c ∷ t)) s'
        ]
  ]

  -- The client: the first `m_inputBufferSize` bytes of the buffer, and the store.
  pub record BulkClient : Type 0 where
    pub buffer : Text
    pub store : Store

  -- What is done with the buffer after the loop over `t`.
  unfoldable pub after_loop : Text → Loop → BulkClient × Next
  after_loop t l =
      if l.threw
      then (record { buffer = t; store = l.store }, throw)
      else if not l.is_ok && (length t == max_ndn_packet_size) && (length l.rest == length t)
      then (record { buffer = t; store = l.store }, close)
      else (
        record { buffer = l.rest; store = l.store },
        receive (max_ndn_packet_size - length l.rest),
      )

  unfoldable pub handle_receive : Event → BulkClient → BulkClient × Next
  unfolding consume after_loop
  handle_receive cancelled c = (c, finish)
  handle_receive failed c = (c, close)
  handle_receive (bytes received) c =
      let t = c.buffer ++ received in after_loop t (consume (length t) t c.store)

  -- `startReceive`.
  unfoldable pub start_receive : S.State → BulkClient × Next
  start_receive s = (
    record { buffer = []; store = record { state = s; signals = [] } },
    receive max_ndn_packet_size,
  )

  -- Bytes that come in several parts, as long as another receive follows.
  unfoldable pub receive_all : List Text → BulkClient × Next → BulkClient × Next
  receive_all [] (c, next) = (c, next)
  receive_all (t ∷ ts) (c, receive room) = receive_all ts (handle_receive (bytes t) c)
  receive_all (t ∷ ts) (c, close) = (c, close)
  receive_all (t ∷ ts) (c, finish) = (c, finish)
  receive_all (t ∷ ts) (c, throw) = (c, throw)
