-- ===== src/P2p/Delivery.antt =====
-- include/pfs/netty/p2p/delivery_engine.hpp: the accounts of readers and writers, channels, and the
-- output queues. Callbacks and calls of the pollers are logged, oldest first; a callback does not call
-- the engine back. `Input` and `Output` have the traffic, `Step` the pollers' events and a step.
pub mod Channels
pub mod Input
pub mod Output
pub mod Step
mod Tests
use net_lib.P2p.Packet.{
  PacketType, Packet, regular, hello, file_credentials, file_request, file_stop, file_begin,
  file_chunk, file_end, file_state,
}
use net_lib.P2p.Packet
use net_lib.Prelude.Dict.{find, erase}
use net_lib.Prelude.OrderedMap.{put}
use net_lib.Prelude.{
  ℕ, List, [], ◌∷◌, ◌++◌, Option, none, some, Bool, true, false, not, ◌&&◌, ◌==◌, if◌then◌else◌,
  Bytes, Outcome, done, ◌>>=◌,
}

pub data Event : Type 0 where
  on_error on_warn on_failure : Event
  defere_expire_peer writer_ready writer_closed reader_ready reader_closed channel_established
        channel_closed :
      ℕ → Event
  data_received : ℕ → Bytes → Event
  file_data_received : ℕ → PacketType → Bytes → Event
  request_file_chunk : ℕ → ℕ → Event
  -- What the pollers are told, by socket.
  reader_removed writer_removed waits_for_write : ℕ → Event
  sent : ℕ → Bytes → Event

-- The socket is the key.
pub record Reader : Type 0 where
  pub peerid : ℕ
  pub b : Bytes
  pub raw : Bytes

-- The peer is the key.
pub record Writer : Type 0 where
  pub socket : ℕ
  pub can_write : Bool
  pub connected : Bool
  pub regular_queue : List Packet
  -- By file.
  pub chunks : List (ℕ × List Packet)
  pub raw : Bytes

pub record Engine : Type 0 where
  pub host_id : ℕ
  pub readers : List (ℕ × Reader)
  pub writers : List (ℕ × Writer)
  pub expired_peers : List ℕ
  pub log : List Event

unfoldable pub record_events : Engine → List Event → Engine
record_events e events = record e { log = e.log ++ events }

unfoldable pub locate_reader : ℕ → List (ℕ × Reader) → Option (ℕ × Reader)
locate_reader peerid [] = none
locate_reader peerid ((s, r) ∷ m) =
    if r.peerid == peerid then some (s, r) else locate_reader peerid m

-- The peer that a writer's socket serves, with its account.
unfoldable pub locate_writer : ℕ → List (ℕ × Writer) → Option (ℕ × Writer)
locate_writer socket [] = none
locate_writer socket ((p, w) ∷ m) =
    if w.socket == socket then some (p, w) else locate_writer socket m

abbrev peer_of : Option Reader → ℕ
peer_of none = 0
peer_of (some r) = r.peerid

-- A new connection: the account of its socket keeps a peer, but no data.
unfoldable pub accept_reader_account : Engine → Option ℕ → Engine × Option ℕ
unfolding record_events
accept_reader_account e none = (record_events e (on_error ∷ []), none)
accept_reader_account e (some s) =
    let r : Reader = record { peerid = peer_of (find s e.readers); b = []; raw = [] } in
    (record e { readers = put s r e.readers }, some s)

unfoldable pub acquire_writer_account : Engine → (peerid socket : ℕ) → Engine
acquire_writer_account e peerid socket = record e {
  writers =
      put peerid
        (record {
          socket = socket;
          can_write = false;
          connected = false;
          regular_queue = [];
          chunks = [];
          raw = [];
        })
        e.writers;
}

-- `added` is whether the poller takes the socket.
unfoldable pub connect_writer : Engine → (peerid socket : ℕ) → (added : Bool) → Engine
unfolding acquire_writer_account record_events
connect_writer e peerid socket added =
    if added then acquire_writer_account e peerid socket else record_events e (on_error ∷ [])

unfoldable pub release_reader : Engine → ℕ → Engine
unfolding record_events
release_reader e peerid = elim (locate_reader peerid e.readers) [
  | none ↦ record_events e (on_error ∷ [])
  | some (s, r) ↦ record_events e (reader_removed s ∷ reader_closed peerid ∷ [])
]

unfoldable pub release_writer : Engine → ℕ → Engine
unfolding record_events
release_writer e peerid = elim (find peerid e.writers) [
  | none ↦ record_events e (on_error ∷ [])
  | some w ↦ record_events e (writer_removed w.socket ∷ writer_closed peerid ∷ [])
]

unfoldable pub release_peer : Engine → ℕ → Engine
unfolding release_reader release_writer record_events
release_peer e peerid =
    record_events (release_writer (release_reader e peerid) peerid) (channel_closed peerid ∷ [])

unfoldable pub release_all : Engine → List ℕ → Engine
release_all e [] = e
release_all e (p ∷ ps) = release_all (release_peer e p) ps

unfoldable pub expire_peer : Engine → ℕ → Engine
expire_peer e peerid = record e { expired_peers = e.expired_peers ++ (peerid ∷ []) }

unfoldable pub release_expired_peers : Engine → Engine
release_expired_peers e = release_all (record e { expired_peers = [] }) e.expired_peers

abbrev pub keys : List (ℕ × Writer) → List ℕ
keys [] = []
keys ((k, v) ∷ m) = k ∷ keys m

unfoldable pub release_peers : Engine → Engine
release_peers e = release_all e (keys e.writers)

abbrev pub is_complete : Option (ℕ × Reader) → Bool
is_complete none = false
is_complete (some (s, r)) = not (r.peerid == 0)

abbrev pub has_reader : ℕ → List (ℕ × Reader) → Bool
has_reader peerid readers = is_complete (locate_reader peerid readers)

abbrev pub is_connected : Option Writer → Bool
is_connected none = false
is_connected (some w) = w.connected

abbrev pub has_writer : ℕ → List (ℕ × Writer) → Bool
has_writer peerid writers = is_connected (find peerid writers)

-- The event, if the channel is complete.
unfoldable pub check_complete_channel : List (ℕ × Reader) → List (ℕ × Writer) → ℕ → List Event
check_complete_channel readers writers peerid =
    if has_reader peerid readers && has_writer peerid writers
    then channel_established peerid ∷ []
    else []

module _ (packet_size : ℕ) where
  -- Packets go behind the queue of regular packets. The result is whether the writer is there.
  unfoldable pub enqueue_packets : Engine → ℕ → PacketType → Bytes → Outcome (Engine × Bool)
  enqueue_packets e addressee packettype bytes = elim (find addressee e.writers) [
    | none ↦ done (record_events e (on_error ∷ []), false)
    | some w ↦ do
      q ← Packet.enqueue_packets w.regular_queue e.host_id packettype packet_size bytes
      done (record e { writers = put addressee (record w { regular_queue = q }) e.writers }, true)
  ]

  unfoldable pub enqueue : Engine → ℕ → Bytes → Outcome (Engine × Bool)
  enqueue e addressee bytes = enqueue_packets e addressee regular bytes

  abbrev pub queue_of : ℕ → List (ℕ × List Packet) → List Packet
  queue_of fileid chunks = elim (find fileid chunks) [ none ↦ [] | some q ↦ q ]

  -- As above, behind the queue of the file, which is made where there is none.
  unfoldable pub enqueue_file_chunk :
      Engine → (addressee fileid : ℕ) → PacketType → Bytes → Outcome (Engine × Bool)
  enqueue_file_chunk e addressee fileid packettype bytes = elim (find addressee e.writers) [
    | none ↦ done (record_events e (on_error ∷ []), false)
    | some w ↦ do
      q ← Packet.enqueue_packets (queue_of fileid w.chunks) e.host_id packettype packet_size bytes
      done (
        record e {
          writers = put addressee (record w { chunks = put fileid q w.chunks }) e.writers;
        },
        true,
      )
  ]

  unfoldable pub file_ready_send :
      Engine → (addressee fileid : ℕ) → PacketType → Bytes → Outcome Engine
  file_ready_send e addressee fileid packettype bytes =
      let command = (enqueue_packets e addressee packettype bytes >>= λ r. done r.0) in
      let chunk = (enqueue_file_chunk e addressee fileid packettype bytes >>= λ r. done r.0) in
      elim packettype [
        | file_credentials ↦ command
        | file_request ↦ command
        | file_stop ↦ command
        | file_state ↦ command
        | file_begin ↦ chunk
        | file_end ↦ chunk
        | file_chunk ↦ chunk
        | _ ↦ done e
      ]

unfoldable pub file_upload_stopped : Engine → (addressee fileid : ℕ) → Engine
file_upload_stopped e addressee fileid = elim (find addressee e.writers) [
  | none ↦ record_events e (on_error ∷ [])
  | some w ↦ record e {
    writers = put addressee (record w { chunks = erase fileid w.chunks }) e.writers;
  }
]
