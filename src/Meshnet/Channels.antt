-- ===== src/Meshnet/Channels.antt =====
-- The readers and writers of include/pfs/netty/patterns/meshnet/node.hpp: which socket serves which
-- neighbour, and what the handshake and the closing of a socket make of it. The other members of the
-- node are reached by calls, which are logged, oldest first. Node identifiers are numbers.
pub mod Lookup
pub mod Shrinking
pub mod Closing
pub mod Opening
pub mod Messages
mod Tests
use net_lib.Meshnet.Handshake.{HandshakeResult, unusable, reader, writer}
use net_lib.Prelude.Dict.{find, insert, erase}
use net_lib.Prelude.{
  ℕ, Bool, true, false, List, [], ◌∷◌, ◌++◌, Option, none, some, ◌==◌, if◌then◌else◌, Bytes,
  Outcome, done, fails, terminated,
}

pub data Event : Type 0 where
  -- The handshake is cancelled for the socket, and it leaves the heartbeat, the input processor and
  -- the pools.
  socket_removed : ℕ → Event
  heartbeat_added : ℕ → Event
  node_connected node_disconnected : ℕ → Event
  -- The message sender was given a message for this socket; or no socket writes to the neighbour.
  message_sent : (sid priority : ℕ) → Bytes → Event
  node_not_found : ℕ → Event

pub record Node : Type 0 where
  -- Neighbour by socket.
  pub readers : List (ℕ × ℕ)
  -- Socket by neighbour.
  pub writers : List (ℕ × ℕ)
  pub log : List Event

abbrev pub record_event : Node → Event → Node
record_event n e = record n { log = n.log ++ (e ∷ []) }

-- The first key with a value.
unfoldable pub find_value : ℕ → List (ℕ × ℕ) → Option ℕ
find_value v [] = none
find_value v ((k, w) ∷ m) = if w == v then some k else find_value v m

unfoldable pub find_reader : Node → ℕ → Option ℕ
find_reader n id = find_value id n.readers

unfoldable pub find_writer : Node → ℕ → Option ℕ
find_writer n sid = find_value sid n.writers

-- `close_socket` at level 1.
unfoldable pub remove_socket : Node → ℕ → Node
remove_socket n sid = record_event n (socket_removed sid)

-- The socket writes to `id` and does not read.
unfoldable pub close_writer : Node → ℕ → Option ℕ → Node
close_writer n id (some rsid) = record n {
  readers = erase rsid n.readers;
  writers = erase id n.writers;
  log = n.log ++ (socket_removed rsid ∷ node_disconnected id ∷ []);
}
close_writer n id none = record n { writers = erase id n.writers }

-- The socket `sid` reads from `id` and does not write.
unfoldable pub close_reader : Node → ℕ → ℕ → Option ℕ → Node
close_reader n sid id (some wsid) = record n {
  readers = erase sid n.readers;
  writers = erase id n.writers;
  log = n.log ++ (socket_removed wsid ∷ node_disconnected id ∷ []);
}
close_reader n sid id none = record n { readers = erase sid n.readers }

-- It does both; `id` is the neighbour that it writes to.
unfoldable pub close_both : Node → ℕ → ℕ → ℕ → Outcome Node
close_both n sid rid id =
    if id == rid
    then done (record n {
      readers = erase sid n.readers;
      writers = erase id n.writers;
      log = n.log ++ (node_disconnected id ∷ []);
    })
    else fails terminated

unfoldable pub close_channel_of : Node → ℕ → Option ℕ → Option ℕ → Outcome Node
unfolding close_both close_writer close_reader find_reader
close_channel_of n sid none none = done n
close_channel_of n sid (some rid) (some id) = close_both n sid rid id
close_channel_of n sid none (some id) = done (close_writer n id (find_reader n id))
close_channel_of n sid (some id) none = done (close_reader n sid id (find id n.writers))

unfoldable pub close_channel : Node → ℕ → Outcome Node
unfolding close_channel_of find_writer
close_channel n sid = close_channel_of n sid (find sid n.readers) (find_writer n sid)

unfoldable pub close_socket : Node → ℕ → Outcome Node
unfolding remove_socket close_channel
close_socket n sid = close_channel (remove_socket n sid) sid

-- If the channel is established in the other direction too, the neighbour is connected.
unfoldable pub report_connected : Node → ℕ → Option ℕ → Node
report_connected n id none = n
report_connected n id (some _) = record_event n (node_connected id)

-- `on_completed` of the handshake.
unfoldable pub on_completed : Node → ℕ → ℕ → HandshakeResult → Outcome Node
unfolding close_socket report_connected find_reader
on_completed n id sid unusable = close_socket n sid
on_completed n id sid reader =
    let n' : Node = record n {
      readers = insert sid id n.readers;
      log = n.log ++ (heartbeat_added sid ∷ []);
    } in
    done (report_connected n' id (find id n'.writers))
on_completed n id sid writer =
    let n' : Node = record n {
      writers = insert id sid n.writers;
      log = n.log ++ (heartbeat_added sid ∷ []);
    } in
    done (report_connected n' id (find_reader n' id))

-- `send`. What the message sender makes of the bytes is its own business.
unfoldable pub send : Node → (id priority : ℕ) → Bytes → Node
send n id priority bytes = elim (find id n.writers) [
  | none ↦ record_event n (node_not_found id)
  | some sid ↦ record_event n (message_sent sid priority bytes)
]
