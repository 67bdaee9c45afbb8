-- ===== src/Meshnet/Handshake.antt =====
-- include/pfs/netty/patterns/meshnet/basic_handshake.hpp with the choice of exclusive_handshake.hpp
-- and the results of handshake_result.hpp. Node identifiers are ordered; how they are written in a
-- packet is the business of the identifier traits, whose `stringify` and `parse` are parameters. The
-- time is an argument, in nanoseconds. Packets that are sent and callbacks that are called are logged,
-- oldest first.
pub mod Exchange
pub mod Expiry
mod Tests
use net_lib.Prelude.Dict.{find, insert, erase}
use net_lib.Prelude.{
  ℕ, ◌+◌, Bool, true, false, List, [], ◌∷◌, ◌++◌, Option, none, some, ltb, leb, if◌then◌else◌,
  Bytes,
}

pub data HandshakeResult : Type 0 where
  -- The socket may be closed, or serves as a reader, or as a writer.
  unusable reader writer : HandshakeResult

pub data PacketWay : Type 0 where
  request response : PacketWay

-- The fields of a handshake_packet that the processor reads and writes.
pub record HandshakePacket : Type 0 where
  pub id : Bytes
  pub is_response : Bool
  pub is_behind_nat : Bool

pub data Event : Type 0 where
  sent : ℕ → HandshakePacket → Event
  expired : ℕ → Event
  failed : ℕ → Event
  completed : (id sid : ℕ) → HandshakeResult → Event

pub record Handshake : Type 0 where
  -- Of the node.
  pub node_id : ℕ
  pub behind_nat : Bool
  -- The sockets on which this node is the initiator, with the time when each expires.
  pub cache : List (ℕ × ℕ)
  pub log : List Event

-- Ten seconds.
abbrev pub timeout : ℕ
timeout = 10000000000

unfoldable pub cancel : Handshake → ℕ → Handshake
cancel h sid = record h { cache = erase sid h.cache }

abbrev pub use_socket : Handshake → ℕ → ℕ → Handshake
use_socket h sid id = record h {
  log = h.log ++ (completed id sid reader ∷ completed id sid writer ∷ []);
}

-- exclusive_handshake.hpp.
unfoldable pub handshake_ready : Handshake → ℕ → ℕ → Bool → Bool → Handshake
handshake_ready h sid id is_response is_behind_nat =
    if is_behind_nat
    then use_socket h sid id
    else if is_response
    then if ltb h.node_id id
      then use_socket h sid id
      else record h { log = h.log ++ (completed id sid unusable ∷ []) }
    else if ltb id h.node_id
    then use_socket h sid id
    else h

-- Those whose time has come go, in order.
unfoldable pub expire : ℕ → List (ℕ × ℕ) → List (ℕ × ℕ) × List Event
expire now [] = ([], [])
expire now ((sid, t) ∷ m) =
    let r = expire now m in if leb t now then (r.0, expired sid ∷ r.1) else ((sid, t) ∷ r.0, r.1)

unfoldable pub check_expired : Handshake → ℕ → Handshake
check_expired h now = let r = expire now h.cache in record h { cache = r.0; log = h.log ++ r.1 }

unfoldable pub step : Handshake → ℕ → Handshake
unfolding check_expired
step h now = check_expired h now

module _ (stringify : ℕ → Bytes) (parse : Bytes → Option ℕ) where
  unfoldable pub packet : Handshake → PacketWay → HandshakePacket
  packet h request = record {
    id = stringify h.node_id;
    is_response = false;
    is_behind_nat = h.behind_nat;
  }
  packet h response = record {
    id = stringify h.node_id;
    is_response = true;
    is_behind_nat = h.behind_nat;
  }

  -- The initiator of a handshake remembers its socket.
  remember : Handshake → ℕ → ℕ → PacketWay → Handshake
  remember h now sid request = record h { cache = insert sid (now + timeout) h.cache }
  remember h now sid response = h

  unfoldable pub send : Handshake → ℕ → ℕ → PacketWay → Handshake
  unfolding remember
  send h now sid way = record (remember h now sid way) {
    log = h.log ++ (sent sid (packet h way) ∷ []);
  }

  unfoldable pub start : Handshake → ℕ → ℕ → Handshake
  start h now sid = send h now sid request

  -- A packet from the node `id`.
  unfoldable pub process_valid : Handshake → ℕ → ℕ → ℕ → HandshakePacket → Handshake
  process_valid h now sid id pkt = elim (find sid h.cache) [
    | some _ ↦ handshake_ready (cancel h sid) sid id pkt.is_response pkt.is_behind_nat
    | none ↦
        if pkt.is_response
        then h
        else handshake_ready (send h now sid response) sid id pkt.is_response pkt.is_behind_nat
  ]

  unfoldable pub process : Handshake → ℕ → ℕ → HandshakePacket → Handshake
  unfolding process_valid
  process h now sid pkt = elim (parse pkt.id) [
    | some id ↦ process_valid h now sid id pkt
    | none ↦
        let cancelled = cancel h sid in
        record cancelled { log = cancelled.log ++ (failed sid ∷ []) }
  ]
