-- ===== src/P2p/Packet.antt =====
-- include/pfs/netty/p2p/packet.hpp: packets, and how a message is cut into them. An identifier is a
-- number of 16 bytes, a char its bit pattern; zero is the identifier `universal_id{}`.
pub mod Parts
mod Tests
use net_lib.Prelude.{
  ℕ, zero, suc, ◌+◌, ◌-◌, ◌/◌, ◌%◌, ◌^◌, List, [], ◌∷◌, ◌++◌, Bool, true, false, ◌&&◌, ◌||◌, ltb,
  leb, ◌==◌, if◌then◌else◌, length, take, drop, replicate, Bytes, Outcome, done, fails, undefined,
  out_of_fuel, ◌>>=◌, Option, none, some,
}

pub data PacketType : Type 0 where
  regular hello file_credentials file_request file_stop file_begin file_chunk file_end file_state :
      PacketType

unfoldable pub packet_value : PacketType → ℕ
packet_value regular = 0x2A
packet_value hello = 0x2B
packet_value file_credentials = 0x2C
packet_value file_request = 0x2D
packet_value file_stop = 0x2E
packet_value file_begin = 0x2F
packet_value file_chunk = 0x30
packet_value file_end = 0x31
packet_value file_state = 0x32

unfoldable pub is_valid : ℕ → Bool
unfolding packet_value
is_valid t =
    t == packet_value regular
    || t == packet_value hello
    || t == packet_value file_credentials
    || t == packet_value file_request
    || t == packet_value file_chunk
    || t == packet_value file_begin
    || t == packet_value file_end
    || t == packet_value file_state
    || t == packet_value file_stop

abbrev pub header_size : ℕ
header_size = 29

abbrev pub max_packet_size : ℕ
max_packet_size = 1430

-- The payload is the part of the array that a packet of its size uses.
pub record Packet : Type 0 where
  pub packettype : ℕ
  pub packetsize : ℕ
  pub addresser : ℕ
  pub payloadsize : ℕ
  pub partcount : ℕ
  pub partindex : ℕ
  pub payload : Bytes

-- The packet at the head of what remains.
unfoldable pub next_packet : ℕ → PacketType → (packet_size partcount partindex : ℕ) → Bytes → Packet
next_packet addresser packettype packet_size partcount partindex remain =
    let payload_size = packet_size - header_size in
    let n = if ltb payload_size (length remain) then payload_size else length remain % 2 ^ 16 in
    record {
      packettype = packet_value packettype;
      packetsize = packet_size;
      addresser = addresser;
      payloadsize = n;
      partcount = partcount;
      partindex = partindex;
      payload = take n remain ++ replicate (payload_size - n) 0;
    }

-- `while (remain_len)`. A payload size that is not positive, or larger than the array, is undefined.
unfoldable pub packet_loop :
    (fuel addresser : ℕ)
    → PacketType
    → (packet_size partcount partindex : ℕ) → Bytes
    → Outcome (List Packet)
packet_loop fuel addresser packettype packet_size partcount partindex [] = done []
packet_loop zero addresser packettype packet_size partcount partindex (c ∷ cs) = fails out_of_fuel
packet_loop (suc fuel) addresser packettype packet_size partcount partindex (c ∷ cs) =
    let p = next_packet addresser packettype packet_size partcount partindex (c ∷ cs) in
    let rest =
      packet_loop fuel addresser packettype packet_size partcount ((partindex + 1) % 2 ^ 32)
        (drop p.payloadsize (c ∷ cs)) in
    if ltb header_size packet_size && leb packet_size max_packet_size
    then (rest >>= λ ps. done (p ∷ ps))
    else fails undefined

unfoldable pub part_count : (packet_size len : ℕ) → ℕ
part_count packet_size len =
    let payload_size = packet_size - header_size in
    (len / payload_size + (if len % payload_size == 0 then 0 else 1)) % 2 ^ 32

-- A packet size that leaves no payload divides by zero.
unfoldable pub enqueue_packets : List Packet → ℕ → PacketType → ℕ → Bytes → Outcome (List Packet)
enqueue_packets q addresser packettype packet_size bytes =
    if packet_size == header_size
    then fails undefined
    else (packet_loop (length bytes) addresser packettype packet_size
          (part_count packet_size (length bytes)) 1 bytes
        >>= λ ps. done (q ++ ps))
