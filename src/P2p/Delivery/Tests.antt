-- ===== src/P2p/Delivery/Tests.antt =====
-- A conversation of two messages, an empty one between them, cut in the middle of a packet.
use net_lib.Net.WriterPool.{SendResult, good, again}
use net_lib.P2p.Delivery.{
  Engine, Reader, Writer, Event, locate_writer, locate_reader, waits_for_write, writer_ready,
  reader_ready, channel_established,
}
use net_lib.P2p.Delivery.Channels.{established_once}
use net_lib.P2p.Delivery.Step.{process_socket_connected}
use net_lib.P2p.Delivery.Input.{Recv, got, receive, deliver, process_raw}
use net_lib.P2p.Delivery.Input.Chunks.{process_inputs, all_bytes, Taken}
use net_lib.P2p.Delivery.Input.Conversation.{enqueue_all, deliver_all, conversation}
use net_lib.P2p.Delivery.Input.Stream.{stream, process_raw-oversized}
use net_lib.P2p.Delivery.Output.{serialize_outgoing_packets, send_outgoing_data}
use net_lib.P2p.Delivery.Output.Sending.{
  serialize_outgoing_packets-flatten, send_outgoing_data_lem, Sending,
}
use net_lib.P2p.Packet.{
  is_valid, Packet, PacketType, regular, hello, file_chunk, enqueue_packets, packet_loop,
  next_packet, part_count, packet_value,
}
use net_lib.P2p.Serializer.{pack}
use net_lib.P2p.Serializer.LittleEndian.{little_endian}
use net_lib.Prelude.Dict.{find}
use net_lib.Prelude.{
  some, ℕ, ◌≡◌, refl, arith, [], ◌∷◌, ◌++◌, List, true, false, done, fails, undefined, ◌≤◌, ◌<◌,
  Bytes, take, drop, length, ltb, if◌then◌else◌,
}
use net_lib.Prelude.OrderedMap.{put}

abbrev parts : List Packet
parts =
    record {
      packettype = 42;
      packetsize = 31;
      addresser = 7;
      payloadsize = 2;
      partcount = 2;
      partindex = 1;
      payload = 1 ∷ 2 ∷ [];
    }
    ∷ record {
      packettype = 42;
      packetsize = 31;
      addresser = 7;
      payloadsize = 1;
      partcount = 2;
      partindex = 2;
      payload = 3 ∷ 0 ∷ [];
    }
    ∷ record {
      packettype = 48;
      packetsize = 31;
      addresser = 7;
      payloadsize = 1;
      partcount = 1;
      partindex = 1;
      payload = 9 ∷ 0 ∷ [];
    }
    ∷ []

abbrev messages : List (PacketType × Bytes)
messages = (regular, 1 ∷ 2 ∷ 3 ∷ []) ∷ (regular, []) ∷ (file_chunk, 9 ∷ []) ∷ []

abbrev reader : Reader
reader = record { peerid = 7; b = 5 ∷ []; raw = [] }

abbrev engine : Engine
engine = record {
  host_id = 1;
  readers = (3, reader) ∷ [];
  writers = [];
  expired_peers = [];
  log = [];
}

-- All the bytes in one call, and the last 40 in another.
abbrev calls : List (List Recv)
calls =
    (got (take 31 (stream little_endian 31 parts))
      ∷ got (take 22 (drop 31 (stream little_endian 31 parts)))
      ∷ [])
    ∷ (got (take 31 (drop 53 (stream little_endian 31 parts)))
        ∷ got (drop 84 (stream little_endian 31 parts))
        ∷ [])
    ∷ []

queued : enqueue_all [] 7 31 messages ≡ done parts
unfolding enqueue_all enqueue_packets packet_loop next_packet part_count packet_value
queued = refl

cut_bytes : all_bytes 31 calls ≡ stream little_endian 31 parts
unfolding receive little_endian pack
cut_bytes = refl

there : find 3 engine.readers ≡ some reader
unfolding find
there = refl

conversation_example :
    (e' : Engine) × (process_inputs little_endian 31 engine 3 calls ≡ done e')
    × Taken engine e' 3 (deliver_all little_endian 31 7 engine 3 reader messages)
unfolding receive pack little_endian
conversation_example =
    conversation little_endian 31 7 (omega arith) (omega arith) (omega arith) engine 3 reader
      messages parts calls there refl (omega arith, (omega arith, (omega arith, tt))) queued
      (refl, (refl, tt)) cut_bytes

oversized : Packet
oversized = record {
  packettype = 42;
  packetsize = 31;
  addresser = 7;
  payloadsize = 3;
  partcount = 1;
  partindex = 1;
  payload = 1 ∷ 2 ∷ [];
}

process_raw-oversized_example :
    process_raw little_endian 31 engine 3 reader (pack little_endian oversized ++ (0 ∷ []))
    ≡ fails undefined
unfolding oversized is_valid packet_value
process_raw-oversized_example =
    process_raw-oversized little_endian 31 engine 3 (omega arith) (omega arith) reader oversized
      (0 ∷ [])
      (record {
        type_fits = omega arith;
        size_ok = refl;
        addresser_fits = omega arith;
        payloadsize_fits = omega arith;
        count_fits = omega arith;
        index_fits = omega arith;
        payload_full = refl;
      })
      refl (omega arith)

serialize_outgoing_packets-flatten_example :
    serialize_outgoing_packets little_endian (4 ∷ []) parts 1
    ≡ ((4 ∷ []) ++ stream little_endian 31 (take 2 parts), drop 2 parts)
serialize_outgoing_packets-flatten_example =
    serialize_outgoing_packets-flatten little_endian 31 1 (4 ∷ [])
      (take 2 parts ∷ drop 2 parts ∷ [])
      ((refl, refl, omega arith, (refl, refl)), ((refl, refl), tt))

-- A socket that takes one byte at a time, and the fourth time none.
abbrev slow : ℕ → Bytes → SendResult
slow i [] = record { status = again; n = 0 }
slow i (c ∷ bytes) =
    if ltb i 3 then record { status = good; n = 1 } else record { status = again; n = 0 }

slow_bounded : (i : ℕ) (bytes : Bytes) → (slow i bytes).n ≤ length bytes
slow_bounded i [] = omega arith
slow_bounded i (c ∷ bytes) = ground arith

slow_progress : (i : ℕ) (bytes : Bytes) → (slow i bytes).status ≡ good → 0 < (slow i bytes).n
slow_progress i [] g = cc
slow_progress i (c ∷ bytes) g = ground arith

abbrev writer : Writer
writer = record {
  socket = 4;
  can_write = true;
  connected = false;
  regular_queue = [];
  chunks = [];
  raw = 1 ∷ 2 ∷ 3 ∷ 4 ∷ [];
}

send_outgoing_data_lem_example :
    (s : Writer × List Event) × (send_outgoing_data 31 slow (length writer.raw) 0 7 writer ≡ done s)
    × Sending 31 slow slow_bounded slow_progress writer s
send_outgoing_data_lem_example = send_outgoing_data_lem 31 slow slow_bounded slow_progress 7 writer

abbrev waiting_engine : Engine
waiting_engine = record {
  host_id = 1;
  readers = [];
  writers = (7, writer) ∷ [];
  expired_peers = [];
  log = [];
}

established_once_example :
    ((e' : Engine) × (process_socket_connected 31 waiting_engine 4 ≡ done e')
      × (e'.log ≡ waits_for_write 4 ∷ writer_ready 7 ∷ [])
      × ((deliver little_endian 31 e' 3 reader hello 7).1
          ≡ reader_ready 7 ∷ channel_established 7 ∷ []))
    × ((deliver little_endian 31 waiting_engine 3 reader hello 7).1 ≡ reader_ready 7 ∷ [])
    × ((e' : Engine) × (process_socket_connected 31
            (record waiting_engine { readers = put 3 reader [] })
            4
          ≡ done e')
        × (e'.log ≡ waits_for_write 4 ∷ writer_ready 7 ∷ channel_established 7 ∷ []))
unfolding locate_writer find locate_reader
established_once_example =
    established_once 31 (omega arith) (omega arith) little_endian waiting_engine 4 3 7 writer reader
      (λ e. absurd (omega arith)) refl refl refl refl
