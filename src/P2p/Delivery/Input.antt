-- ===== src/P2p/Delivery/Input.antt =====
-- Lines 691 to 814 of include/pfs/netty/p2p/delivery_engine.hpp: what arrives on a reader's socket. The
-- bytes of a packet are read by the primal serializer. A vector that was moved from is empty.
pub mod Chunks
pub mod Conversation
pub mod Messages
pub mod Stream
use net_lib.P2p.Delivery.{
  Event, Reader, Writer, Engine, on_error, defere_expire_peer, data_received, file_data_received,
  reader_ready, record_events, check_complete_channel,
}
use net_lib.P2p.Packet.{
  PacketType, Packet, is_valid, regular, hello, file_credentials, file_request, file_stop,
  file_begin, file_chunk, file_end, file_state,
}
use net_lib.P2p.Serializer.{Archive, unpack}
use net_lib.Prelude.Dict.{find}
use net_lib.Prelude.OrderedMap.{put}
use net_lib.Prelude.{
  ℕ, zero, suc, List, [], ◌∷◌, ◌++◌, Option, none, some, Bool, true, false, ltb, leb, ◌==◌,
  if◌then◌else◌, length, take, drop, replicate, Bytes, Outcome, done, fails, undefined, out_of_fuel,
  ◌>>=◌,
}

-- What `recv` returns: a negative number, or the bytes that it read.
pub data Recv : Type 0 where
  failed : Recv
  got : Bytes → Recv

abbrev pub type_of : ℕ → Option PacketType
type_of t =
    if t == 0x2A
    then some regular
    else if t == 0x2B
    then some hello
    else if t == 0x2C
    then some file_credentials
    else if t == 0x2D
    then some file_request
    else if t == 0x2E
    then some file_stop
    else if t == 0x2F
    then some file_begin
    else if t == 0x30
    then some file_chunk
    else if t == 0x31
    then some file_end
    else if t == 0x32
    then some file_state
    else none

-- Reads until less than a packet arrives; after the last answer, `recv` returns 0. A failed read leaves
-- the room that was made for it.
unfoldable pub receive : ℕ → Bytes → List Recv → Bytes × Bool
receive packet_size raw [] = (raw, true)
receive packet_size raw (failed ∷ rs) = (raw ++ replicate packet_size 0, false)
receive packet_size raw (got bytes ∷ rs) =
    let rest = receive packet_size (raw ++ bytes) rs in
    if ltb (length bytes) packet_size then (raw ++ bytes, true) else rest

-- A payload size above the payload reads behind it.
unfoldable pub append_payload : Reader → Packet → Outcome Reader
append_payload r pkt =
    let b = if pkt.partindex == 1 then [] else r.b in
    if ltb 0 pkt.payloadsize
    then if leb pkt.payloadsize (length pkt.payload)
      then done (record r { b = b ++ take pkt.payloadsize pkt.payload })
      else fails undefined
    else done (record r { b = b })

module _ (a : Archive) (packet_size : ℕ) (e : Engine) (socket : ℕ) where
  -- A complete message.
  unfoldable pub deliver : Reader → PacketType → ℕ → Reader × List Event
  deliver r regular from = (record r { b = [] }, data_received from r.b ∷ [])
  deliver r hello from =
      let r' : Reader = record r { peerid = from } in
      (r', reader_ready from ∷ check_complete_channel (put socket r' e.readers) e.writers from)
  deliver r packettype from = (record r { b = [] }, file_data_received from packettype r.b ∷ [])

  unfoldable pub complete : Reader → Packet → Reader × List Event
  complete r pkt = elim (type_of pkt.packettype) [
    | none ↦ (r, [])
    | some packettype ↦ deliver r packettype pkt.addresser
  ]

  unfoldable pub accept_packet : Reader → Packet → Outcome (Reader × List Event)
  accept_packet r pkt = do
    r' ← append_payload r pkt
    done (if pkt.partindex == pkt.partcount then complete r' pkt else (r', []))

  -- One round of the loop; `false` drops all that arrived.
  unfoldable pub read_packet : Reader → Bytes → Outcome ((Reader × List Event) × Bool)
  read_packet r [] = fails undefined
  read_packet r (c ∷ bytes) =
      let pkt = unpack a (c ∷ bytes) in
      if is_valid c
      then if pkt.packetsize == packet_size
        then (accept_packet r pkt >>= λ s. done (s, true))
        else done ((r, on_error ∷ defere_expire_peer r.peerid ∷ []), false)
      else done ((r, on_error ∷ defere_expire_peer r.peerid ∷ []), false)

  abbrev pub State : Type 0
  State = Reader × List Event × Bytes

  unfoldable pub input_loop : ℕ → Reader → List Event → Bytes → Outcome State
  input_loop zero r log raw = fails out_of_fuel
  input_loop (suc fuel) r log raw = read_packet r (take packet_size raw) >>= λ s.
      let log' = log ++ s.0.1 in
      let rest = input_loop fuel s.0.0 log' (drop packet_size raw) in
      if s.1
      then if leb packet_size (length (drop packet_size raw))
        then rest
        else done (s.0.0, log', drop packet_size raw)
      else done (s.0.0, log', [])

  -- What arrived is in `raw`.
  unfoldable pub process_raw : Reader → Bytes → Outcome State
  process_raw r raw =
      if ltb (length raw) packet_size then done (r, [], raw) else input_loop (length raw) r [] raw

abbrev pub set_reader : Engine → ℕ → Reader → Engine
set_reader e socket r = record e { readers = put socket r e.readers }

module _ (a : Archive) (packet_size : ℕ) where
  unfoldable pub process_reader_input : Engine → ℕ → List Recv → Outcome Engine
  process_reader_input e socket answers = elim (find socket e.readers) [
    | none ↦ done (record_events e (on_error ∷ []))
    | some r ↦
        let x = receive packet_size r.raw answers in
        if x.1
        then (process_raw a packet_size e socket r x.0 >>= λ s.
            done (record_events (set_reader e socket (record s.0 { raw = s.2 })) s.1))
        else done (
            record_events (set_reader e socket (record r { raw = x.0 }))
              (on_error ∷ defere_expire_peer r.peerid ∷ []))
  ]
