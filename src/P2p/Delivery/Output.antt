-- ===== src/P2p/Delivery/Output.antt =====
-- Lines 816 to 941 of include/pfs/netty/p2p/delivery_engine.hpp: packets are serialized into the buffer
-- of a writer and sent. What `send` answers is an argument. The
-- loop over it has as much fuel as there are bytes: an answer that is good takes one at least.

pub mod Sending
use net_lib.Net.WriterPool.{SendStatus, SendResult, failure, again, overflow, good, network}
use net_lib.P2p.Delivery.{
  Event, Writer, Engine, on_error, defere_expire_peer, waits_for_write, request_file_chunk, sent,
}
use net_lib.P2p.Packet.{Packet}
use net_lib.P2p.Serializer.{Archive, pack}
use net_lib.Prelude.{
  ℕ, zero, suc, ◌*◌, List, [], ◌∷◌, ◌++◌, Bool, true, false, ltb, ◌==◌, if◌then◌else◌, length, take,
  drop, is_nil, Bytes, Outcome, done, fails, out_of_fuel, ◌>>=◌, min,
}

module _ (a : Archive) where
  -- No more than `limit` messages; a packet that ends a message counts.
  unfoldable pub serialize_outgoing_packets : Bytes → List Packet → ℕ → Bytes × List Packet
  serialize_outgoing_packets raw [] limit = (raw, [])
  serialize_outgoing_packets raw (p ∷ q) zero = (raw, p ∷ q)
  serialize_outgoing_packets raw (p ∷ q) (suc limit) =
      serialize_outgoing_packets (raw ++ pack a p) q
        (if p.partindex == p.partcount then limit else suc limit)

  -- The queues of the files, in order; a chunk is requested for each that is empty.
  unfoldable pub serialize_chunks :
      ℕ → Bytes → List (ℕ × List Packet) → Bytes × List (ℕ × List Packet) × List Event
  serialize_chunks peerid raw [] = (raw, [], [])
  serialize_chunks peerid raw ((fileid, []) ∷ m) =
      let rest = serialize_chunks peerid raw m in
      (rest.0, (fileid, []) ∷ rest.1, request_file_chunk peerid fileid ∷ rest.2)
  serialize_chunks peerid raw ((fileid, p ∷ q) ∷ m) =
      let s = serialize_outgoing_packets raw (p ∷ q) 10 in
      let rest = serialize_chunks peerid s.0 m in (rest.0, (fileid, s.1) ∷ rest.1, rest.2)

  -- Nothing is serialized while a packet or more waits.
  unfoldable pub serialize : ℕ → ℕ → Writer → Writer × List Event
  serialize packet_size peerid w =
      let s = serialize_outgoing_packets w.raw w.regular_queue 10 in
      let c = serialize_chunks peerid s.0 w.chunks in
      if ltb (length w.raw) packet_size
      then (record w { raw = c.0; regular_queue = s.1; chunks = c.1 }, c.2)
      else (w, [])

abbrev pub Sent : Type 0
Sent = Outcome (Writer × List Event)

-- After an answer; `more` is the next round.
unfoldable pub on_result : ℕ → Writer → SendStatus → Sent → Sent
on_result peerid w failure more = done (w, on_error ∷ defere_expire_peer peerid ∷ [])
on_result peerid w network more = done (w, on_error ∷ defere_expire_peer peerid ∷ [])
on_result peerid w again more =
    if w.can_write
    then done (record w { can_write = false }, waits_for_write w.socket ∷ [])
    else done (w, [])
on_result peerid w overflow more =
    if w.can_write
    then done (record w { can_write = false }, waits_for_write w.socket ∷ [])
    else done (w, [])
on_result peerid w good more = more

module _ (packet_size : ℕ) (send : ℕ → Bytes → SendResult) where
  -- The loop over `send`, whose answers are numbered from `i`.
  unfoldable pub send_outgoing_data : (fuel i peerid : ℕ) → Writer → Sent
  send_outgoing_data zero i peerid w = if is_nil w.raw then done (w, []) else fails out_of_fuel
  send_outgoing_data (suc fuel) i peerid w =
      let bytes = take (min (packet_size * 10) (length w.raw)) w.raw in
      let result = send i bytes in
      let rest = send_outgoing_data fuel (suc i) peerid (record w { raw = drop result.n w.raw }) in
      let more = (rest >>= λ s. done (s.0, sent w.socket (take result.n bytes) ∷ s.1)) in
      if is_nil w.raw then done (w, []) else on_result peerid w result.status more

module _ (a : Archive) (packet_size : ℕ) (send : ℕ → ℕ → Bytes → SendResult) where
  unfoldable pub send_to_writer : ℕ → Writer → Sent
  send_to_writer peerid w =
      if w.can_write
      then (let s = serialize a packet_size peerid w in
          if is_nil s.0.raw
          then done s
          else (send_outgoing_data packet_size (send peerid) (length s.0.raw) 0 peerid s.0 >>= λ t.
              done (t.0, s.1 ++ t.1)))
      else done (w, [])

  unfoldable pub send_outgoing_packets :
      List (ℕ × Writer) → Outcome (List (ℕ × Writer) × List Event)
  send_outgoing_packets [] = done ([], [])
  send_outgoing_packets ((peerid, w) ∷ m) = do
    s ← send_to_writer peerid w
    t ← send_outgoing_packets m
    done ((peerid, s.0) ∷ t.0, s.1 ++ t.1)
