-- ===== src/P2p/Delivery/Input/Conversation.antt =====
-- What one engine queues, another delivers: packet.hpp, primal_serializer.hpp and the input of
-- delivery_engine.hpp together.
use net_lib.P2p.Delivery.{Engine, Event, Reader}
use net_lib.P2p.Delivery.Input.{Recv, deliver}
use net_lib.P2p.Delivery.Input.Chunks.{Whole, all_bytes, process_inputs, Taken, process_inputs_lem}
use net_lib.P2p.Delivery.Input.Messages.{feed_message, IsPart-IsInput}
use net_lib.P2p.Delivery.Input.Stream.{stream, IsInput, feed, feed-append}
use net_lib.P2p.Packet.{
  PacketType, Packet, header_size, max_packet_size, part_count, enqueue_packets, packet_loop,
}
use net_lib.P2p.Packet.Parts.{enqueue_packets_lem}
use net_lib.P2p.Serializer.{Archive}
use net_lib.Prelude.Dict.{find}
use net_lib.Prelude.{
  ℕ, ◌^◌, ◌≤◌, ◌<◌, ◌≡◌, refl, sym, ap, ◌∙◌, arith, List, [], ◌∷◌, ◌++◌, append_assoc, append-nil,
  some, false, ◌==◌, length, Bytes, All, All-append, subst, Outcome, done, ◌>>=◌,
}

-- Messages are queued one after the other.
unfoldable pub enqueue_all :
    List Packet → (from packet_size : ℕ) → List (PacketType × Bytes) → Outcome (List Packet)
enqueue_all q from packet_size [] = done q
enqueue_all q from packet_size ((t, xs) ∷ ms) = do
  q' ← enqueue_packets q from t packet_size xs
  enqueue_all q' from packet_size ms

part_count-lt : (packet_size len : ℕ) → part_count packet_size len < 2 ^ 32
unfolding part_count
part_count-lt packet_size len = omega arith

enqueue_nothing :
    (q : List Packet) (from : ℕ) (t : PacketType) (packet_size : ℕ)
    → header_size < packet_size
    → enqueue_packets q from t packet_size [] ≡ done q
unfolding enqueue_packets packet_loop
enqueue_nothing q from t packet_size large =
    let other : (packet_size == header_size) ≡ false = ground arith in
    rw other (ap done (append-nil q))

module _ (a : Archive) (packet_size from : ℕ) where
  module _ (e : Engine) (socket : ℕ) where
    -- Each message whole, in order. An empty message has no packet, and is not delivered.
    abbrev pub deliver_all : Reader → List (PacketType × Bytes) → Reader × List Event
    deliver_all r [] = (r, [])
    deliver_all r ((t, []) ∷ ms) = deliver_all r ms
    deliver_all r ((t, x ∷ xs) ∷ ms) =
        let s = deliver a packet_size e socket (record r { b = x ∷ xs }) t from in
        let rest = deliver_all s.0 ms in (rest.0, s.1 ++ rest.1)

  module _ (large : header_size < packet_size) (small : packet_size ≤ max_packet_size)
      (fits : from < 256 ^ 16) where
    queue_lem :
        (q : List Packet) (ms : List (PacketType × Bytes))
        → All (λ m. length m.1 < 2 ^ 31) ms
        → (ps : List Packet) × (enqueue_all q from packet_size ms ≡ done (q ++ ps))
          × All (IsInput a packet_size) ps
          × ((e : Engine) (socket : ℕ) (r : Reader)
              → feed a packet_size e socket r ps ≡ deliver_all e socket r ms)
    unfolding enqueue_all
    queue_lem q [] short = ([], ap done (sym (append-nil q)), tt, λ e socket r. refl)
    queue_lem q ((t, []) ∷ ms) (_, shorts) =
        rw (enqueue_nothing q from t packet_size large) (queue_lem q ms shorts)
    queue_lem q ((t, x ∷ xs) ∷ ms) (short, shorts) =
        let (ps, run, parts, c, numbered) =
          enqueue_packets_lem q from t packet_size (x ∷ xs) large small short in
        let n = part_count packet_size (length (x ∷ xs)) in
        let (qs, later, ok, same) = queue_lem (q ++ ps) ms shorts in
        let input =
          IsPart-IsInput a packet_size from t 1 n ps fits
            (part_count-lt packet_size (length (x ∷ xs))) (omega arith) parts numbered in
        (
          ps ++ qs,
          rw run (later ∙ ap done (append_assoc q ps qs)),
          All-append _ ps qs input ok,
          λ e socket r.
              feed-append a packet_size e socket r ps qs
              ∙ (let first =
                    feed_message a packet_size e socket from t n ps (x ∷ xs) r parts numbered c
                      (cc) in
                  rw
                    (
                      first,
                      same e socket
                          (deliver a packet_size e socket (record r { b = x ∷ xs }) t from).0,
                    )
                    refl),
        )

    -- For a packet size from 30 to 1430 and an identifier of 16 bytes: messages of any types,
    -- each of fewer than 2 ^ 31 bytes, that are queued one after the other, and whose packets
    -- arrive on a reader that has nothing left over, in order, but cut into calls and reads in
    -- any way, are reported whole, in order and as from their sender, on top of what was reported
    -- before. Empty messages are not reported. Nothing is left over, and the other readers, the
    -- writers and the peers to expire are untouched.
    pub conversation :
        (e : Engine) (socket : ℕ) (r : Reader) (ms : List (PacketType × Bytes)) (q : List Packet)
        (calls : List (List Recv))
        → find socket e.readers ≡ some r
        → r.raw ≡ []
        → All (λ m. length m.1 < 2 ^ 31) ms
        → enqueue_all [] from packet_size ms ≡ done q
        → All (Whole packet_size) calls
        → all_bytes packet_size calls ≡ stream a packet_size q
        → (e' : Engine) × (process_inputs a packet_size e socket calls ≡ done e')
          × Taken e e' socket (deliver_all e socket r ms)
    conversation e socket r ms q calls there nothing short queued whole bytes =
        let (ps, run, ok, same) = queue_lem [] ms short in
        let all : ps ≡ q = cc in
        let (e', taken, t) =
          process_inputs_lem a packet_size large (omega arith) e socket r calls ps there
            (rw nothing (omega arith)) whole ok
            (ap (λ raw. raw ++ all_bytes packet_size calls) nothing
              ∙ bytes
              ∙ ap (stream a packet_size) (sym all)) in
        (e', taken, subst (Taken e e' socket) (same e socket r) t)
