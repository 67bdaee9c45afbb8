-- ===== src/P2p/Delivery/Channels.antt =====
-- A channel is established when both of its halves are there.
use net_lib.P2p.Delivery.{
  Event, Reader, Writer, Engine, writer_ready, reader_ready, channel_established, waits_for_write,
  record_events, locate_reader, locate_writer, has_reader, has_writer, is_connected,
  check_complete_channel, enqueue_packets,
}
use net_lib.P2p.Delivery.Input.{deliver}
use net_lib.P2p.Delivery.Step.{greeting, process_socket_connected}
use net_lib.P2p.Packet.{PacketType, Packet, hello, header_size, max_packet_size}
use net_lib.P2p.Packet
use net_lib.P2p.Packet.Parts.{contents, enqueue_packets_lem}
use net_lib.P2p.Serializer.{Archive}
use net_lib.Prelude.Dict.{find}
use net_lib.Prelude.OrderedMap.{put, find-put}
use net_lib.Prelude.{
  ℕ, ◌≤◌, ◌<◌, ◌≡◌, ◌≢◌, refl, ap, ◌∙◌, arith, List, [], ◌∷◌, ◌++◌, some, true, false, Bool, ltb,
  ◌==◌, ==_self, ==_iff, if◌then◌else◌, Bool-cases, inl, inr, done, Bytes, append_assoc,
}

-- A reader of a peer that is found first.
has_reader_here :
    (s peerid : ℕ) (r : Reader) (m : List (ℕ × Reader))
    → r.peerid ≡ peerid
    → peerid ≢ 0
    → has_reader peerid ((s, r) ∷ m) ≡ true
unfolding locate_reader
has_reader_here s peerid r m e ne =
    let same : (r.peerid == peerid) ≡ true = ground arith in
    let known : (r.peerid == 0) ≡ false = ground arith in rw (same, known) refl

has_reader_behind :
    (s peerid : ℕ) (r : Reader) (m : List (ℕ × Reader))
    → peerid ≢ 0
    → has_reader peerid m ≡ true
    → has_reader peerid ((s, r) ∷ m) ≡ true
unfolding locate_reader
has_reader_behind s peerid r m ne h = elim (Bool-cases (r.peerid == peerid)) [
  | inl same ↦ has_reader_here s peerid r m ((==_iff r.peerid peerid).0 same) ne
  | inr other ↦ rw other h
]

-- A reader that has a peer is found by it, whichever sockets come before.
has_reader-put :
    (s peerid : ℕ) (r : Reader) (m : List (ℕ × Reader))
    → r.peerid ≡ peerid
    → peerid ≢ 0
    → has_reader peerid (put s r m) ≡ true
unfolding put
has_reader-put s peerid r [] e ne = has_reader_here s peerid r [] e ne
has_reader-put s peerid r ((j, w) ∷ m) e ne = elim (Bool-cases (ltb s j)) [
  | inl before ↦ rw before (has_reader_here s peerid r ((j, w) ∷ m) e ne)
  | inr behind ↦ rw behind (elim (Bool-cases (j == s)) [
    | inl here ↦ rw here (has_reader_here s peerid r m e ne)
    | inr later ↦
        rw later (has_reader_behind j peerid w (put s r m) ne (has_reader-put s peerid r m e ne))
  ])
]

-- The event, if a half of the channel is there.
abbrev pub established_if : Bool → ℕ → List Event
established_if b peerid = if b then channel_established peerid ∷ [] else []

hello_complete :
    (a : Archive) (packet_size : ℕ) (e : Engine) (socket peerid : ℕ) (r : Reader)
    → peerid ≢ 0
    → (deliver a packet_size e socket r hello peerid).1
      ≡ reader_ready peerid ∷ established_if (has_writer peerid e.writers) peerid
unfolding deliver check_complete_channel
hello_complete a packet_size e socket peerid r ne =
    rw (has_reader-put socket peerid (record r { peerid = peerid }) e.readers refl ne) refl

check_connected :
    (readers : List (ℕ × Reader)) (writers : List (ℕ × Writer)) (peerid : ℕ)
    → has_writer peerid writers ≡ true
    → check_complete_channel readers writers peerid
      ≡ established_if (has_reader peerid readers) peerid
unfolding check_complete_channel
check_connected readers writers peerid h = elim (Bool-cases (has_reader peerid readers)) [
  | inl e ↦ rw (h, e) refl
  | inr e ↦ rw (h, e) refl
]

enqueue_there :
    (packet_size : ℕ) (e : Engine) (addressee : ℕ) (t : PacketType) (bytes : Bytes) (w : Writer)
    (q : List Packet)
    → find addressee e.writers ≡ some w
    → Packet.enqueue_packets w.regular_queue e.host_id t packet_size bytes ≡ done q
    → enqueue_packets packet_size e addressee t bytes
      ≡ done (record e { writers = put addressee (record w { regular_queue = q }) e.writers }, true)
unfolding enqueue_packets
enqueue_there packet_size e addressee t bytes w q there run =
    rw (enqueue_packets, there) (rw run refl)

module _ (packet_size : ℕ) (large : header_size < packet_size)
    (small : packet_size ≤ max_packet_size) where
  connected_complete :
      (e : Engine) (socket peerid : ℕ) (w : Writer)
      → locate_writer socket e.writers ≡ some (peerid, w)
      → (e' : Engine) × (q : List Packet) × (process_socket_connected packet_size e socket
          ≡ done e')
        × (find peerid e'.writers
            ≡ some (record w { connected = true; regular_queue = w.regular_queue ++ q }))
        × (contents q ≡ greeting)
        × (e'.readers ≡ e.readers)
        × (e'.log
            ≡ e.log
              ++ (waits_for_write w.socket
                  ∷ writer_ready peerid
                  ∷ established_if (has_reader peerid e.readers) peerid))
  unfolding process_socket_connected record_events
  connected_complete e socket peerid w there =
      let (q, run, parts, c, numbered) =
        enqueue_packets_lem w.regular_queue e.host_id hello packet_size greeting large small
          (omega arith) in
      let w1 : Writer = record w { connected = true } in
      let w2 : Writer = record w1 { regular_queue = w.regular_queue ++ q } in
      let found : find peerid (put peerid w1 e.writers) ≡ some w1 =
        find-put peerid peerid w1 e.writers ∙ rw (==_self peerid) refl in
      let found2 : find peerid (put peerid w2 (put peerid w1 e.writers)) ≡ some w2 =
        find-put peerid peerid w2 (put peerid w1 e.writers) ∙ rw (==_self peerid) refl in
      let e1 : Engine = record e {
        writers = put peerid w1 e.writers;
        log = e.log ++ (waits_for_write w.socket ∷ writer_ready peerid ∷ []);
      } in
      let queued =
        enqueue_there packet_size e1 peerid hello greeting w1 (w.regular_queue ++ q) found run in
      let e2 : Engine = record e1 { writers = put peerid w2 e1.writers } in
      let events = check_complete_channel e2.readers e2.writers peerid in
      let both : events ≡ established_if (has_reader peerid e.readers) peerid =
        check_connected e2.readers e2.writers peerid (ap is_connected found2) in
      (
        record e2 { log = e2.log ++ events },
        q,
        rw (process_socket_connected, there) (rw queued refl),
        found2,
        c,
        refl,
        append_assoc e.log (waits_for_write w.socket ∷ writer_ready peerid ∷ []) events
            ∙ ap (λ x. e.log ++ (waits_for_write w.socket ∷ writer_ready peerid ∷ x)) both,
      )

  -- For a packet size from 30 to 1430 and a peer that is not the null identifier, of which there
  -- is a writer that is not connected and no reader: when the writer is connected and then the
  -- peer says hello on any reader, or the other way round, both succeed, and the channel is
  -- reported as established exactly once, after the second of the two.
  pub established_once :
      (a : Archive) (e : Engine) (socket reader peerid : ℕ) (w : Writer) (r : Reader)
      → peerid ≢ 0
      → locate_writer socket e.writers ≡ some (peerid, w)
      → find peerid e.writers ≡ some w
      → w.connected ≡ false
      → has_reader peerid e.readers ≡ false
      → let heard = put reader (record r { peerid = peerid }) e.readers in
        let ready = waits_for_write w.socket ∷ writer_ready peerid ∷ [] in
        ((e' : Engine) × (process_socket_connected packet_size e socket ≡ done e')
          × (e'.log ≡ e.log ++ ready)
          × ((deliver a packet_size e' reader r hello peerid).1
              ≡ reader_ready peerid ∷ channel_established peerid ∷ []))
        × ((deliver a packet_size e reader r hello peerid).1 ≡ reader_ready peerid ∷ [])
        × ((e' : Engine) × (process_socket_connected packet_size
                (record e { readers = heard })
                socket
              ≡ done e')
            × (e'.log ≡ e.log ++ (ready ++ (channel_established peerid ∷ []))))
  established_once a e socket reader peerid w r ne there found off no_reader =
      let e1 : Engine = record e {
        readers = put reader (record r { peerid = peerid }) e.readers;
      } in
      let (e', q, run, writer, c, same, log) = connected_complete e socket peerid w there in
      let (e'', q', run', writer', c', same', log') = connected_complete e1 socket peerid w there in
      let heard : has_reader peerid e1.readers ≡ true =
        has_reader-put reader peerid (record r { peerid = peerid }) e.readers refl ne in
      (
        (
          e',
          run,
          rw no_reader at log,
          hello_complete a packet_size e' reader peerid r ne
              ∙ ap (λ b. reader_ready peerid ∷ established_if b peerid) (ap is_connected writer),
        ),
        hello_complete a packet_size e reader peerid r ne
            ∙ ap (λ b. reader_ready peerid ∷ established_if b peerid) (ap is_connected found ∙ off),
        (e'', run', rw heard at log'),
      )
