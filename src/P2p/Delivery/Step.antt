-- ===== src/P2p/Delivery/Step.antt =====
-- include/pfs/netty/p2p/delivery_engine.hpp, lines 128 to 243, 302 to 309, 340 to 387 and 671 to 689: what
-- the pollers' callbacks do, and a step of the engine. The pollers are the lists of their events.
use net_lib.Net.WriterPool.{SendResult}
use net_lib.P2p.Delivery.{
  Event, Reader, Writer, Engine, on_error, on_warn, on_failure, defere_expire_peer, writer_ready,
  waits_for_write, record_events, locate_writer, accept_reader_account, check_complete_channel,
  enqueue_packets, release_expired_peers,
}
use net_lib.P2p.Delivery.Input.{Recv, process_reader_input}
use net_lib.P2p.Delivery.Output.{send_outgoing_packets}
use net_lib.P2p.Packet.{hello}
use net_lib.P2p.Serializer.{Archive}
use net_lib.Prelude.Dict.{find, erase}
use net_lib.Prelude.OrderedMap.{put}
use net_lib.Prelude.{
  ℕ, ◌+◌, List, [], ◌∷◌, Option, none, some, true, ◌==◌, if◌then◌else◌, is_nil, Bytes, Outcome,
  done, fails, undefined, ◌>>=◌,
}

pub data WriterEvent : Type 0 where
  writer_failed refused connected writer_disconnected writable writer_gone : ℕ → WriterEvent

pub data ReaderEvent : Type 0 where
  listener_failed : ReaderEvent
  reader_failed reader_disconnected reader_gone : ℕ → ReaderEvent
  ready_read : ℕ → List Recv → ReaderEvent
  -- What the listener's accept gives, if it succeeds.
  accepts : Option ℕ → ReaderEvent

-- The bytes of "HELO".
abbrev pub greeting : Bytes
greeting = 72 ∷ 69 ∷ 76 ∷ 79 ∷ []

-- The peer of a reader that is complete.
abbrev pub complete_peer : Option Reader → Option ℕ
complete_peer none = none
complete_peer (some r) = if r.peerid == 0 then none else some r.peerid

abbrev pub expire_or : Option ℕ → List Event → List Event
expire_or none events = events
expire_or (some peerid) events = defere_expire_peer peerid ∷ []

abbrev pub writer_peer : Option (ℕ × Writer) → Option ℕ
writer_peer none = none
writer_peer (some (peerid, w)) = some peerid

module _ (packet_size : ℕ) where
  unfoldable pub process_socket_connected : Engine → ℕ → Outcome Engine
  process_socket_connected e socket = elim (locate_writer socket e.writers) [
    | none ↦ done (record_events e (on_error ∷ []))
    | some (peerid, w) ↦ do
      r ←
          enqueue_packets packet_size
            (record_events
              (record e { writers = put peerid (record w { connected = true }) e.writers })
              (waits_for_write w.socket ∷ writer_ready peerid ∷ []))
            peerid hello greeting
      done (record_events r.0 (check_complete_channel r.0.readers r.0.writers peerid))
  ]

  unfoldable pub on_writer : Engine → WriterEvent → Outcome Engine
  on_writer e (writer_failed s) = done (
      record_events e
        (expire_or (writer_peer (locate_writer s e.writers)) (on_error ∷ on_failure ∷ [])))
  on_writer e (refused s) = elim (locate_writer s e.writers) [
    | none ↦ done (record_events e (on_error ∷ []))
    | some (peerid, w) ↦ done (record_events e (on_error ∷ defere_expire_peer peerid ∷ []))
  ]
  on_writer e (connected s) = process_socket_connected e s
  on_writer e (writer_disconnected s) =
      done (record_events e (expire_or (writer_peer (locate_writer s e.writers)) (on_error ∷ [])))
  on_writer e (writable s) = elim (locate_writer s e.writers) [
    | none ↦ done (record_events e (on_error ∷ []))
    | some (peerid, w) ↦
        done (record e { writers = put peerid (record w { can_write = true }) e.writers })
  ]
  on_writer e (writer_gone s) = elim (locate_writer s e.writers) [
    | none ↦ done (record_events e (on_error ∷ []))
    | some (peerid, w) ↦ done (record e { writers = erase peerid e.writers })
  ]

-- When accept fails, the callback reads through a null pointer.
unfoldable pub on_accept : Engine → Option ℕ → Outcome Engine
on_accept e none = fails undefined
on_accept e (some s) = done (accept_reader_account e (some s)).0

module _ (a : Archive) (packet_size : ℕ) where
  unfoldable pub on_reader : Engine → ReaderEvent → Outcome Engine
  on_reader e listener_failed = done (record_events e (on_failure ∷ []))
  on_reader e (reader_failed s) =
      done (
        record_events e (expire_or (complete_peer (find s e.readers)) (on_error ∷ on_failure ∷ [])))
  on_reader e (reader_disconnected s) =
      done (record_events e (expire_or (complete_peer (find s e.readers)) (on_warn ∷ [])))
  on_reader e (reader_gone s) = done (record e { readers = erase s e.readers })
  on_reader e (ready_read s answers) = process_reader_input a packet_size e s answers
  on_reader e (accepts answer) = on_accept e answer

  unfoldable pub reader_events : Engine → List ReaderEvent → Outcome Engine
  reader_events e [] = done e
  reader_events e (x ∷ xs) = do e' ← on_reader e x; reader_events e' xs

  unfoldable pub writer_events : Engine → List WriterEvent → Outcome Engine
  writer_events e [] = done e
  writer_events e (x ∷ xs) = do e' ← on_writer packet_size e x; writer_events e' xs

  -- A negative number of events counts as none.
  abbrev pub counted : Option ℕ → ℕ
  counted none = 0
  counted (some n) = n

  -- `polled` are the results of the two calls of `poll`.
  unfoldable pub step :
      Engine
      → (ℕ → ℕ → Bytes → SendResult)
      → List ReaderEvent
      → List WriterEvent
      → (polled : Option ℕ × Option ℕ) → Outcome (Engine × ℕ)
  step e send reads writes polled = do
    s ← send_outgoing_packets a packet_size send e.writers
    e1 ← reader_events (record_events (record e { writers = s.0 }) s.1) reads
    e2 ← writer_events e1 writes
    done (
      if is_nil e2.expired_peers then e2 else release_expired_peers e2,
      counted polled.0 + counted polled.1,
    )
