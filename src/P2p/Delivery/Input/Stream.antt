-- ===== src/P2p/Delivery/Input/Stream.antt =====
-- Packets that arrive one behind the other are taken one after the other.
use net_lib.P2p.Delivery.{Engine, Event, Reader}
use net_lib.P2p.Delivery.Input.{
  append_payload, accept_packet, complete, read_packet, input_loop, process_raw,
}
use net_lib.P2p.Packet.{Packet, header_size, is_valid}
use net_lib.P2p.Serializer.{Archive, pack, unpack}
use net_lib.P2p.Serializer.RoundTrip.{IsPacked, unpack-pack, length-pack}
use net_lib.Prelude.{
  ℕ, zero, suc, ◌+◌, ◌-◌, ◌^◌, ◌≤◌, ◌<◌, ◌≡◌, refl, sym, ap, ◌∙◌, arith, List, [], ◌∷◌, ◌++◌,
  append_assoc, append-nil, true, false, ltb, leb, ltb→ge, lt→ltb, ◌==◌, if◌then◌else◌, Bool-cases,
  inl, inr, length, length-append, take, drop, drop-length-append, take-length-append, Bytes, All,
  done, fails, undefined,
}

module _ (a : Archive) (packet_size : ℕ) where
  abbrev pub stream : List Packet → Bytes
  stream [] = []
  stream (p ∷ ps) = pack a p ++ stream ps

  -- What a peer of the same packet size sends.
  pub record IsInput (p : Packet) : Type 0 where
    pub packed : IsPacked packet_size p
    pub valid : is_valid p.packettype ≡ true
    pub payload_fits : p.payloadsize ≤ packet_size - header_size

  -- The buffer with the payload behind it; the first part begins a new message.
  abbrev pub appended : Reader → Packet → Reader
  appended r p = record r {
    b = (if p.partindex == 1 then [] else r.b) ++ take p.payloadsize p.payload;
  }

  append_payload_lem :
      (r : Reader) (p : Packet) → IsInput p → append_payload r p ≡ done (appended r p)
  unfolding append_payload
  append_payload_lem r p ok = elim (Bool-cases (ltb 0 p.payloadsize)) [
    | inl some_payload ↦
        let fits : leb p.payloadsize (length p.payload) ≡ true =
          ground (arith, ok.packed.payload_full, ok.payload_fits) in
        rw (some_payload, fits) refl
    | inr empty ↦
        let b = if p.partindex == 1 then [] else r.b in
        let none_taken : take p.payloadsize p.payload ≡ [] =
          ap (λ n. take n p.payload)
            (let z : p.payloadsize ≡ 0 = omega (arith, ltb→ge 0 p.payloadsize) in z) in
        rw (empty, none_taken) (ap (λ c. done (record r { b = c })) (sym (append-nil b)))
  ]

  module _ (e : Engine) (socket : ℕ) where
    abbrev pub accepted : Reader → Packet → Reader × List Event
    accepted r p =
        if p.partindex == p.partcount
        then complete a packet_size e socket (appended r p) p
        else (appended r p, [])

    -- Packets, one after the other.
    abbrev pub feed : Reader → List Packet → Reader × List Event
    feed r [] = (r, [])
    feed r (p ∷ ps) = let s = accepted r p in let t = feed s.0 ps in (t.0, s.1 ++ t.1)

    pub feed-append :
        (r : Reader) (ps qs : List Packet)
        → feed r (ps ++ qs)
          ≡ ((feed (feed r ps).0 qs).0, (feed r ps).1 ++ (feed (feed r ps).0 qs).1)
    feed-append r [] qs = refl
    feed-append r (p ∷ ps) qs =
        let s = accepted r p in
        let h = feed-append s.0 ps qs in
        rw h (ap (λ l. ((feed (feed s.0 ps).0 qs).0, l)) (sym (append_assoc s.1 (feed s.0 ps).1 _)))

    pack_head : (p : Packet) → IsPacked packet_size p → pack a p ≡ p.packettype ∷ drop 1 (pack a p)
    unfolding pack
    pack_head p ok = rw (a.put_byte p.packettype ok.type_fits) refl

    module _ (large : header_size < packet_size) (small : packet_size < 2 ^ 16) where
      front :
          (p : Packet) (rest : Bytes) → IsInput p → take packet_size (pack a p ++ rest) ≡ pack a p
      front p rest ok =
          rw (length-pack a packet_size (omega arith) small p ok.packed) at
            (take-length-append (pack a p) rest)

      behind : (p : Packet) (rest : Bytes) → IsInput p → drop packet_size (pack a p ++ rest) ≡ rest
      behind p rest ok =
          rw (length-pack a packet_size (omega arith) small p ok.packed) at
            (drop-length-append (pack a p) rest)

      read_packet_lem :
          (r : Reader) (p : Packet)
          → IsInput p
          → read_packet a packet_size e socket r (pack a p) ≡ done (accepted r p, true)
      unfolding read_packet accept_packet
      read_packet_lem r p ok =
          let back : unpack a (pack a p) ≡ p =
            rw (append-nil (pack a p)) at
              (unpack-pack a packet_size (omega arith) small p [] ok.packed) in
          let back' : unpack a (p.packettype ∷ drop 1 (pack a p)) ≡ p =
            rw (← pack_head p ok.packed) back in
          let size : (p.packetsize == packet_size) ≡ true = ground (arith, ok.packed.size_ok) in
          rw (pack_head p ok.packed) (rw (back', ok.valid, size, append_payload_lem r p ok) refl)

      read_step :
          (fuel : ℕ) (r : Reader) (log : List Event) (p : Packet) (rest : Bytes)
          → IsInput p
          → input_loop a packet_size e socket (suc fuel) r log (pack a p ++ rest) ≡ (
              if leb packet_size (length rest)
              then input_loop a packet_size e socket fuel
                  (accepted r p).0
                  (log ++ (accepted r p).1)
                  rest
              else done ((accepted r p).0, log ++ (accepted r p).1, rest))
      unfolding input_loop
      read_step fuel r log p rest ok =
          rw (front p rest ok, read_packet_lem r p ok, behind p rest ok) refl

      input_loop_lem :
          (fuel : ℕ) (r : Reader) (log : List Event) (p : Packet) (ps : List Packet) (tail : Bytes)
          → length (p ∷ ps) ≤ fuel
          → All IsInput (p ∷ ps)
          → length tail < packet_size
          → input_loop a packet_size e socket fuel r log (stream (p ∷ ps) ++ tail)
            ≡ done ((feed r (p ∷ ps)).0, log ++ (feed r (p ∷ ps)).1, tail)
      input_loop_lem zero r log p ps tail le ok short = absurd (omega arith)
      input_loop_lem (suc fuel) r log p [] tail le (ok, _) short =
          let stops : leb packet_size (length tail) ≡ false = ground arith in
          let one : stream (p ∷ []) ++ tail ≡ pack a p ++ tail = rw (append-nil (pack a p)) refl in
          rw one (
            read_step fuel r log p tail ok
            ∙ rw stops (
                ap (λ l. done ((accepted r p).0, log ++ l, tail))
                  (sym (append-nil (accepted r p).1))))
      input_loop_lem (suc fuel) r log p (q ∷ qs) tail le (ok, oks) short =
          let rest = stream (q ∷ qs) ++ tail in
          let more : leb packet_size (length rest) ≡ true = ground (
            arith,
            length-append (stream (q ∷ qs)) tail,
            length-append (pack a q) (stream qs),
            length-pack a packet_size (omega arith) small q oks.0.packed,
          ) in
          let s = accepted r p in
          let later = feed s.0 (q ∷ qs) in
          ap (input_loop a packet_size e socket (suc fuel) r log)
            (append_assoc (pack a p) (stream (q ∷ qs)) tail)
          ∙ read_step fuel r log p rest ok
          ∙ rw more (
              input_loop_lem fuel s.0 (log ++ s.1) q qs tail (omega arith) oks short
              ∙ ap (λ l. done (later.0, l, tail)) (append_assoc log s.1 later.1))

      length-stream : (ps : List Packet) → All IsInput ps → length ps ≤ length (stream ps)
      length-stream [] ok = omega arith
      length-stream (p ∷ ps) (ok, oks) = omega (
        arith,
        length-append (pack a p) (stream ps),
        length-stream ps oks,
        length-pack a packet_size (omega arith) small p ok.packed,
      )

      -- For a packet size that leaves some payload and fits its field: what arrived, if it is packets
      -- of that size followed by less than a packet, is taken packet by packet, and the rest stays.
      pub process_raw_lem :
          (r : Reader) (ps : List Packet) (tail : Bytes)
          → All IsInput ps
          → length tail < packet_size
          → process_raw a packet_size e socket r (stream ps ++ tail)
            ≡ done ((feed r ps).0, (feed r ps).1, tail)
      unfolding process_raw
      process_raw_lem r [] tail ok short =
          let wait : ltb (length tail) packet_size ≡ true = lt→ltb _ _ short in rw wait refl
      process_raw_lem r (p ∷ ps) tail ok short =
          let raw = stream (p ∷ ps) ++ tail in
          let size : length (pack a p) ≡ packet_size =
            length-pack a packet_size (omega arith) small p ok.0.packed in
          let l : length raw ≡ length (pack a p) + length (stream ps) + length tail =
            omega
              (arith, length-append (stream (p ∷ ps)) tail, length-append (pack a p) (stream ps)) in
          let enough : ltb (length raw) packet_size ≡ false = ground arith in
          rw enough (
            input_loop_lem (length raw) r [] p ps tail
              (omega (arith, length-append (stream (p ∷ ps)) tail, length-stream (p ∷ ps) ok)) ok
              short)

      read_oversized :
          (r : Reader) (p : Packet)
          → IsPacked packet_size p
          → is_valid p.packettype ≡ true
          → packet_size - header_size < p.payloadsize
          → read_packet a packet_size e socket r (pack a p) ≡ fails undefined
      unfolding read_packet accept_packet append_payload
      read_oversized r p ok valid over =
          let back : unpack a (pack a p) ≡ p =
            rw (append-nil (pack a p)) at (unpack-pack a packet_size (omega arith) small p [] ok) in
          let head = pack_head p ok in
          let back' : unpack a (p.packettype ∷ drop 1 (pack a p)) ≡ p = rw (← head) back in
          let size : (p.packetsize == packet_size) ≡ true = ground (arith, ok.size_ok) in
          let some_payload : ltb 0 p.payloadsize ≡ true = ground arith in
          let beyond : leb p.payloadsize (length p.payload) ≡ false =
            ground (arith, ok.payload_full) in
          rw head (rw (back', valid, size, some_payload, beyond) refl)

      -- For a packet size that leaves some payload: a packet of that size and of a valid type
      -- whose payload size is larger than its payload, when it arrives first, has the engine read
      -- behind the payload, which is undefined, whatever follows.
      pub process_raw-oversized :
          (r : Reader) (p : Packet) (rest : Bytes)
          → IsPacked packet_size p
          → is_valid p.packettype ≡ true
          → packet_size - header_size < p.payloadsize
          → process_raw a packet_size e socket r (pack a p ++ rest) ≡ fails undefined
      unfolding process_raw input_loop
      process_raw-oversized r p rest ok valid over =
          let n : length (pack a p ++ rest) ≡ suc (packet_size - 1 + length rest) = omega (
            arith,
            length-append (pack a p) rest,
            length-pack a packet_size (omega arith) small p ok,
          ) in
          let enough : ltb (suc (packet_size - 1 + length rest)) packet_size ≡ false =
            ground arith in
          let f : take packet_size (pack a p ++ rest) ≡ pack a p =
            rw (length-pack a packet_size (omega arith) small p ok) at
              (take-length-append (pack a p) rest) in
          rw (n, enough) (rw (f, read_oversized r p ok valid over) refl)
