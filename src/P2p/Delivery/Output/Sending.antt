-- ===== src/P2p/Delivery/Output/Sending.antt =====
-- Messages are serialized whole, and what is sent is the front of what waits.
use net_lib.Net.WriterPool.{SendStatus, SendResult, failure, again, overflow, good, network}
use net_lib.P2p.Delivery.{Event, Writer, sent, waits_for_write}
use net_lib.P2p.Delivery.Input.Stream.{stream}
use net_lib.P2p.Delivery.Output.{serialize_outgoing_packets, on_result, send_outgoing_data}
use net_lib.P2p.Packet.{Packet}
use net_lib.P2p.Serializer.{Archive, pack}
use net_lib.Prelude.{
  ℕ, zero, suc, ◌*◌, ◌≤◌, ◌<◌, ◌≡◌, refl, sym, ap, ◌∙◌, arith, List, [], ◌∷◌, ◌++◌, append_assoc,
  append-nil, true, false, ◌==◌, if◌then◌else◌, Bool-cases, inl, inr, length, length-drop,
  length-take, take-take, take-append-drop, take, drop, min, is_nil, Bytes, All, Outcome, done,
}

abbrev pub flatten : List (List Packet) → List Packet
flatten [] = []
flatten (ps ∷ ms) = ps ++ flatten ms

-- The packets of one message, from the `i`th on.
abbrev pub IsWhole : ℕ → List Packet → Type 0
IsWhole i [] = ⊥
IsWhole i (p ∷ []) = (p.partindex ≡ i) × (p.partcount ≡ i)
IsWhole i (p ∷ q ∷ ps) =
    (p.partindex ≡ i) × (p.partcount ≡ q.partcount) × (i < p.partcount) × IsWhole (suc i) (q ∷ ps)

module _ (a : Archive) where
  stream-append :
      (n : ℕ) (ps qs : List Packet) → stream a n (ps ++ qs) ≡ stream a n ps ++ stream a n qs
  stream-append n [] qs = refl
  stream-append n (p ∷ ps) qs =
      ap (◌++◌ (pack a p)) (stream-append n ps qs)
      ∙ sym (append_assoc (pack a p) (stream a n ps) (stream a n qs))

  serialize_last :
      (limit : ℕ) (raw : Bytes) (p : Packet) (q : List Packet)
      → (p.partindex == p.partcount) ≡ true
      → serialize_outgoing_packets a raw (p ∷ q) (suc limit)
        ≡ serialize_outgoing_packets a (raw ++ pack a p) q limit
  unfolding serialize_outgoing_packets
  serialize_last limit raw p q e =
      ap (λ b. serialize_outgoing_packets a (raw ++ pack a p) q (if b then limit else suc limit)) e

  serialize_part :
      (limit : ℕ) (raw : Bytes) (p : Packet) (q : List Packet)
      → (p.partindex == p.partcount) ≡ false
      → serialize_outgoing_packets a raw (p ∷ q) (suc limit)
        ≡ serialize_outgoing_packets a (raw ++ pack a p) q (suc limit)
  unfolding serialize_outgoing_packets
  serialize_part limit raw p q e =
      ap (λ b. serialize_outgoing_packets a (raw ++ pack a p) q (if b then limit else suc limit)) e

  serialize_nothing :
      (raw : Bytes) (limit : ℕ) → serialize_outgoing_packets a raw [] limit ≡ (raw, [])
  unfolding serialize_outgoing_packets
  serialize_nothing raw limit = refl

  serialize_message :
      (i n limit : ℕ) (raw : Bytes) (ps q : List Packet)
      → IsWhole i ps
      → serialize_outgoing_packets a raw (ps ++ q) (suc limit)
        ≡ serialize_outgoing_packets a (raw ++ stream a n ps) q limit
  serialize_message i n limit raw [] q h = absurd h
  serialize_message i n limit raw (p ∷ []) q (index, count) =
      let last : (p.partindex == p.partcount) ≡ true = ground arith in
      serialize_last limit raw p q last
      ∙ ap (λ x. serialize_outgoing_packets a (raw ++ x) q limit) (sym (append-nil (pack a p)))
  serialize_message i n limit raw (p ∷ p' ∷ ps) q (index, same, lt, h) =
      let open_part : (p.partindex == p.partcount) ≡ false = ground arith in
      serialize_part limit raw p (p' ∷ (ps ++ q)) open_part
      ∙ serialize_message (suc i) n limit (raw ++ pack a p) (p' ∷ ps) q h
      ∙ ap (λ x. serialize_outgoing_packets a x q limit)
          (append_assoc raw (pack a p) (stream a n (p' ∷ ps)))

  serialize_none : (raw : Bytes) (q : List Packet) → serialize_outgoing_packets a raw q 0 ≡ (raw, q)
  unfolding serialize_outgoing_packets
  serialize_none raw [] = refl
  serialize_none raw (p ∷ q) = refl

  -- A queue of whole messages is serialized message by message, no more than the limit, and the
  -- others stay: the buffer never ends inside of a message.
  pub serialize_outgoing_packets-flatten :
      (n limit : ℕ) (raw : Bytes) (ms : List (List Packet))
      → All (IsWhole 1) ms
      → serialize_outgoing_packets a raw (flatten ms) limit
        ≡ (raw ++ stream a n (flatten (take limit ms)), flatten (drop limit ms))
  serialize_outgoing_packets-flatten n zero raw ms whole =
      serialize_none raw (flatten ms) ∙ ap (λ x. (x, flatten ms)) (sym (append-nil raw))
  serialize_outgoing_packets-flatten n (suc limit) raw [] whole =
      serialize_nothing raw (suc limit) ∙ ap (λ x. (x, [])) (sym (append-nil raw))
  serialize_outgoing_packets-flatten n (suc limit) raw (ps ∷ ms) (whole, wholes) =
      serialize_message 1 n limit raw ps (flatten ms) whole
      ∙ serialize_outgoing_packets-flatten n limit (raw ++ stream a n ps) ms wholes
      ∙ ap (λ x. (x, flatten (drop limit ms)))
          (append_assoc raw (stream a n ps) (stream a n (flatten (take limit ms)))
            ∙ ap (◌++◌ raw) (sym (stream-append n ps (flatten (take limit ms)))))

-- All that was sent.
abbrev pub bytes_sent : List Event → Bytes
bytes_sent [] = []
bytes_sent (sent socket bytes ∷ es) = bytes ++ bytes_sent es
bytes_sent (other ∷ es) = bytes_sent es

is_nil-length : (xs : Bytes) → length xs ≤ 0 → is_nil xs ≡ true
is_nil-length [] le = refl
is_nil-length (x ∷ xs) le = absurd (omega arith)

module _ (packet_size : ℕ) (send : ℕ → Bytes → SendResult)
    (bounded : (i : ℕ) (bytes : Bytes) → (send i bytes).n ≤ length bytes)
    (progress : (i : ℕ) (bytes : Bytes) → (send i bytes).status ≡ good → 0 < (send i bytes).n) where
  abbrev pub Sending : Writer → Writer × List Event → Type 0
  Sending w s =
      (bytes_sent s.1 ++ s.0.raw ≡ w.raw)
      × (s.0 ≡ record w { can_write = s.0.can_write; raw = s.0.raw })

  waiting :
      (w : Writer)
      → (s : Writer × List Event) × ((if w.can_write
            then done (record w { can_write = false }, waits_for_write w.socket ∷ [])
            else done (w, []))
          ≡ done s)
        × Sending w s
  waiting w = elim (Bool-cases w.can_write) [
    | inl e ↦
        ((record w { can_write = false }, waits_for_write w.socket ∷ []), rw e refl, (refl, refl))
    | inr e ↦ ((w, []), rw e refl, (refl, refl))
  ]

  on_result_lem :
      (peerid : ℕ) (w : Writer) (status : SendStatus) (more : Outcome (Writer × List Event))
      → (status ≡ good → (s : Writer × List Event) × (more ≡ done s) × Sending w s)
      → (s : Writer × List Event) × (on_result peerid w status more ≡ done s) × Sending w s
  unfolding on_result
  on_result_lem peerid w failure more h = (_, refl, (refl, refl))
  on_result_lem peerid w network more h = (_, refl, (refl, refl))
  on_result_lem peerid w again more h = waiting w
  on_result_lem peerid w overflow more h = waiting w
  on_result_lem peerid w good more h = h refl

  -- Each round takes as many bytes as are reported.
  taken :
      (k n : ℕ) (raw : Bytes) → k ≤ length (take n raw) → take k (take n raw) ++ drop k raw ≡ raw
  taken k n raw le =
      let l : k ≤ n = omega (arith, length-take n raw) in
      rw (take-take k n raw l) (take-append-drop k raw)

  send_lem :
      (fuel i peerid : ℕ) (w : Writer)
      → length w.raw ≤ fuel
      → (s : Writer × List Event) × (send_outgoing_data packet_size send fuel i peerid w ≡ done s)
        × Sending w s
  unfolding send_outgoing_data
  send_lem zero i peerid w le =
      let nothing : is_nil w.raw ≡ true = is_nil-length w.raw (omega arith) in
      ((w, []), rw nothing refl, (refl, refl))
  send_lem (suc fuel) i peerid w le = elim (Bool-cases (is_nil w.raw)) [
    | inl nothing ↦ ((w, []), rw nothing refl, (refl, refl))
    | inr some_left ↦
        let bytes = take (min (packet_size * 10) (length w.raw)) w.raw in
        let k = (send i bytes).n in
        rw some_left (
          on_result_lem peerid w (send i bytes).status _ (λ is_good.
            let w' : Writer = record w { raw = drop k w.raw } in
            let le' : length w'.raw ≤ fuel =
              omega (arith, progress i bytes is_good, length-drop k w.raw) in
            let (s, run, (front, same)) = send_lem fuel (suc i) peerid w' le' in
            (
              (s.0, sent w.socket (take k bytes) ∷ s.1),
              rw run refl,
              (
                append_assoc (take k bytes) (bytes_sent s.1) s.0.raw
                    ∙ ap (◌++◌ (take k bytes)) front
                    ∙ taken k (min (packet_size * 10) (length w.raw)) w.raw (bounded i bytes),
                same,
              ),
            )))
  ]

  -- When `send` takes no more than it is given, and something whenever it reports success, the
  -- loop ends within as many rounds as there are bytes, whatever the answers: what was sent, in
  -- order, followed by what still waits, is what waited before, and nothing else of the writer
  -- changed but whether it can write.
  pub send_outgoing_data_lem :
      (peerid : ℕ) (w : Writer)
      → (s : Writer × List Event) × (send_outgoing_data packet_size send (length w.raw) 0 peerid w
          ≡ done s)
        × Sending w s
  send_outgoing_data_lem peerid w = send_lem (length w.raw) 0 peerid w (omega arith)
