-- ===== src/Meshnet/Handshake/Exchange.antt =====
-- A handshake between two nodes, over one connection and over two.
use net_lib.Meshnet.Handshake.{
  HandshakePacket, unusable, reader, writer, request, response, Event, sent, completed, Handshake,
  cancel, handshake_ready, packet, send, remember, start, process_valid, process, timeout,
}
use net_lib.Prelude.Dict.{find, insert, erase, find-insert, find-erase}
use net_lib.Prelude.{
  ℕ, ◌+◌, ◌<◌, ◌≤◌, ◌≡◌, refl, ap, ◌∙◌, arith, Bool, true, false, List, [], ◌∷◌, ◌++◌, append_assoc,
  append-nil, Option, none, some, ltb, ==_self, if◌then◌else◌, Bytes, inl, inr, Bool-cases,
}

-- A socket that serves in both directions.
abbrev pub both_ways : ℕ → ℕ → List Event
both_ways id sid = completed id sid reader ∷ completed id sid writer ∷ []

-- What the two ends of a connection come to: the identifiers of the node and of its peer, the socket,
-- and whether the peer is behind NAT.
abbrev pub initiator_result : ℕ → ℕ → ℕ → Bool → List Event
initiator_result me peer sid nat =
    if nat
    then both_ways peer sid
    else if ltb me peer
    then both_ways peer sid
    else completed peer sid unusable ∷ []

abbrev pub responder_result : ℕ → ℕ → ℕ → Bool → List Event
responder_result me peer sid nat =
    if nat then both_ways peer sid else if ltb peer me then both_ways peer sid else []

ready_response :
    (h : Handshake) (sid id : ℕ) (nat : Bool)
    → handshake_ready h sid id true nat
      ≡ record h { log = h.log ++ initiator_result h.node_id id sid nat }
unfolding handshake_ready
ready_response h sid id true = refl
ready_response h sid id false = elim (Bool-cases (ltb h.node_id id)) [
  | inl e ↦ rw e refl
  | inr e ↦ rw e refl
]

ready_request :
    (h : Handshake) (sid id : ℕ) (nat : Bool)
    → handshake_ready h sid id false nat
      ≡ record h { log = h.log ++ responder_result h.node_id id sid nat }
unfolding handshake_ready
ready_request h sid id true = refl
ready_request h sid id false = elim (Bool-cases (ltb id h.node_id)) [
  | inl e ↦ rw e refl
  | inr e ↦ rw (e, append-nil h.log) refl
]

module _ (stringify : ℕ → Bytes) (parse : Bytes → Option ℕ) where
  -- `a` connects to `b`: socket `s` at the one and `t` at the other. The ends after the request and
  -- the response arrived.
  unfoldable pub exchange : Handshake → Handshake → (now later s t : ℕ) → Handshake × Handshake
  exchange a b now later s t = (
    process stringify parse (start stringify parse a now s) later s
        (packet stringify parse b response),
    process stringify parse b now t (packet stringify parse a request),
  )

module _ (stringify : ℕ → Bytes) (parse : Bytes → Option ℕ)
    (round_trip : (id : ℕ) → parse (stringify id) ≡ some id) where
  -- A response on a socket where this node is the initiator.
  process_response :
      (h b : Handshake) (now sid t : ℕ)
      → find sid h.cache ≡ some t
      → process stringify parse h now sid (packet stringify parse b response) ≡ record h {
        cache = erase sid h.cache;
        log = h.log ++ initiator_result h.node_id b.node_id sid b.behind_nat;
      }
  unfolding process process_valid packet cancel
  process_response h b now sid t e =
      rw
        (
          process,
          round_trip b.node_id,
          process_valid,
          e,
          ready_response (cancel h sid) sid b.node_id b.behind_nat,
        )
        refl

  -- A request on a socket where it is not.
  process_request :
      (h a : Handshake) (now sid : ℕ)
      → find sid h.cache ≡ none
      → process stringify parse h now sid (packet stringify parse a request) ≡ record h {
        log =
            h.log
            ++ (sent sid (packet stringify parse h response)
                ∷ responder_result h.node_id a.node_id sid a.behind_nat);
      }
  unfolding process process_valid packet send remember
  process_request h a now sid e =
      rw (process, round_trip a.node_id, process_valid, e)
        (ready_request (send stringify parse h now sid response) sid a.node_id a.behind_nat
          ∙ ap (λ l. record h { log = l }) (append_assoc h.log _ _))

  start_cache :
      (a : Handshake) (now s : ℕ)
      → find s (start stringify parse a now s).cache ≡ some (now + timeout)
  unfolding start send remember
  start_cache a now s = find-insert s s (now + timeout) a.cache ∙ rw (==_self s) refl

  -- After a request and its response over one connection, fresh at the responder, with
  -- identifiers that are read back from their text: each end uses the socket both ways if its
  -- peer is behind NAT or the initiator has the smaller identifier; otherwise the initiator
  -- reports it as unusable and the responder reports nothing. The initiator waits on the socket
  -- no more and the responder never did.
  pub exchange_lem :
      (a b : Handshake) (now later s t : ℕ)
      → find t b.cache ≡ none
      → let r = exchange stringify parse a b now later s t in
        (r.0.log
          ≡ a.log
            ++ (sent s (packet stringify parse a request)
                ∷ initiator_result a.node_id b.node_id s b.behind_nat))
        × (r.1.log
            ≡ b.log
              ++ (sent t (packet stringify parse b response)
                  ∷ responder_result b.node_id a.node_id t a.behind_nat))
        × (find s r.0.cache ≡ none)
        × (r.1.cache ≡ b.cache)
  unfolding exchange start send remember
  exchange_lem a b now later s t e =
      let f =
        process_response (start stringify parse a now s) b later s (now + timeout)
          (start_cache a now s) in
      let g = process_request b a now t e in
      (
        ap (λ (h : Handshake). h.log) f ∙ append_assoc a.log _ _,
        ap (λ (h : Handshake). h.log) g,
        ap (λ (h : Handshake). find s h.cache) f ∙ (find-erase s s _ ∙ rw (==_self s) refl),
        ap (λ (h : Handshake). h.cache) g,
      )

  exchange_ids :
      (a b : Handshake) (now later s t : ℕ)
      → find t b.cache ≡ none
      → let r = exchange stringify parse a b now later s t in
        (r.0 ≡ record a {
          cache = erase s (insert s (now + timeout) a.cache);
          log =
              (a.log ++ (sent s (packet stringify parse a request) ∷ []))
              ++ initiator_result a.node_id b.node_id s b.behind_nat;
        })
        × (r.1 ≡ record b {
          log =
              b.log
              ++ (sent t (packet stringify parse b response)
                  ∷ responder_result b.node_id a.node_id t a.behind_nat);
        })
  unfolding exchange start send remember
  exchange_ids a b now later s t e = (
    process_response (start stringify parse a now s) b later s (now + timeout)
        (start_cache a now s),
    process_request b a now t e,
  )

  -- When two nodes, neither behind NAT, connect to each other both ways on fresh sockets, and
  -- every identifier is read back from its text, both ends settle on the connection of the node
  -- with the smaller identifier, as reader and writer; on the other one the initiator reports the
  -- socket as unusable and the responder reports nothing.
  pub exclusive_lem :
      (a b : Handshake) (n1 n2 n3 n4 s t u v : ℕ)
      → a.behind_nat ≡ false
      → b.behind_nat ≡ false
      → a.node_id < b.node_id
      → find t b.cache ≡ none
      → find v a.cache ≡ none
      → let r = exchange stringify parse a b n1 n2 s t in
        let q = exchange stringify parse r.1 r.0 n3 n4 u v in
        (q.1.log
          ≡ (a.log ++ (sent s (packet stringify parse a request) ∷ both_ways b.node_id s))
            ++ (sent v (packet stringify parse a response) ∷ []))
        × (q.0.log
            ≡ (b.log ++ (sent t (packet stringify parse b response) ∷ both_ways a.node_id t))
              ++ (sent u (packet stringify parse b request) ∷ completed a.node_id u unusable ∷ []))
  unfolding packet
  exclusive_lem a b n1 n2 n3 n4 s t u v na nb lt e f =
      let (x, y) = exchange_ids a b n1 n2 s t e in
      let less : ltb a.node_id b.node_id ≡ true = ground arith in
      let more : ltb b.node_id a.node_id ≡ false = ground arith in
      let r = exchange stringify parse a b n1 n2 s t in
      let free : find v r.0.cache ≡ none = rw x (
        ground (
          arith,
          find-erase s v (insert s (n1 + timeout) a.cache),
          find-insert s v (n1 + timeout) a.cache,
        )) in
      let (l, m, _, _) = exchange_lem r.1 r.0 n3 n4 u v free in
      let answer : HandshakePacket = record {
        id = stringify a.node_id;
        is_response = true;
        is_behind_nat = false;
      } in
      (
        m
            ∙ rw (x, y, na, nb, less, more)
                (ap (λ (z : List Event). z ++ (sent v answer ∷ [])) (append_assoc a.log _ _)),
        l ∙ rw (x, y, na, nb, less, more) refl,
      )

  -- When a node behind NAT connects, on a socket fresh at the responder and with identifiers that
  -- are read back, to a node that is not and has no greater identifier, the ends disagree: the
  -- responder uses the socket both ways and the initiator reports it as unusable.
  pub nat_initiator_lem :
      (a b : Handshake) (now later s t : ℕ)
      → find t b.cache ≡ none
      → a.behind_nat ≡ true
      → b.behind_nat ≡ false
      → b.node_id ≤ a.node_id
      → let r = exchange stringify parse a b now later s t in
        (r.0.log
          ≡ a.log
            ++ (sent s (packet stringify parse a request) ∷ completed b.node_id s unusable ∷ []))
        × (r.1.log ≡ b.log ++ (sent t (packet stringify parse b response) ∷ both_ways a.node_id t))
  nat_initiator_lem a b now later s t e na nb le =
      let (l, m, _, _) = exchange_lem a b now later s t e in
      let more : ltb a.node_id b.node_id ≡ false = ground arith in
      (l ∙ rw (nb, more) refl, m ∙ rw na refl)
