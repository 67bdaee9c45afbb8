-- ===== src/P2p/Delivery/Input/Chunks.antt =====
-- However the stream is cut into reads, and the reads into calls, the same is delivered.
use net_lib.P2p.Delivery.{
  Engine, Event, Reader, locate_reader, has_reader, check_complete_channel, record_events,
  reader_ready,
}
use net_lib.P2p.Delivery.Input.{
  Recv, failed, got, receive, type_of, deliver, complete, process_raw, process_reader_input,
  set_reader,
}
use net_lib.P2p.Delivery.Input.Stream.{
  stream, IsInput, appended, accepted, feed, feed-append, process_raw_lem,
}
use net_lib.P2p.Packet.{
  PacketType, Packet, header_size, regular, hello, file_credentials, file_request, file_stop,
  file_begin, file_chunk, file_end, file_state,
}
use net_lib.P2p.Serializer.{Archive, pack}
use net_lib.P2p.Serializer.RoundTrip.{length-pack}
use net_lib.Prelude.Dict.{find}
use net_lib.Prelude.OrderedMap.{put, find-put, put-put}
use net_lib.Prelude.{
  ℕ, ◌^◌, ◌≤◌, ◌<◌, ◌≡◌, ◌≢◌, refl, sym, ap, ◌∙◌, arith, List, [], ◌∷◌, ◌++◌, append_assoc,
  append-nil, true, false, some, ltb, leb, leb→le, leb→gt, ◌==◌, ==_self, Bool-cases, Option-cases,
  inl, inr, length, length-append, drop, Bytes, All, Outcome, done, ◌>>=◌, append-eq-append_ge,
}

-- Neither a failure nor the end of what the socket has.
abbrev pub Whole : ℕ → List Recv → Type 0
Whole packet_size rs = (receive packet_size [] rs).1 ≡ true

abbrev pub bytes_read : ℕ → List Recv → Bytes
bytes_read packet_size rs = (receive packet_size [] rs).0

-- The calls one after the other, and all that they read.
unfoldable pub process_inputs : Archive → ℕ → Engine → ℕ → List (List Recv) → Outcome Engine
process_inputs a packet_size e socket [] = done e
process_inputs a packet_size e socket (rs ∷ calls) = do
  e' ← process_reader_input a packet_size e socket rs
  process_inputs a packet_size e' socket calls

abbrev pub all_bytes : ℕ → List (List Recv) → Bytes
all_bytes packet_size [] = []
all_bytes packet_size (rs ∷ calls) = bytes_read packet_size rs ++ all_bytes packet_size calls

-- The reader on a socket has taken what `s` says and nothing is left over; all else is untouched.
abbrev pub Taken : Engine → Engine → ℕ → Reader × List Event → Type 0
Taken e e' socket s =
    (find socket e'.readers ≡ some (record s.0 { raw = [] }))
    × (e'.log ≡ e.log ++ s.1)
    × (e'.writers ≡ e.writers)
    × (e'.expired_peers ≡ e.expired_peers)
    × ((other : ℕ) → other ≢ socket → find other e'.readers ≡ find other e.readers)

receive_raw :
    (n : ℕ) (raw acc : Bytes) (rs : List Recv)
    → (receive n acc rs).1 ≡ true
    → receive n (raw ++ acc) rs ≡ (raw ++ (receive n acc rs).0, true)
unfolding receive
receive_raw n raw acc [] ok = refl
receive_raw n raw acc (failed ∷ rs) ok = absurd (let e : false ≡ true = ok in cc)
receive_raw n raw acc (got bytes ∷ rs) ok = elim (Bool-cases (ltb (length bytes) n)) [
  | inl short ↦ rw short (ap (λ x. (x, true)) (append_assoc raw acc bytes))
  | inr more ↦
      rw more
        (rw (append_assoc raw acc bytes) (receive_raw n raw (acc ++ bytes) rs (rw more at ok)))
]

has_reader-put :
    (peerid s : ℕ) (r : Reader) (x : Bytes) (m : List (ℕ × Reader))
    → has_reader peerid (put s (record r { raw = x }) m) ≡ has_reader peerid (put s r m)
unfolding locate_reader put
has_reader-put peerid s r x [] = elim (Bool-cases (r.peerid == peerid)) [
  | inl e ↦ rw e refl
  | inr e ↦ rw e refl
]
has_reader-put peerid s r x ((j, w) ∷ m) =
    let ih = has_reader-put peerid s r x m in
    elim (Bool-cases (ltb s j)) [
      | inl before ↦
          rw before
            (elim (Bool-cases (r.peerid == peerid)) [ inl e ↦ rw e refl | inr e ↦ rw e refl ])
      | inr behind ↦ rw behind (elim (Bool-cases (j == s)) [
        | inl here ↦
            rw here
              (elim (Bool-cases (r.peerid == peerid)) [ inl e ↦ rw e refl | inr e ↦ rw e refl ])
        | inr later ↦
            rw later
              (elim (Bool-cases (w.peerid == peerid)) [ inl e ↦ rw e refl | inr e ↦ rw e ih ])
      ])
    ]

module _ (a : Archive) (packet_size : ℕ) where
  -- The bytes that a reader has not taken, and what it had when a call began, do not matter.
  module _ (e : Engine) (socket : ℕ) (r0 : Reader) (log : List Event) (x : Bytes) where
    later : Engine
    later = record_events (set_reader e socket r0) log

    deliver-later :
        (r : Reader) (t : PacketType) (from : ℕ)
        → deliver a packet_size later socket (record r { raw = x }) t from ≡ (
          record (deliver a packet_size e socket r t from).0 { raw = x },
          (deliver a packet_size e socket r t from).1,
        )
    unfolding deliver later record_events check_complete_channel
    deliver-later r regular from = refl
    deliver-later r hello from =
        let r' : Reader = record r { peerid = from } in
        ap (λ es. (record r' { raw = x }, reader_ready from ∷ es))
          (rw
            (
              put-put socket (record r' { raw = x }) r0 e.readers,
              has_reader-put from socket r' x e.readers,
            )
            refl)
    deliver-later r file_credentials from = refl
    deliver-later r file_request from = refl
    deliver-later r file_stop from = refl
    deliver-later r file_begin from = refl
    deliver-later r file_chunk from = refl
    deliver-later r file_end from = refl
    deliver-later r file_state from = refl

    accepted-later :
        (r : Reader) (p : Packet)
        → accepted a packet_size later socket (record r { raw = x }) p ≡ (
          record (accepted a packet_size e socket r p).0 { raw = x },
          (accepted a packet_size e socket r p).1,
        )
    unfolding complete
    accepted-later r p = elim (Bool-cases (p.partindex == p.partcount)) [
      | inr part ↦ rw part refl
      | inl whole ↦ elim (Option-cases (type_of p.packettype)) [
        | inl unknown ↦ rw (whole, complete, unknown) refl
        | inr (t, known) ↦
            rw (whole, complete, known) (deliver-later (appended a packet_size r p) t p.addresser)
      ]
    ]

    feed-later :
        (r : Reader) (ps : List Packet)
        → feed a packet_size later socket (record r { raw = x }) ps ≡ (
          record (feed a packet_size e socket r ps).0 { raw = x },
          (feed a packet_size e socket r ps).1,
        )
    feed-later r [] = refl
    feed-later r (p ∷ ps) =
        let s = accepted a packet_size e socket r p in
        rw (accepted-later r p, feed-later s.0 ps) refl

  module _ (large : header_size < packet_size) (small : packet_size < 2 ^ 16) where
    abbrev Cut : Bytes → Bytes → List Packet → Type 0
    Cut raw more ps =
        (qs ws : List Packet) × (tail : Bytes) × (ps ≡ qs ++ ws)
        × (raw ≡ stream a packet_size qs ++ tail)
        × (length tail < packet_size)
        × (tail ++ more ≡ stream a packet_size ws)
        × All (IsInput a packet_size) qs
        × All (IsInput a packet_size) ws

    -- What arrived of a stream is some packets of it and less than a packet.
    cut :
        (ps : List Packet) (raw more : Bytes)
        → All (IsInput a packet_size) ps
        → raw ++ more ≡ stream a packet_size ps
        → Cut raw more ps
    cut [] [] more ok e = ([], [], [], refl, refl, omega arith, e, tt, tt)
    cut [] (c ∷ raw) more ok e = cc
    cut (p ∷ ps) raw more (ok, oks) e =
        let size = length-pack a packet_size (omega arith) small p ok.packed in
        elim (Bool-cases (leb packet_size (length raw))) [
          | inr short ↦ ([], p ∷ ps, raw, refl, refl, leb→gt _ _ short, e, tt, (ok, oks))
          | inl whole ↦
              let le : packet_size ≤ length raw = leb→le _ _ whole in
              let (front, behind) =
                append-eq-append_ge raw more (pack a p) (stream a packet_size ps) e (omega arith) in
              let (qs, ws, tail, f, g, short, h, okq, okw) =
                cut ps (drop (length (pack a p)) raw) more oks behind in
              (
                p ∷ qs,
                ws,
                tail,
                ap (◌∷◌ p) f,
                front
                    ∙ ap (◌++◌ (pack a p)) g
                    ∙ sym (append_assoc (pack a p) (stream a packet_size qs) tail),
                short,
                h,
                (ok, okq),
                okw,
              )
        ]

    call_lem :
        (e : Engine) (socket : ℕ) (r : Reader) (rs : List Recv) (qs : List Packet) (tail : Bytes)
        → find socket e.readers ≡ some r
        → Whole packet_size rs
        → r.raw ++ bytes_read packet_size rs ≡ stream a packet_size qs ++ tail
        → All (IsInput a packet_size) qs
        → length tail < packet_size
        → process_reader_input a packet_size e socket rs
          ≡ done (
              later e socket
                (record (feed a packet_size e socket r qs).0 { raw = tail })
                (feed a packet_size e socket r qs).1
                tail)
    unfolding process_reader_input later
    call_lem e socket r rs qs tail there whole bytes ok short =
        let got_all : receive packet_size r.raw rs ≡ (r.raw ++ bytes_read packet_size rs, true) =
          rw (append-nil r.raw) at (receive_raw packet_size r.raw [] rs whole) in
        let run : process_raw a packet_size e socket r (r.raw ++ bytes_read packet_size rs)
            ≡ done
                ((feed a packet_size e socket r qs).0, (feed a packet_size e socket r qs).1, tail) =
          ap (process_raw a packet_size e socket r) bytes
          ∙ process_raw_lem a packet_size e socket large small r qs tail ok short in
        rw (process_reader_input, there) (rw got_all (rw run refl))

    Taken-later :
        (e e' : Engine) (socket : ℕ) (r : Reader) (qs ws ps : List Packet) (tail : Bytes)
        → ps ≡ qs ++ ws
        → let s = feed a packet_size e socket r qs in
          let r1 : Reader = record s.0 { raw = tail } in
          let e1 = later e socket r1 s.1 tail in
          Taken e1 e' socket (feed a packet_size e1 socket r1 ws)
          → Taken e e' socket (feed a packet_size e socket r ps)
    unfolding later record_events
    Taken-later e e' socket r qs ws ps tail split (there, log, writers, expired, others) =
        let s = feed a packet_size e socket r qs in
        let r1 : Reader = record s.0 { raw = tail } in
        let f = feed-later e socket r1 s.1 tail s.0 ws in
        rw (split, feed-append a packet_size e socket r qs ws)
          (
            there ∙ ap (λ x. some (record x.0 { raw = [] })) f,
            log ∙ append_assoc e.log s.1 _ ∙ ap (λ x. e.log ++ (s.1 ++ x.1)) f,
            writers,
            expired,
            λ other ne.
                others other ne
                ∙ find-put socket other r1 e.readers
                ∙ (let apart : (socket == other) ≡ false = ground arith in rw apart refl),
          )

    -- For a packet size that leaves some payload: when what a reader has not taken yet is less than a
    -- packet, and with the bytes of some calls it is the packets of a stream, then these calls
    -- succeed, however the stream was cut into calls and reads. The reader has taken the packets one
    -- after the other, nothing is left over, their messages are reported in order, and the other
    -- readers, the writers and the peers to expire are untouched.
    pub process_inputs_lem :
        (e : Engine) (socket : ℕ) (r : Reader) (calls : List (List Recv)) (ps : List Packet)
        → find socket e.readers ≡ some r
        → length r.raw < packet_size
        → All (Whole packet_size) calls
        → All (IsInput a packet_size) ps
        → r.raw ++ all_bytes packet_size calls ≡ stream a packet_size ps
        → (e' : Engine) × (process_inputs a packet_size e socket calls ≡ done e')
          × Taken e e' socket (feed a packet_size e socket r ps)
    unfolding process_inputs later record_events
    process_inputs_lem e socket r [] [] there short whole ok bytes =
        let nothing : r.raw ≡ [] = rw (append-nil r.raw) at bytes in
        (
          e,
          refl,
          (
            there ∙ ap (λ x. some (record r { raw = x })) nothing,
            sym (append-nil e.log),
            refl,
            refl,
            λ other ne. refl,
          ),
        )
    process_inputs_lem e socket r [] (p ∷ ps) there short whole (ok, oks) bytes = absurd (
        omega (
          arith,
          ap length bytes,
          length-append r.raw [],
          length-append (pack a p) (stream a packet_size ps),
          length-pack a packet_size (omega arith) small p ok.packed,
        ))
    process_inputs_lem e socket r (rs ∷ calls) ps there short (whole, wholes) ok bytes =
        let (qs, ws, tail, split, front, less, behind, okq, okw) =
          cut ps (r.raw ++ bytes_read packet_size rs) (all_bytes packet_size calls) ok (
            append_assoc r.raw (bytes_read packet_size rs) (all_bytes packet_size calls) ∙ bytes) in
        let s = feed a packet_size e socket r qs in
        let r1 : Reader = record s.0 { raw = tail } in
        let e1 = later e socket r1 s.1 tail in
        let first = call_lem e socket r rs qs tail there whole front okq less in
        let here : find socket e1.readers ≡ some r1 =
          find-put socket socket r1 e.readers ∙ rw (==_self socket) refl in
        let (e', run, t) = process_inputs_lem e1 socket r1 calls ws here less wholes okw behind in
        (e', rw first run, Taken-later e e' socket r qs ws ps tail split t)
