-- ===== src/Meshnet/PriorityInput/Reassembly.antt =====
-- The frames that arrive are the frames that were sent, however the stream is cut into chunks.
use net_lib.Meshnet.PriorityFrame.{header_size}
use net_lib.Meshnet.PriorityFrame.RoundTrip.{encode}
use net_lib.Meshnet.PriorityInput.Frames.{
  Frame, FrameOk, stream_of, account, read_frame_wait, read_frame_nil, deliver, deliver_all,
  frame_loop_frame,
}
use net_lib.Meshnet.PriorityInput.{Deserializer, Account, new_account, frame_loop, process_chunk}
use net_lib.Prelude.{
  Bool, ℕ, zero, suc, ◌+◌, ◌≤◌, ◌<◌, ◌≡◌, refl, sym, ap, ◌∙◌, arith, List, [], ◌∷◌, ◌++◌, Option,
  some, length, drop, Bytes, Outcome, done, ◌>>=◌, >>=-eq-done, done-injective, All, append_assoc,
  append-nil, length-append, length-drop, length-drop, length-drop, append-eq-append_ge,
  append-eq-append_le, inl, inr, Bool-cases, leb, leb→le, leb→gt,
}

abbrev pub joined : List Bytes → Bytes
joined [] = []
joined (c ∷ cs) = c ++ joined cs

module _ {H P : Type 0} (des : Deserializer H P) (closes : List P → P → Bool) where
  abbrev pub Result : Type 0
  Result = List Bytes × List P

  -- No complete frame waits in the intermediate buffer.
  abbrev pub IsShort : Bytes → List Frame → Type 0
  IsShort tmp [] = Unit
  IsShort tmp ((p, payload) ∷ fs) = length tmp < header_size + length payload

  -- The account has read a part of a stream that ends in `final`; `todo` are the frames still to come,
  -- of which `tmp` is the beginning and `more` the bytes that have not arrived.
  pub record Awaits (final : Result) (acc : Account) (out : List P) (todo : List Frame)
      (more : Bytes) : Type 0 where
    pub frames_ok : All FrameOk todo
    pub bytes : acc.tmp ++ more ≡ stream_of todo
    pub result : deliver_all des closes acc.priority_buffers out todo ≡ done final

  pub frame_loop_lem :
      (fuel : ℕ) (final : Result) (todo : List Frame) (sid : ℕ) (buffers : List Bytes)
      (current : Option ℕ) (tmp more : Bytes) (out : List P)
      → length tmp < fuel
      → Awaits final (account sid buffers current tmp) out todo more
      → (acc : Account) × (o : List P) × (rest : List Frame) × (frame_loop des closes fuel
            (account sid buffers current tmp)
            out
          ≡ done (acc, o))
        × Awaits final acc o rest more
        × IsShort acc.tmp rest
  unfolding frame_loop
  frame_loop_lem zero final todo sid buffers current tmp more out lt w = absurd (omega arith)
  frame_loop_lem (suc fuel) final [] sid buffers current [] more out lt w =
      (account sid buffers current [], out, [], rw (read_frame_nil sid buffers current), w, tt)
  frame_loop_lem (suc fuel) final [] sid buffers current (x ∷ tmp) more out lt w =
      absurd (let e : x ∷ (tmp ++ more) ≡ [] = w.bytes in cc)
  frame_loop_lem (suc fuel) final ((p, payload) ∷ fs) sid buffers current tmp more out lt w =
      elim (Bool-cases (leb (header_size + length payload) (length tmp))) [
        | inl whole ↦
            let enough : 3 + length payload ≤ length tmp = leb→le _ _ whole in
            let (front, behind) =
              append-eq-append_ge tmp more (encode p payload) (stream_of fs) w.bytes
                (omega arith) in
            let tmp' = drop (length (encode p payload)) tmp in
            let (r, delivered, later) =
              >>=-eq-done (deliver des closes buffers out (p, payload)) _ w.result in
            let shorter : length tmp' < fuel =
              omega (arith, length-drop (length (encode p payload)) tmp) in
            let w' : Awaits final (account sid r.0 (some p) tmp') r.1 fs more = record {
              frames_ok = w.frames_ok.1;
              bytes = behind;
              result = later;
            } in
            let (acc, o, rest, loop, w'', s) =
              frame_loop_lem fuel final fs sid r.0 (some p) tmp' more r.1 shorter w' in
            (
              acc,
              o,
              rest,
              ap
                    (λ (t : Bytes).
                      frame_loop des closes (suc fuel) (account sid buffers current t) out)
                    front
                  ∙ frame_loop_frame des closes fuel sid p buffers current out payload tmp' r
                      w.frames_ok.0 delivered
                  ∙ loop,
              w'',
              s,
            )
        | inr part ↦
            let short : length tmp < 3 + length payload = leb→gt _ _ part in
            let begins =
              append-eq-append_le tmp more (encode p payload) (stream_of fs) w.bytes
                (omega arith) in
            (
              account sid buffers current tmp,
              out,
              (p, payload) ∷ fs,
              rw (
                  read_frame_wait (account sid buffers current tmp) p (length tmp) payload
                    w.frames_ok.0 begins short),
              w,
              short,
            )
      ]

  -- Chunks, one after another.
  unfoldable pub process_chunks : Account → List Bytes → List P → Outcome (Account × List P)
  process_chunks acc [] out = done (acc, out)
  process_chunks acc (chunk ∷ chunks) out = do
    r ← process_chunk des closes acc chunk out
    process_chunks r.0 chunks r.1

  process_chunk_lem :
      (final : Result) (acc : Account) (chunk more : Bytes) (out : List P) (todo : List Frame)
      → Awaits final acc out todo (chunk ++ more)
      → IsShort acc.tmp todo
      → (acc' : Account) × (o : List P) × (rest : List Frame) × (process_chunk des closes acc chunk
            out
          ≡ done (acc', o))
        × Awaits final acc' o rest more
        × IsShort acc'.tmp rest
  unfolding process_chunk
  process_chunk_lem final acc [] more out todo w s = (acc, out, todo, refl, w, s)
  process_chunk_lem final acc (c ∷ cs) more out todo w s =
      frame_loop_lem _ final todo acc.sid acc.priority_buffers acc.current_priority
        (acc.tmp ++ (c ∷ cs)) more out (omega arith)
        (record {
          frames_ok = w.frames_ok;
          bytes = append_assoc acc.tmp (c ∷ cs) more ∙ w.bytes;
          result = w.result;
        })

  -- At the end of the stream nothing is left over.
  finished :
      (final : Result) (acc : Account) (out : List P) (todo : List Frame)
      → Awaits final acc out todo []
      → IsShort acc.tmp todo
      → (acc.tmp ≡ []) × ((acc.priority_buffers, out) ≡ final)
  finished final acc out [] w s = (sym (append-nil acc.tmp) ∙ w.bytes, done-injective w.result)
  finished final acc out ((p, payload) ∷ fs) w s = absurd (
      omega (
        arith,
        s,
        ap length w.bytes,
        length-append acc.tmp [],
        length-append payload (stream_of fs),
      ))

  process_chunks_lem :
      (final : Result) (acc : Account) (chunks : List Bytes) (out : List P) (todo : List Frame)
      → Awaits final acc out todo (joined chunks)
      → IsShort acc.tmp todo
      → (acc' : Account) × (process_chunks acc chunks out ≡ done (acc', final.1))
        × (acc'.priority_buffers ≡ final.0)
        × (acc'.tmp ≡ [])
  unfolding process_chunks
  process_chunks_lem final acc [] out todo w s =
      let (t, e) = finished final acc out todo w s in
      (acc, ap (λ (r : Result). done (acc, r.1)) e, ap (λ (r : Result). r.0) e, t)
  process_chunks_lem final acc (c ∷ cs) out todo w s =
      let (acc1, o, rest, e, w', s') = process_chunk_lem final acc c (joined cs) out todo w s in
      let (acc2, f, b, t) = process_chunks_lem final acc1 cs o rest w' s' in
      (acc2, rw (e, ◌>>=◌) f, b, t)

  -- A new account whose chunks together are the stream of some frames, however the stream was
  -- cut, ends with the packets that the payloads give when each is added in turn to the buffer of
  -- its priority and the loop over packets runs over that buffer, with the same buffers, and with
  -- nothing left over; provided that the priorities are below 16, the payloads below 2 ^ 16
  -- bytes, and that these deliveries succeed: no packet is of an unknown type, none makes the
  -- node remove the account, and each priority has a buffer.
  pub reassembly :
      (n sid : ℕ) (frames : List Frame) (chunks : List Bytes) (final : Result)
      → All FrameOk frames
      → joined chunks ≡ stream_of frames
      → deliver_all des closes (new_account n sid).priority_buffers [] frames ≡ done final
      → (acc : Account) × (process_chunks (new_account n sid) chunks [] ≡ done (acc, final.1))
        × (acc.priority_buffers ≡ final.0)
        × (acc.tmp ≡ [])
  reassembly n sid frames chunks final ok e d =
      process_chunks_lem final (new_account n sid) chunks [] frames
        (record { frames_ok = ok; bytes = e; result = d }) (short frames)
    where
      short : (fs : List Frame) → IsShort [] fs
      short [] = tt
      short ((p, payload) ∷ fs) = omega arith
