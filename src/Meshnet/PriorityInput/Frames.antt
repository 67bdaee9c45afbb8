-- ===== src/Meshnet/PriorityInput/Frames.antt =====
-- Frames on the wire, and one round of the frame loop.
use net_lib.Meshnet.PriorityFrame.{header_size, payload_size, parse}
use net_lib.Meshnet.PriorityFrame.RoundTrip.{encode, priority-frame_of, parse_frame, parse_prefix}
use net_lib.Meshnet.PriorityInput.{
  Deserializer, read_packets, Account, buffer_at, inpb_ref, set_inpb, accept_frame, read_frame,
  read_buffer, frame_loop,
}
use net_lib.Prelude.{
  Bool, ℕ, suc, ◌+◌, ◌<◌, ◌^◌, ◌≡◌, refl, ap, arith, true, false, List, [], ◌∷◌, ◌++◌, Option, some,
  length, take, get_elem?, set, Bytes, Outcome, done, ◌>>=◌, >>=-eq-done, done-injective,
  drop-length-append, take-length-append, set-set, get_elem?-lt, get_elem?-set_self,
}

-- A priority and a payload.
abbrev pub Frame : Type 0
Frame = ℕ × Bytes

abbrev pub FrameOk : Frame → Type 0
FrameOk f = (f.0 < 16) × (length f.1 < 2 ^ 16)

-- The bytes on the wire.
abbrev pub stream_of : List Frame → Bytes
stream_of [] = []
stream_of ((p, payload) ∷ fs) = encode p payload ++ stream_of fs

abbrev pub account : ℕ → List Bytes → Option ℕ → Bytes → Account
account sid buffers current tmp = record {
  sid = sid;
  priority_buffers = buffers;
  current_priority = current;
  tmp = tmp;
}

-- A complete frame at the front of the intermediate buffer is read, and added to its buffer.
read_frame_lem :
    (sid p : ℕ) (buffers : List Bytes) (current : Option ℕ) (payload rest b : Bytes)
    → FrameOk (p, payload)
    → get_elem? buffers p ≡ some b
    → read_frame (account sid buffers current (encode p payload ++ rest))
      ≡ done (true, account sid (set buffers p (b ++ payload)) (some p) rest)
unfolding read_frame payload_size
read_frame_lem sid p buffers current payload rest b (h, l) g =
    let three : 3 + length payload ≡ suc (suc (suc (length payload))) = omega arith in
    rw (parse_frame p payload rest h l, accept_frame, priority-frame_of p payload h, inpb_ref, g)
      (rw (take-length-append payload rest, three, drop-length-append payload rest))

pub read_frame_nil :
    (sid : ℕ) (buffers : List Bytes) (current : Option ℕ)
    → read_frame (account sid buffers current []) ≡ done (false, account sid buffers current [])
unfolding read_frame parse
read_frame_nil sid buffers current = refl

-- An incomplete frame waits.
pub read_frame_wait :
    (acc : Account) (p k : ℕ) (payload : Bytes)
    → FrameOk (p, payload)
    → acc.tmp ≡ take k (encode p payload)
    → k < header_size + length payload
    → read_frame acc ≡ done (false, acc)
unfolding read_frame
read_frame_wait acc p k payload (h, l) e lt = simp (e, parse_prefix p k payload h l lt)

module _ {H P : Type 0} (des : Deserializer H P) (closes : List P → P → Bool) where
  -- What one frame does to the buffers and to the packets read so far.
  abbrev pub deliver : List Bytes → List P → Frame → Outcome (List Bytes × List P)
  deliver buffers out (p, payload) = do
    b ← buffer_at buffers p
    r ← read_packets des closes out (b ++ payload)
    done (set buffers p r.0, out ++ r.1)

  abbrev pub deliver_all : List Bytes → List P → List Frame → Outcome (List Bytes × List P)
  deliver_all buffers out [] = done (buffers, out)
  deliver_all buffers out (f ∷ fs) = deliver buffers out f >>= λ r. deliver_all r.0 r.1 fs

  buffer_at-done :
      (buffers : List Bytes) (p : ℕ) {b : Bytes}
      → buffer_at buffers p ≡ done b
      → get_elem? buffers p ≡ some b
  buffer_at-done buffers p e = ground arith

  read_buffer_lem :
      (sid p : ℕ) (buffers : List Bytes) (rest b : Bytes) (out : List P) (q : Bytes × List P)
      → get_elem? buffers p ≡ some b
      → read_packets des closes out b ≡ done q
      → read_buffer des closes (account sid buffers (some p) rest) out
        ≡ done (account sid (set buffers p q.0) (some p) rest, out ++ q.1)
  unfolding read_buffer inpb_ref set_inpb
  read_buffer_lem sid p buffers rest b out q g e = rw (read_buffer, inpb_ref, g, e)

  -- One round of the loop over a complete frame delivers it.
  pub frame_loop_frame :
      (fuel sid p : ℕ) (buffers : List Bytes) (current : Option ℕ) (out : List P)
      (payload rest : Bytes) (r : List Bytes × List P)
      → FrameOk (p, payload)
      → deliver buffers out (p, payload) ≡ done r
      → frame_loop des closes
          (suc fuel)
          (account sid buffers current (encode p payload ++ rest))
          out
        ≡ frame_loop des closes fuel (account sid r.0 (some p) rest) r.1
  unfolding frame_loop
  frame_loop_frame fuel sid p buffers current out payload rest r ok d =
      let (b, fb, fr) = >>=-eq-done (buffer_at buffers p) _ d in
      let (q, fq, fd) = >>=-eq-done (read_packets des closes out (b ++ payload)) _ fr in
      let g = buffer_at-done buffers p fb in
      let stored = get_elem?-set_self buffers p (b ++ payload) (get_elem?-lt buffers p g) in
      rw
        (
          read_frame_lem sid p buffers current payload rest b ok g,
          read_buffer_lem sid p _ rest (b ++ payload) out q stored fq,
          set-set buffers p (b ++ payload) q.0,
        )
        (ap
          (λ (x : List Bytes × List P).
            frame_loop des closes fuel (account sid x.0 (some p) rest) x.1)
          (done-injective fd))
