-- ===== src/Meshnet/PriorityQueue/Messages.antt =====
-- One message of the highest priority in a new queue, from `enqueue` to the last `shift`.
use net_lib.Meshnet.PriorityFrame.{header_size}
use net_lib.Meshnet.PriorityFrame.RoundTrip.{encode}
use net_lib.Meshnet.PriorityQueue.Frame.{frame_lem}
use net_lib.Meshnet.PriorityQueue.Shift.{shift_loses_queue}
use net_lib.Meshnet.PriorityQueue.{
  Queue, PriorityQueue, fresh_queue, fresh, reset_phase, enqueue, frame, u64_mod, after_shift,
  shift,
}
use net_lib.Prelude.{
  ℕ, zero, suc, ◌+◌, ◌-◌, ◌*◌, ◌%◌, ◌^◌, ◌≤◌, ◌<◌, ◌≡◌, refl, ap, ◌∙◌, true, false, arith, List, [],
  ◌∷◌, ltb, leb, ◌==◌, length, map, Bytes, Outcome, done, fails, ◌>>=◌, undefined, take_all,
}

-- The queue while the message `b` is being sent: `sent` bytes are gone, `left` frames are left in
-- the phase of priority 0.
abbrev sending : ℕ → List Queue → Bytes → ℕ → ℕ → PriorityQueue
sending limit rest b sent left = record {
  qp =
      record { q = record { b = b; cursor = sent } ∷ []; frame_limit = limit; frame_counter = left }
      ∷ rest;
  priority_cursor = 0;
  total_size = length b - sent;
}

enqueue_first :
    (l : ℕ) (ls : List ℕ) (b : Bytes)
    → 0 < length b
    → length b < u64_mod
    → enqueue (fresh (l ∷ ls)) 0 b ≡ done (sending l (map fresh_queue ls) b 0 l)
unfolding enqueue
enqueue_first l ls [] pos fits = absurd (omega arith)
enqueue_first l ls (x ∷ xs) pos fits =
    let size : (0 + length (x ∷ xs)) % u64_mod ≡ length (x ∷ xs) - 0 = omega arith in rw size

reset_fresh : (ls : List ℕ) → reset_phase (map fresh_queue ls) ≡ map fresh_queue ls
unfolding reset_phase
reset_fresh [] = refl
reset_fresh (l ∷ ls) = ap (◌∷◌ (fresh_queue l)) (reset_fresh ls)

-- A message that is not empty and fits with its header in a frame of 16 bits, queued with the
-- highest priority in a new queue, is framed whole, and when the frame is written the queue is as
-- new.
pub one_frame_message :
    (l frame_size : ℕ) (ls : List ℕ) (b : Bytes)
    → 0 < length b
    → length b + header_size ≤ frame_size
    → frame_size < 2 ^ 16
    → (w : PriorityQueue) × (enqueue (fresh (l ∷ ls)) 0 b ≡ done w)
      × (frame w frame_size ≡ done (encode 0 b))
      × (shift w (length (encode 0 b)) ≡ done (fresh (l ∷ ls)))
unfolding shift after_shift reset_phase
one_frame_message l k ls b pos fits lt =
    (sending l (map fresh_queue ls) b 0 l, enqueue_first l ls b pos (omega arith), framed, shifted)
  where
    w : PriorityQueue
    w = sending l (map fresh_queue ls) b 0 l

    framed : frame w k ≡ done (encode 0 b)
    framed =
        frame_lem w k _ (record { b = b; cursor = 0 }) [] (λ e. omega arith) refl refl (omega arith)
          (omega arith) (omega arith)
        ∙ ap (λ (t : Bytes). done (encode 0 t)) (take_all _ b (omega arith))

    n : (length (encode 0 b) + u64_mod - header_size) % u64_mod ≡ length b
    n = omega arith

    shifted : shift w (length (encode 0 b)) ≡ done (fresh (l ∷ ls))
    shifted = ground (arith, n, reset_fresh ls)

-- A frame that leaves something of the message, in a phase that goes on.
shift_within :
    (l k sent left : ℕ) (rest : List Queue) (b : Bytes)
    → sent + k < length b
    → length b < u64_mod
    → shift (sending l rest b sent (suc (suc left))) (k + header_size)
      ≡ done (sending l rest b (sent + k) (suc left))
unfolding shift after_shift
shift_within l k sent left rest b h fits =
    let n : (k + header_size + u64_mod - header_size) % u64_mod ≡ k = omega arith in
    let part : leb (length b) (sent + k) ≡ false = ground arith in
    let total : (length b - sent + u64_mod - k) % u64_mod ≡ length b - (sent + k) = omega arith in
    let counter : suc (suc left) - 1 ≡ suc left = omega arith in
    let busy : ltb 0 (suc left) ≡ true = ground arith in rw (n, part, total, counter, busy) refl

unfoldable pub shift_times : ℕ → ℕ → PriorityQueue → Outcome PriorityQueue
shift_times zero frame_size w = done w
shift_times (suc n) frame_size w = shift w frame_size >>= λ w'. shift_times n frame_size w'

-- A phase of priority 0 that its message outlives: the message is lost, and the next frame is read
-- from an empty queue.
shift_phase :
    (l1 left l k sent fs : ℕ) (ls : List ℕ) (b : Bytes)
    → 0 < l1
    → sent + suc left * k < length b
    → k + header_size < u64_mod
    → length b < u64_mod
    → (w : PriorityQueue) × (shift_times
          (suc left)
          (k + header_size)
          (sending l (map fresh_queue (l1 ∷ ls)) b sent (suc left))
        ≡ done w)
      × (frame w fs ≡ fails undefined)
unfolding shift_times frame
shift_phase l1 zero l k sent fs ls b pos h kk fits =
    let total = (length b - sent + u64_mod - (k + header_size - header_size)) % u64_mod in
    let some_left : (total == 0) ≡ false = ground arith in
    (
      record {
        qp = fresh_queue l1 ∷ fresh_queue l1 ∷ map fresh_queue ls;
        priority_cursor = 0 + 1;
        total_size = total;
      },
      rw
          (shift_loses_queue (sending l (map fresh_queue (l1 ∷ ls)) b sent 1) (k + header_size) _
            (fresh_queue l1) (record { b = b; cursor = sent }) [] (omega arith) kk refl refl refl
            refl (λ e. omega arith) (λ e. omega arith))
          refl,
      rw some_left refl,
    )
shift_phase l1 (suc left) l k sent fs ls b pos h kk fits =
    let (w, e, f) = shift_phase l1 left l k (sent + k) fs ls b pos (omega arith) kk fits in
    (w, rw (shift_within l k sent left (map fresh_queue (l1 ∷ ls)) b (omega arith) fits) e, f)

-- A message of priority 0 below 2 ^ 64 bytes that does not fit in the frames of its phase, queued
-- in a new queue with two priorities at least, the limits of the first two positive, and written
-- in full frames below 2 ^ 64 bytes, is lost: after the phase the next frame is read from an
-- empty queue.
pub long_message_lost :
    (l l1 k frame_size : ℕ) (ls : List ℕ) (b : Bytes)
    → 0 < l
    → 0 < l1
    → l * k < length b
    → k + header_size < u64_mod
    → length b < u64_mod
    → (w : PriorityQueue) × (w' : PriorityQueue) × (enqueue (fresh (l ∷ l1 ∷ ls)) 0 b ≡ done w)
      × (shift_times l (k + header_size) w ≡ done w')
      × (frame w' frame_size ≡ fails undefined)
long_message_lost zero l1 k fs ls b lp l1p h kk fits = absurd (omega arith)
long_message_lost (suc l) l1 k fs ls b lp l1p h kk fits =
    let (w', e, f) = shift_phase l1 l (suc l) k 0 fs ls b l1p (omega arith) kk fits in
    (
      sending (suc l) (map fresh_queue (l1 ∷ ls)) b 0 (suc l),
      w',
      enqueue_first (suc l) (l1 ∷ ls) b (omega arith) fits,
      e,
      f,
    )
