-- ===== src/Meshnet/PriorityQueue/Frame.antt =====
-- What `frame` hands to the socket.
use net_lib.Meshnet.PriorityFrame.{header_size, size_field, serialize}
use net_lib.Meshnet.PriorityFrame.RoundTrip.{encode, serialize_lem}
use net_lib.Meshnet.PriorityQueue.{
  Queue, PriorityQueue, fresh_queue, fresh, push, queue_at, enqueue, frame, u64_mod,
}
use net_lib.Net.WriterQueue.{Elem}
use net_lib.Prelude.{
  ℕ, zero, suc, ◌+◌, ◌-◌, ◌%◌, ◌^◌, ◌≤◌, ◌<◌, ◌≡◌, ◌≢◌, refl, min, false, arith, List, [], ◌∷◌,
  some, leb, ◌==◌, length, take, drop, get_elem?, set, map, Bytes, done, fails, ◌>>=◌, undefined,
  length-drop,
}

-- When the total size is not zero, the queue at the cursor, which is below 16, has a front, and
-- the frame size has room for a header and at most 2 ^ 16 - 1 bytes more, the frame is the header
-- of that priority followed by as much of the rest of the front as fits.
pub frame_lem :
    (w : PriorityQueue) (frame_size : ℕ) (x : Queue) (e : Elem) (es : List Elem)
    → w.total_size ≢ 0
    → get_elem? w.qp w.priority_cursor ≡ some x
    → x.q ≡ e ∷ es
    → w.priority_cursor < 16
    → header_size ≤ frame_size
    → frame_size < header_size + 2 ^ 16
    → frame w frame_size
      ≡ done (
          encode w.priority_cursor
            (take (min (length e.b - e.cursor) (frame_size - header_size)) (drop e.cursor e.b)))
unfolding frame
frame_lem w fs x e es t g q c lo hi =
    let nonzero : (w.total_size == 0) ≡ false = ground arith in
    let size = min (length e.b - e.cursor + header_size) fs in
    let field : size - header_size ≡ min (length e.b - e.cursor) (fs - header_size) = omega arith in
    rw (nonzero, g, ◌>>=◌, q)
      (rw (
        serialize_lem w.priority_cursor size [] (drop e.cursor e.b) c (omega arith) (omega arith)
            (omega (arith, length-drop e.cursor e.b)),
        field,
      ))

-- When the total size is not zero and the queue at the cursor has a front below 2 ^ 15 bytes, a
-- frame size below the size of the header wraps the size of the payload, and the frame is read
-- past the end of the front.
pub frame_too_small :
    (w : PriorityQueue) (frame_size : ℕ) (x : Queue) (e : Elem) (es : List Elem)
    → w.total_size ≢ 0
    → get_elem? w.qp w.priority_cursor ≡ some x
    → x.q ≡ e ∷ es
    → frame_size < header_size
    → length e.b < 2 ^ 15
    → frame w frame_size ≡ fails undefined
unfolding frame serialize
frame_too_small w fs x e es t g q lt short =
    let nonzero : (w.total_size == 0) ≡ false = ground arith in
    let size = min (length e.b - e.cursor + header_size) fs in
    let behind : leb (size_field size) (length (drop e.cursor e.b)) ≡ false =
      ground (arith, length-drop e.cursor e.b) in
    rw (nonzero, g, ◌>>=◌, q) (rw behind)

get_elem?-map_fresh :
    (limits : List ℕ) (p : ℕ)
    → p < length limits
    → (x : Queue) × (get_elem? (map fresh_queue limits) p ≡ some x)
get_elem?-map_fresh [] p h = elim h [ ]
get_elem?-map_fresh (l ∷ ls) zero h = (fresh_queue l, refl)
get_elem?-map_fresh (l ∷ ls) (suc p) h = get_elem?-map_fresh ls p (omega arith)

enqueue-frame_at :
    (l p frame_size : ℕ) (ls : List ℕ) (x : Queue) (bytes : Bytes)
    → get_elem? (map fresh_queue ls) p ≡ some x
    → 0 < length bytes
    → length bytes < u64_mod
    → (w : PriorityQueue) × (enqueue (fresh (l ∷ ls)) (suc p) bytes ≡ done w)
      × (frame w frame_size ≡ fails undefined)
unfolding enqueue frame
enqueue-frame_at l p fs ls x [] g pos fits = absurd (omega arith)
enqueue-frame_at l p fs ls x (b ∷ bs) g pos fits =
    let size : ((0 + length (b ∷ bs)) % u64_mod == 0) ≡ false = ground arith in
    (
      record {
        qp = fresh_queue l ∷ set (map fresh_queue ls) p (push x (b ∷ bs));
        priority_cursor = 0;
        total_size = (0 + length (b ∷ bs)) % u64_mod;
      },
      rw (g, queue_at),
      rw size,
    )

-- When the first message of a new queue, not empty and below 2 ^ 64 bytes, has a priority other
-- than 0, the next frame is read from an empty queue.
pub enqueue-frame_fresh :
    (limits : List ℕ) (p frame_size : ℕ) (bytes : Bytes)
    → 0 < p
    → p < length limits
    → 0 < length bytes
    → length bytes < u64_mod
    → (w : PriorityQueue) × (enqueue (fresh limits) p bytes ≡ done w)
      × (frame w frame_size ≡ fails undefined)
enqueue-frame_fresh [] p fs bytes pp h pos fits = absurd (omega arith)
enqueue-frame_fresh (l ∷ ls) zero fs bytes pp h pos fits = absurd (omega arith)
enqueue-frame_fresh (l ∷ ls) (suc p) fs bytes pp h pos fits =
    let (x, g) = get_elem?-map_fresh ls p (omega arith) in
    enqueue-frame_at l p fs ls x bytes g pos fits
