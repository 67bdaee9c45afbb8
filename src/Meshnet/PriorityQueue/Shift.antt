-- ===== src/Meshnet/PriorityQueue/Shift.antt =====
-- How `shift` moves on: whole messages that fit in a frame, and what happens at the end of a phase.
use net_lib.Meshnet.PriorityFrame.{header_size}
use net_lib.Meshnet.PriorityQueue.{
  Queue, PriorityQueue, u64_mod, advance, find_counter, next_queue, after_shift, shift,
}
use net_lib.Net.WriterQueue.{Elem}
use net_lib.Prelude.{
  ℕ, suc, ◌+◌, ◌-◌, ◌%◌, ◌≤◌, ◌<◌, ◌≡◌, ◌≢◌, refl, ◌∙◌, false, arith, List, ◌∷◌, some, ◌==◌, length,
  get_elem?, set, done, ◌>>=◌, get_elem?-set_ne, set-set, get_elem?-lt,
}

-- Where the next queue has frames left in its phase, it is copied over the queue that was served.
pub next_queue_copies :
    (qp : List Queue) (c : ℕ) (y : Queue)
    → get_elem? qp (c + 1) ≡ some y
    → y.frame_counter ≢ 0
    → next_queue qp c ≡ done (set qp c y, c + 1)
unfolding next_queue find_counter
next_queue_copies qp c y g n =
    let more : length qp - (c + 1) ≡ suc (length qp - (c + 2)) =
      omega (arith, get_elem?-lt qp (c + 1) g) in
    let left : (y.frame_counter == 0) ≡ false = ground arith in
    rw (more, find_counter, g, ◌>>=◌, left)

-- When a queue that is not empty is shifted by its last frame of the phase, of 3 to 2 ^ 64 - 1
-- bytes, bytes remain in all, and the next queue has frames left in its phase, the queue at the
-- cursor, with all that it still holds, is replaced by a copy of the next one, while the total
-- size goes on counting what was lost.
pub shift_loses_queue :
    (w : PriorityQueue) (frame_size : ℕ) (x y : Queue) (e : Elem) (es : List Elem)
    → header_size ≤ frame_size
    → frame_size < u64_mod
    → get_elem? w.qp w.priority_cursor ≡ some x
    → x.q ≡ e ∷ es
    → x.frame_counter ≡ 1
    → get_elem? w.qp (w.priority_cursor + 1) ≡ some y
    → y.frame_counter ≢ 0
    → (w.total_size + u64_mod - (frame_size - header_size)) % u64_mod ≢ 0
    → shift w frame_size
      ≡ done (record {
        qp = set w.qp w.priority_cursor y;
        priority_cursor = w.priority_cursor + 1;
        total_size = (w.total_size + u64_mod - (frame_size - header_size)) % u64_mod;
      })
unfolding shift after_shift
shift_loses_queue w k x y e es lo hi g q one h n t =
    let field : (k + u64_mod - header_size) % u64_mod ≡ k - header_size = omega arith in
    let some_left : ((w.total_size + u64_mod - (k - header_size)) % u64_mod == 0) ≡ false =
      ground arith in
    rw (g, ◌>>=◌, q, advance)
      (rw (one, field, some_left)
        (rw
          (
            next_queue_copies (set w.qp w.priority_cursor _) w.priority_cursor y
                (get_elem?-set_ne w.qp w.priority_cursor (w.priority_cursor + 1) _
                    (λ e. omega arith)
                  ∙ h)
                n,
            set-set,
          )
          refl))
