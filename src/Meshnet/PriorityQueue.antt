-- ===== src/Meshnet/PriorityQueue.antt =====
-- include/pfs/netty/patterns/meshnet/priority_writer_queue.hpp: N queues, served in turn, each for a
-- number of frames that its limit gives. `auto & x = _qp[_priority_cursor]` binds a reference, so the
-- later assignments `x = _qp[_priority_cursor]` copy a queue into the slot where `x` points; the model
-- does the same. A frame counter is never read below 0, so its decrement stops at 0 here.
pub mod Frame
pub mod Shift
pub mod Messages
use net_lib.Meshnet.PriorityFrame.{header_size, with_priority, serialize}
use net_lib.Net.WriterQueue.{Elem}
use net_lib.Prelude.{
  ℕ, zero, suc, ◌+◌, ◌-◌, ◌%◌, ◌^◌, min, Bool, true, false, not, ◌&&◌, List, [], ◌∷◌, ◌++◌, Option,
  none, some, ltb, leb, ◌==◌, if◌then◌else◌, length, is_nil, drop, get_elem?, set, map, Bytes,
  Outcome, done, fails, ◌>>=◌, undefined, terminated,
}

pub record Queue : Type 0 where
  -- Front first.
  pub q : List Elem
  pub frame_limit : ℕ
  pub frame_counter : ℕ

pub record PriorityQueue : Type 0 where
  -- The queue pool.
  pub qp : List Queue
  pub priority_cursor : ℕ
  -- Total data size, a std::uint64_t.
  pub total_size : ℕ

-- The frame limits by the number of priorities; fewer than two have no calculator.
unfoldable pub frame_calculator : ℕ → Option (List ℕ)
frame_calculator n =
    if n == 2
    then some (2 ∷ 1 ∷ [])
    else if n == 3
    then some (4 ∷ 2 ∷ 1 ∷ [])
    else if n == 4
    then some (8 ∷ 4 ∷ 2 ∷ 1 ∷ [])
    else if n == 5
    then some (16 ∷ 8 ∷ 4 ∷ 2 ∷ 1 ∷ [])
    else if n == 6
    then some (32 ∷ 16 ∷ 8 ∷ 4 ∷ 2 ∷ 1 ∷ [])
    else none

abbrev pub fresh_queue : ℕ → Queue
fresh_queue limit = record { q = []; frame_limit = limit; frame_counter = limit }

all_positive : List ℕ → Bool
all_positive [] = true
all_positive (x ∷ xs) = ltb 0 x && all_positive xs

abbrev pub fresh : List ℕ → PriorityQueue
fresh limits = record { qp = map fresh_queue limits; priority_cursor = 0; total_size = 0 }

-- The constructor, with the limits of its frame calculator.
unfoldable pub new : List ℕ → Outcome PriorityQueue
unfolding all_positive
new limits = if all_positive limits then done (fresh limits) else fails terminated

abbrev pub reset_queue : Queue → Queue
reset_queue x = record x { frame_counter = x.frame_limit }

unfoldable pub reset_phase : List Queue → List Queue
reset_phase qp = map reset_queue qp

abbrev pub u64_mod : ℕ
u64_mod = 2 ^ 64

abbrev pub push : Queue → Bytes → Queue
push x bytes = record x { q = x.q ++ (record { b = bytes; cursor = 0 } ∷ []) }

-- An index past the end of the std::array is undefined.
abbrev pub queue_at : List Queue → ℕ → Outcome Queue
queue_at qp i = elim (get_elem? qp i) [ none ↦ fails undefined | some x ↦ done x ]

unfoldable pub enqueue : PriorityQueue → ℕ → Bytes → Outcome PriorityQueue
enqueue w priority bytes = if is_nil bytes then done w else do
  x ← queue_at w.qp priority
  done (record w {
    qp = set w.qp priority (push x bytes);
    total_size = (w.total_size + length bytes) % u64_mod;
  })

unfoldable pub empty : PriorityQueue → Bool
empty w = w.total_size == 0

-- `q.front()` of an empty queue is undefined.
abbrev pub front : List Elem → Outcome Elem
front [] = fails undefined
front (e ∷ es) = done e

unfoldable pub frame : PriorityQueue → ℕ → Outcome Bytes
unfolding empty
frame w frame_size = if empty w then done [] else do
  x ← queue_at w.qp w.priority_cursor
  e ← front x.q
  let size = min (length e.b - e.cursor + header_size) frame_size
  r ← serialize (with_priority w.priority_cursor) [] (drop e.cursor e.b) size
  done r.1

-- The front element after `n` bytes of it were written.
advance : List Elem → ℕ → Outcome (List Elem)
advance [] n = fails undefined
advance (e ∷ es) n =
    done (if leb (length e.b) (e.cursor + n) then es else record e { cursor = e.cursor + n } ∷ es)

-- `while (_priority_cursor != N)`: slot `c` is where `x` points, and receives each queue looked at.
-- The first that has frames left in its phase ends the search.
unfoldable pub find_counter : ℕ → ℕ → ℕ → List Queue → Outcome (List Queue × Option ℕ)
find_counter zero k c qp = done (qp, none)
find_counter (suc rounds) k c qp = do
  y ← queue_at qp k
  if y.frame_counter == 0
      then find_counter rounds (k + 1) c (set qp c y)
      else done (set qp c y, some k)

-- The second search, for a queue that is not empty.
unfoldable pub find_data : ℕ → ℕ → ℕ → List Queue → Outcome (List Queue × Option ℕ)
find_data zero k c qp = done (qp, none)
find_data (suc rounds) k c qp = do
  y ← queue_at qp k
  if is_nil y.q then find_data rounds (k + 1) c (set qp c y) else done (set qp c y, some k)

-- Both searches, from slot `c`, whose phase is complete.
unfoldable pub next_queue : List Queue → ℕ → Outcome (List Queue × ℕ)
next_queue qp c = do
  r ← find_counter (length qp - (c + 1)) (c + 1) c qp
  elim r.1 [
    | some k ↦ done (r.0, k)
    | none ↦ find_data (length r.0) 0 c (reset_phase r.0) >>= λ s. elim s.1 [
      | some k ↦ done (s.0, k)
      | none ↦ fails terminated
    ]
  ]

-- `x` after the shift, and what is left of all.
unfoldable pub after_shift : PriorityQueue → Queue → ℕ → Outcome PriorityQueue
after_shift w x total =
    if ltb 0 x.frame_counter && not (is_nil x.q)
    then done (record w { qp = set w.qp w.priority_cursor x; total_size = total })
    else if total == 0
    then done (record {
      qp = reset_phase (set w.qp w.priority_cursor x);
      priority_cursor = 0;
      total_size = total;
    })
    else next_queue (set w.qp w.priority_cursor (record x { frame_counter = 0 })) w.priority_cursor
      >>= λ r. done (record { qp = r.0; priority_cursor = r.1; total_size = total })

unfoldable pub shift : PriorityQueue → ℕ → Outcome PriorityQueue
unfolding advance
shift w frame_size = do
  let n = (frame_size + u64_mod - header_size) % u64_mod
  x ← queue_at w.qp w.priority_cursor
  es ← advance x.q n
  let x' : Queue = record x { q = es; frame_counter = x.frame_counter - 1 }
  after_shift w x' ((w.total_size + u64_mod - n) % u64_mod)
