-- ===== src/Net/WriterQueue.antt =====
-- include/pfs/netty/writer_queue.hpp: the output queue of one socket. The front of the std::queue is
-- the head of the list. Cursors and sizes do not wrap: they are bounded by the buffers in memory.
pub mod Stream
pub mod Ops
use net_lib.Prelude.{
  ℕ, ◌+◌, ◌-◌, ◌≤◌, ◌<◌, min, Bool, List, [], ◌∷◌, ◌++◌, ◌≡◌, refl, sym, ap, ◌∙◌, arith, leb,
  is_nil, length, take, drop, All, Bytes, Outcome, done, fails, undefined, if◌then◌else◌,
  append_assoc, append-nil, take-append_le, drop-append_le, length-drop, length-take, take_all,
  drop_all, drop-drop, All-append, inl, inr, Bool-cases, leb→le, leb→gt,
}

pub record Elem : Type 0 where
  pub b : Bytes
  pub cursor : ℕ

pub record WriterQueue : Type 0 where
  pub q : List Elem

abbrev pub new_queue : WriterQueue
new_queue = record { q = [] }

-- The priority is ignored; an empty message is not queued.
unfoldable pub enqueue : WriterQueue → ℕ → Bytes → WriterQueue
enqueue w priority data' =
    if is_nil data' then w else record w { q = w.q ++ (record { b = data'; cursor = 0 } ∷ []) }

unfoldable pub empty : WriterQueue → Bool
empty w = is_nil w.q

front_frame : List Elem → ℕ → Bytes
front_frame [] frame_size = []
front_frame (front ∷ _) frame_size =
    take (min (length front.b - front.cursor) frame_size) (drop front.cursor front.b)

unfoldable pub frame : WriterQueue → ℕ → Bytes
unfolding front_frame
frame w frame_size = front_frame w.q frame_size

shift_front : List Elem → ℕ → Outcome (List Elem)
shift_front [] n = fails undefined
shift_front (front ∷ rest) n = done (
    if leb (length front.b) (front.cursor + n)
    then rest
    else record front { cursor = front.cursor + n } ∷ rest)

-- `_q.front()` of an empty queue is undefined.
unfoldable pub shift : WriterQueue → ℕ → Outcome WriterQueue
unfolding shift_front
shift w n = elim (shift_front w.q n) [ done q ↦ done (record { q = q }) | fails f ↦ fails f ]

-- Cursors stay inside their buffers.
abbrev pub IsValid : WriterQueue → Type 0
IsValid w = All (λ e. e.cursor < length e.b) w.q

pending_of : List Elem → Bytes
pending_of [] = []
pending_of (e ∷ es) = drop e.cursor e.b ++ pending_of es

-- The bytes still to be written, in order: the abstract view of the queue.
unfoldable pub pending : WriterQueue → Bytes
unfolding pending_of
pending w = pending_of w.q

pending_of-append : (xs ys : List Elem) → pending_of (xs ++ ys) ≡ pending_of xs ++ pending_of ys
unfolding pending_of
pending_of-append [] ys = refl
pending_of-append (x ∷ xs) ys =
    ap (◌++◌ (drop x.cursor x.b)) (pending_of-append xs ys)
    ∙ sym (append_assoc (drop x.cursor x.b) (pending_of xs) (pending_of ys))

-- What is pending after a message was queued is what was pending before, followed by the message,
-- also for an empty message and any priority.
pub pending-enqueue :
    (w : WriterQueue) (p : ℕ) (bytes : Bytes) → pending (enqueue w p bytes) ≡ pending w ++ bytes
unfolding pending enqueue
pending-enqueue w p [] = sym (append-nil _)
pending-enqueue w p (x ∷ xs) =
    pending_of-append w.q _ ∙ ap (◌++◌ (pending_of w.q)) (append-nil (x ∷ xs))

pub enqueue-IsValid :
    (w : WriterQueue) (p : ℕ) (bytes : Bytes) → IsValid w → IsValid (enqueue w p bytes)
unfolding enqueue
enqueue-IsValid w p [] v = v
enqueue-IsValid w p (x ∷ xs) v = All-append _ w.q _ v (omega arith, tt)
