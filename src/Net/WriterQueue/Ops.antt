-- ===== src/Net/WriterQueue/Ops.antt =====
-- `writer_queue` as a parameter of `writer_pool`: it keeps the promise of a byte stream.
use net_lib.Net.QueueOps.{QueueOps, StreamLaws}
use net_lib.Net.WriterQueue.{
  WriterQueue, new_queue, pending_of, enqueue, empty, frame, shift, IsValid, pending,
  pending-enqueue, enqueue-IsValid,
}
use net_lib.Net.WriterQueue.Stream.{frame_prefix, shift_lem, empty-pending}
use net_lib.Prelude.{◌≤◌, ◌≡◌, refl, Bytes, done, length, subst, done-injective, sym, []}

abbrev pub writer_queue_ops : QueueOps
writer_queue_ops = record {
  Queue = WriterQueue;
  new = new_queue;
  enqueue = λ q p bytes. done (enqueue q p bytes);
  empty = empty;
  frame = λ q n. done (frame q n);
  shift = shift;
}

pub new-pending : pending new_queue ≡ []
unfolding pending pending_of
new-pending = refl

abbrev pub writer_queue_laws : StreamLaws writer_queue_ops
writer_queue_laws = record {
  IsValid = IsValid;
  pending = pending;
  new_lem = (tt, new-pending);
  enqueue_lem = λ q p bytes v.
      (enqueue q p bytes, refl, pending-enqueue q p bytes, enqueue-IsValid q p bytes v);
  empty_lem = empty-pending;
  frame_lem = λ q n v e.
      let (pre, fits, some_bytes) = frame_prefix q n v in
      (frame q n, refl, pre, fits, some_bytes e);
  shift_lem = λ q size n f v e same h.
      shift_lem q size n v e (subst (λ (f : Bytes). n ≤ length f) (sym (done-injective same)) h);
}
