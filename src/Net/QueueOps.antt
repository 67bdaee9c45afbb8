-- ===== src/Net/QueueOps.antt =====
-- What writer_pool.hpp asks of its `WriterQueue` parameter: the operations that it calls, and, as a
-- record of its own, the promise that the queue is a byte stream.
use net_lib.Prelude.{
  ℕ, ◌≤◌, ◌<◌, Bool, true, false, [], ◌++◌, ◌≡◌, Bytes, Outcome, done, length, take, drop,
}

pub record QueueOps : Type 1 where
  pub Queue : Type 0
  pub new : Queue
  pub enqueue : Queue → ℕ → Bytes → Outcome Queue
  pub empty : Queue → Bool
  pub frame : Queue → ℕ → Outcome Bytes
  pub shift : Queue → ℕ → Outcome Queue

-- `pending` is what the queue still owes to the socket. A frame is a prefix of it, and a shift by at
-- most the frame's length drops what was written.
pub record StreamLaws (o : QueueOps) : Type 1 where
  pub IsValid : o.Queue → Type 0
  pub pending : o.Queue → Bytes
  pub new_lem : IsValid o.new × (pending o.new ≡ [])
  pub enqueue_lem :
      (q : o.Queue) (priority : ℕ) (bytes : Bytes)
      → IsValid q
      → (q' : o.Queue) × (o.enqueue q priority bytes ≡ done q')
        × (pending q' ≡ pending q ++ bytes)
        × IsValid q'
  pub empty_lem : (q : o.Queue) → o.empty q ≡ true → pending q ≡ []
  pub frame_lem :
      (q : o.Queue) (size : ℕ)
      → IsValid q
      → o.empty q ≡ false
      → (f : Bytes) × (o.frame q size ≡ done f)
        × (f ≡ take (length f) (pending q))
        × (length f ≤ size)
        × (0 < size → 0 < length f)
  pub shift_lem :
      (q : o.Queue) (size n : ℕ) (f : Bytes)
      → IsValid q
      → o.empty q ≡ false
      → o.frame q size ≡ done f
      → n ≤ length f
      → (q' : o.Queue) × (o.shift q n ≡ done q') × (pending q' ≡ drop n (pending q)) × IsValid q'
