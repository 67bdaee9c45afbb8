-- ===== src/Net/WriterPool/Calls.antt =====
-- Sequences of calls of the pool.
use net_lib.Net.QueueOps.{QueueOps}
use net_lib.Net.WriterPool.Send.{IsHonest}
use net_lib.Net.WriterPool.{Env, Pool, PollerEvent, add, enqueue, remove_later, step}
use net_lib.Prelude.{
  ℕ, ◌^◌, ◌<◌, List, [], ◌∷◌, ◌++◌, ◌==◌, if◌then◌else◌, Bytes, Outcome, done, ◌>>=◌, All,
}

module _ (o : QueueOps) where
  -- The calls that a client makes between two calls of `apply_remove`.
  pub data Call : Type 0 where
    adds : (id frame_size : ℕ) → Call
    enqueues : (id priority : ℕ) → Bytes → Call
    steps : Env → List Env → List (PollerEvent o) → Call
    removes_later : ℕ → Call

  unfoldable pub call : Pool o → Call → Outcome (Pool o)
  call p (adds id frame_size) = add o p id frame_size
  call p (enqueues id priority bytes) = enqueue o p id priority bytes
  call p (steps env more es) = step o p env more es
  call p (removes_later id) = done (remove_later o p id)

  unfoldable pub run : Pool o → List Call → Outcome (Pool o)
  unfolding call
  run p [] = done p
  run p (c ∷ cs) = do q ← call p c; run q cs

  -- Frame sizes fit their type, and sockets take no more than they are given.
  abbrev pub CallOk : Call → Type 0
  CallOk (adds id frame_size) = frame_size < 2 ^ 16
  CallOk (enqueues id priority bytes) = Unit
  CallOk (steps env more es) = IsHonest env × All IsHonest more
  CallOk (removes_later id) = Unit

  -- The bytes that the calls queue for socket `id`.
  abbrev pub queued : ℕ → List Call → Bytes
  queued id [] = []
  queued id (enqueues j priority bytes ∷ cs) = (if j == id then bytes else []) ++ queued id cs
  queued id (adds j frame_size ∷ cs) = queued id cs
  queued id (steps env more es ∷ cs) = queued id cs
  queued id (removes_later j ∷ cs) = queued id cs
