-- ===== src/Net/WriterPool/Tests.antt =====
-- Runs of the writer pool over `writer_queue`, and its theorems at concrete inputs.
use net_lib.Net.WriterQueue.{WriterQueue, empty, frame, shift, IsValid, pending}
use net_lib.Net.WriterQueue.Ops.{writer_queue_ops, writer_queue_laws}
use net_lib.Net.WriterQueue.Stream.{shift_lem}
use net_lib.Net.WriterPool.Send.{IsHonest, Moves, send_account-Moves}
use net_lib.Net.WriterPool.Queueing.{PoolOk}
use net_lib.Net.WriterPool.History.{run_lem, Runs}
use net_lib.Net.WriterPool.Calls.{Call, enqueues, steps, run}
use net_lib.Net.WriterPool.Removal.{apply_remove_lem}
use net_lib.Net.WriterPool.{
  good, Env, Side, Account, Pool, new_pool, can_write, send_account, apply_remove,
}
use net_lib.Prelude.Dict.{find}
use net_lib.Prelude.{min, ◌≡◌, refl, true, List, [], ◌∷◌, length, Outcome, done, arith}

-- Every socket takes two bytes at most.
abbrev slow : Env
slow = record {
  locate_socket = λ id. true;
  send = λ id frame. record { status = good; n = min 2 (length frame) };
  has_on_bytes_written = true;
}

slow-IsHonest : IsHonest slow
slow-IsHonest id frame = omega arith

abbrev start : Pool writer_queue_ops
start = new_pool writer_queue_ops

start-PoolOk : PoolOk writer_queue_ops writer_queue_laws start
start-PoolOk = record { ok = tt; bounded = omega arith }

abbrev calls : List (Call writer_queue_ops)
calls =
    enqueues 7 0 (10 ∷ 11 ∷ 12 ∷ [])
    ∷ steps slow [] (can_write 7 ∷ [])
    ∷ enqueues 7 0 (13 ∷ [])
    ∷ steps slow (slow ∷ []) []
    ∷ []

-- The socket is writable from the second step on, whose two passes send two chunks.
run_log : Outcome (Pool writer_queue_ops)
run_log = run writer_queue_ops start calls

run_lem_example :
    (p' : Pool writer_queue_ops) × (run writer_queue_ops start calls ≡ done p')
    × Runs writer_queue_ops writer_queue_laws start p' calls
run_lem_example =
    run_lem writer_queue_ops writer_queue_laws start calls
      (tt, ((slow-IsHonest, tt), (tt, ((slow-IsHonest, (slow-IsHonest, tt)), tt)))) start-PoolOk

abbrev queued_account : Account writer_queue_ops
queued_account = record {
  id = 7;
  writable = true;
  frame_size = 4;
  q = record { q = record { b = 1 ∷ 2 ∷ 3 ∷ []; cursor = 1 } ∷ [] };
}

send_account-Moves_example :
    (r : Account writer_queue_ops × Side) × (send_account writer_queue_ops slow queued_account
        (record { remain_bytes = 2; removable = []; log = [] })
      ≡ done r)
    × Moves writer_queue_ops writer_queue_laws queued_account
        (record { remain_bytes = 2; removable = []; log = [] })
        r
send_account-Moves_example =
    send_account-Moves writer_queue_ops writer_queue_laws slow queued_account
      (record { remain_bytes = 2; removable = []; log = [] }) slow-IsHonest (omega arith)
      (omega arith) (omega arith)

abbrev marked : Pool writer_queue_ops
marked = record {
  accounts = (7, queued_account) ∷ [];
  side = record { remain_bytes = 2; removable = 7 ∷ []; log = [] };
}

apply_remove_lem_example : (apply_remove writer_queue_ops marked).remain_bytes ≡ 2
unfolding find
apply_remove_lem_example =
    (apply_remove_lem writer_queue_ops writer_queue_laws marked
      (record { ok = (refl, omega arith, omega arith, refl, tt); bounded = omega arith })).4

shift_lem_example :
    (w' : WriterQueue) × (shift queued_account.q 2 ≡ done w') × (pending w' ≡ []) × IsValid w'
unfolding frame pending empty
shift_lem_example = shift_lem queued_account.q 4 2 (omega arith) refl (omega arith)
