-- ===== src/Meshnet/Heartbeat.antt =====
-- include/pfs/netty/patterns/meshnet/simple_heartbeat.hpp. Clock readings are arguments, in
-- nanoseconds: each call of `enqueue` reads the clock anew. Heartbeats that are sent and sockets that
-- are reported are logged, oldest first. The callback for an expired socket closes its channel: `also`
-- is the other socket of that channel, if there is one, which is then removed too.
pub mod Limits
pub mod Sending
mod Tests
use net_lib.Prelude.Dict.{insert, erase}
use net_lib.Prelude.TimeSet.{insert_at}
use net_lib.Prelude.{
  Option, none, some, Bool, true, false, mem, Outcome, done, fails, undefined, ℕ, suc, ◌+◌, List,
  [], ◌∷◌, ◌++◌, leb, ◌==◌, if◌then◌else◌, map,
}

pub data Event : Type 0 where
  heartbeat_sent expired : ℕ → Event

pub record Heartbeat : Type 0 where
  pub interval : ℕ
  -- Time and socket of the next heartbeats.
  pub q : List (ℕ × ℕ)
  -- By socket, the time when it is taken as lost.
  pub limits : List (ℕ × ℕ)
  pub log : List Event

-- Fifteen seconds.
abbrev pub timeout : ℕ
timeout = 15000000000

unfoldable pub enqueue : Heartbeat → ℕ → ℕ → Heartbeat
enqueue h now sid = record h { q = insert_at (now + h.interval, sid) h.q }

unfoldable pub remove_items : ℕ → List (ℕ × ℕ) → List (ℕ × ℕ)
remove_items sid [] = []
remove_items sid ((t, s) ∷ q) = if s == sid then remove_items sid q else (t, s) ∷ remove_items sid q

unfoldable pub remove : Heartbeat → ℕ → Heartbeat
remove h sid = record h { q = remove_items sid h.q; limits = erase sid h.limits }

unfoldable pub add : Heartbeat → ℕ → ℕ → Heartbeat
add h now sid = enqueue (remove h sid) now sid

unfoldable pub process : Heartbeat → ℕ → ℕ → Heartbeat
process h now sid = record h { limits = insert sid (now + timeout) h.limits }

-- `while (!_q.empty() && pos->t <= now)`: the sockets that are due, and the rest of the queue.
unfoldable pub take_due : ℕ → List (ℕ × ℕ) → List ℕ × List (ℕ × ℕ)
take_due now [] = ([], [])
take_due now ((t, sid) ∷ q) =
    let r = take_due now q in if leb t now then (sid ∷ r.0, r.1) else ([], (t, sid) ∷ q)

-- Each socket with a reading of its own, numbered from `i`.
unfoldable pub enqueue_all : (ℕ → ℕ) → ℕ → List ℕ → Heartbeat → Heartbeat
enqueue_all clock i [] h = h
enqueue_all clock i (sid ∷ sids) h = enqueue_all clock (suc i) sids (enqueue h (clock i) sid)

unfoldable pub send_due : Heartbeat → ℕ → (ℕ → ℕ) → Heartbeat
send_due h now clock =
    let r = take_due now h.q in
    enqueue_all clock 0 r.0 (record h { q = r.1; log = h.log ++ map heartbeat_sent r.0 })

-- The first socket of the limits to come that is still there.
unfoldable pub next_left : List ℕ → List (ℕ × ℕ) → Option ℕ
next_left gone [] = none
next_left gone ((sid, t) ∷ m) =
    let rest = next_left gone m in if mem sid gone then rest else some sid

abbrev pub is_same : Option ℕ → ℕ → Bool
is_same none other = false
is_same (some sid) other = sid == other

module _ (also : ℕ → Option ℕ) where
  -- The loop over the limits: those that were passed, those to come, and the sockets of the latter
  -- that were removed meanwhile. The iterator stands at the next one already when the callback
  -- is called; to go on from one that was removed is undefined.
  unfoldable pub check_each :
      ℕ → (gone : List ℕ) → (passed todo : List (ℕ × ℕ)) → Heartbeat → Outcome Heartbeat
  check_each now gone passed [] h = done (record h { limits = passed })
  check_each now gone passed ((sid, t) ∷ m) h = elim (mem sid gone) [
    | true ↦ check_each now gone passed m h
    | false ↦ elim (leb t now) [
      | false ↦ check_each now gone (passed ++ (sid, t) ∷ []) m h
      | true ↦
          let h' : Heartbeat = record h {
            q = remove_items sid h.q;
            log = h.log ++ expired sid ∷ [];
          } in
          elim (also sid) [
            | none ↦ check_each now gone passed m h'
            | some other ↦ elim (is_same (next_left gone m) other) [
              | true ↦ fails undefined
              | false ↦
                  check_each now (other ∷ gone) (erase other passed) m
                    (record h' { q = remove_items other h'.q })
            ]
          ]
    ]
  ]

  unfoldable pub check_limits : Heartbeat → ℕ → Outcome Heartbeat
  check_limits h now = check_each now [] [] h.limits h

  -- `now` and `later` are the readings of the two halves.
  unfoldable pub step : Heartbeat → (now later : ℕ) → (ℕ → ℕ) → Outcome Heartbeat
  step h now later clock = check_limits (send_due h now clock) later
