-- ===== src/Net/ConnectingPool.antt =====
-- include/pfs/netty/connecting_pool.hpp. What `connect` of a new socket and `add` of the poller
-- answer is an argument; callbacks are logged, oldest first. A deferred connection is its time and
-- the address that its function connects to. The std::set of deferred connections is ordered by time
-- alone, so two items of one time are the same to it.
pub mod Deferred
pub mod Pending
mod Tests
use net_lib.Prelude.Dict.{find, insert, erase}
use net_lib.Prelude.TimeSet.{insert_at}
use net_lib.Prelude.{
  ℕ, ◌+◌, Bool, true, false, List, [], ◌∷◌, ◌++◌, Option, none, some, ltb, leb, ◌==◌, if◌then◌else◌,
  zero, suc, length, drop, Outcome, done, fails, ◌>>=◌, out_of_fuel,
}

-- connection_refused_reason and conn_status of what a socket answers.
pub data ConnStatus : Type 0 where
  connected connecting deferred unreachable failure : ConnStatus

pub data Event : Type 0 where
  on_failure : Event
  -- The identifier of the socket, and its address.
  on_connected : (id saddr : ℕ) → Event
  on_connection_refused : (id saddr : ℕ) → Event
  poller_removed : ℕ → Event

-- A new socket for an address: its identifier, how its connection starts, and whether the poller
-- fails to add it.
pub record Attempt : Type 0 where
  pub id : ℕ
  pub status : ConnStatus
  pub add_fails : Bool

pub record ConnectingPool : Type 0 where
  -- The address of each connecting socket.
  pub connecting_sockets : List (ℕ × ℕ)
  pub removable : List ℕ
  -- Time and address.
  pub deferred_connections : List (ℕ × ℕ)
  pub log : List Event

abbrev pub record_event : ConnectingPool → Event → ConnectingPool
record_event p e = record p { log = p.log ++ (e ∷ []) }

unfoldable pub remove_later : ConnectingPool → ℕ → ConnectingPool
remove_later p id = record p { removable = p.removable ++ (id ∷ []) }

unfoldable pub connect_as : ConnectingPool → ℕ → ℕ → Bool → ConnStatus → ConnectingPool
connect_as p saddr id add_fails connected = record_event p (on_connected id saddr)
connect_as p saddr id add_fails connecting =
    if add_fails
    then record_event p on_failure
    else record p { connecting_sockets = insert id saddr p.connecting_sockets }
connect_as p saddr id add_fails deferred = p
connect_as p saddr id add_fails unreachable = record_event p (on_connection_refused id saddr)
connect_as p saddr id add_fails failure = record_event p on_failure

unfoldable pub connect : ConnectingPool → ℕ → Attempt → ConnectingPool
unfolding connect_as
connect p saddr a = connect_as p saddr a.id a.add_fails a.status

-- A timeout of 0 connects at once, with the attempt.
unfoldable pub connect_timeout : ConnectingPool → (now timeout saddr : ℕ) → Attempt → ConnectingPool
unfolding connect insert_at
connect_timeout p now timeout saddr a =
    if timeout == 0
    then connect p saddr a
    else record p { deferred_connections = insert_at (now + timeout, saddr) p.deferred_connections }

-- What the poller reports.
pub data PollerEvent : Type 0 where
  poller_failure poller_connected poller_refused : ℕ → PollerEvent

unfoldable pub on_poller : ConnectingPool → PollerEvent → ConnectingPool
unfolding remove_later
on_poller p (poller_failure id) = record_event (remove_later p id) on_failure
on_poller p (poller_connected id) =
    record_event (remove_later p id) (elim (find id p.connecting_sockets) [
      | none ↦ on_failure
      | some saddr ↦ on_connected id saddr
    ])
on_poller p (poller_refused id) =
    record_event (remove_later p id) (elim (find id p.connecting_sockets) [
      | none ↦ on_failure
      | some saddr ↦ on_connection_refused id saddr
    ])

unfoldable pub poll : ConnectingPool → List PollerEvent → ConnectingPool
poll p [] = p
poll p (e ∷ es) = poll (on_poller p e) es

-- A deferred function is called. An address that is unreachable is refused at once, while the loop of
-- `step` runs, and the callback of node.hpp then defers it again, at a reading of its own, if the
-- reconnection timeout is positive.
unfoldable pub call_deferred :
    ConnectingPool → (reading timeout saddr : ℕ) → Attempt → ConnStatus → ConnectingPool
call_deferred p reading timeout saddr a unreachable =
    if timeout == 0
    then connect p saddr a
    else connect_timeout (connect p saddr a) reading timeout saddr a
call_deferred p reading timeout saddr a _ = connect p saddr a

-- The loop over the deferred connections whose time has come, on fuel. Each call makes an attempt and a
-- reading of the clock of its own, numbered from `i`; what it defers stands behind the item of
-- the call, the first, which is then erased.
module _ (attempts : ℕ → Attempt) (clock : ℕ → ℕ) (timeout now : ℕ) where
  unfoldable pub reconnect : (fuel i : ℕ) → ConnectingPool → Outcome ConnectingPool
  reconnect zero i p = fails out_of_fuel
  reconnect (suc fuel) i p = elim p.deferred_connections [
    | [] ↦ done p
    | (t, saddr) ∷ ds ↦ elim (leb t now) [
      | false ↦ done p
      | true ↦
          let a = attempts i in
          let q = call_deferred p (clock i) timeout saddr a a.status in
          reconnect fuel (suc i) (record q { deferred_connections = drop 1 q.deferred_connections })
    ]
  ]

  unfoldable pub step : ConnectingPool → List PollerEvent → Outcome ConnectingPool
  step p es = reconnect (suc (length p.deferred_connections)) 0 p >>= λ q. done (poll q es)

unfoldable pub remove_sockets : List ℕ → List (ℕ × ℕ) → List (ℕ × ℕ)
remove_sockets [] m = m
remove_sockets (id ∷ ids) m = remove_sockets ids (erase id m)

unfoldable pub removal_events : List ℕ → List Event
removal_events [] = []
removal_events (id ∷ ids) = poller_removed id ∷ removal_events ids

unfoldable pub apply_remove : ConnectingPool → ConnectingPool
apply_remove p = record p {
  connecting_sockets = remove_sockets p.removable p.connecting_sockets;
  removable = [];
  log = p.log ++ removal_events p.removable;
}
