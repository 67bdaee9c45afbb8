-- ===== src/Net/ConnectingPool/Pending.antt =====
-- Sockets that are connecting, and what the poller reports of them.
use net_lib.Net.ConnectingPool.{
  Event, on_failure, on_connected, on_connection_refused, ConnectingPool, remove_later,
  poller_failure, poller_connected, poller_refused, on_poller, remove_sockets, apply_remove,
}
use net_lib.Prelude.Dict.{find, erase, find-erase}
use net_lib.Prelude.{ℕ, ◌≡◌, refl, arith, List, [], ◌∷◌, ◌++◌, none, some, if◌then◌else◌, mem}

find-remove_sockets :
    (j : ℕ) (ids : List ℕ) (m : List (ℕ × ℕ))
    → find j (remove_sockets ids m) ≡ (if mem j ids then none else find j m)
unfolding remove_sockets
find-remove_sockets j [] m = refl
find-remove_sockets j (id ∷ ids) m =
    ground (arith, find-remove_sockets j ids (erase id m), find-erase id j m)

-- A socket is settled: `e` is what was reported of it, and it is connecting no more.
abbrev pub Settles : ConnectingPool → ConnectingPool → ℕ → Event → Type 0
Settles p q id e =
    (q.log ≡ p.log ++ (e ∷ []))
    × ((j : ℕ)
        → find j (apply_remove q).connecting_sockets
          ≡ (if mem j (p.removable ++ (id ∷ [])) then none else find j p.connecting_sockets))

settles :
    (p : ConnectingPool) (id : ℕ) (e : Event)
    → Settles p (record p { removable = p.removable ++ (id ∷ []); log = p.log ++ (e ∷ []) }) id e
unfolding apply_remove
settles p id e = (refl, λ j. find-remove_sockets j (p.removable ++ (id ∷ [])) p.connecting_sockets)

-- When the poller reports a connecting socket as connected, refused or failed, exactly one
-- callback is called, the one for that report and with the address of the socket where it takes
-- one, and after apply_remove that socket and those marked before are connecting no more, and all
-- others still are.
pub on_poller_lem :
    (p : ConnectingPool) (id saddr : ℕ)
    → find id p.connecting_sockets ≡ some saddr
    → Settles p (on_poller p (poller_connected id)) id (on_connected id saddr)
      × Settles p (on_poller p (poller_refused id)) id (on_connection_refused id saddr)
      × Settles p (on_poller p (poller_failure id)) id on_failure
unfolding on_poller remove_later
on_poller_lem p id saddr e = (
  rw e (settles p id (on_connected id saddr)),
  rw e (settles p id (on_connection_refused id saddr)),
  settles p id on_failure,
)
