-- ===== src/Net/ConnectingPool/Tests.antt =====
-- Three deferred connections, and a socket that is connecting.
use net_lib.Net.ConnectingPool.{
  connecting, unreachable, on_failure, on_connected, on_connection_refused, Attempt, ConnectingPool,
  poller_failure, poller_connected, poller_refused, on_poller,
}
use net_lib.Net.ConnectingPool.Pending.{Settles, on_poller_lem}
use net_lib.Prelude.Dict.{find}
use net_lib.Prelude.{◌==◌, if◌then◌else◌, ℕ, ◌+◌, refl, false, [], ◌∷◌}

-- The first address is unreachable.
abbrev attempts : ℕ → Attempt
attempts i = record {
  id = i + 100;
  status = if i == 0 then unreachable else connecting;
  add_fails = false;
}

abbrev pool : ConnectingPool
pool = record {
  connecting_sockets = (7, 50) ∷ [];
  removable = [];
  deferred_connections = (10, 60) ∷ (12, 61) ∷ (30, 62) ∷ [];
  log = [];
}

on_poller_lem_example :
    Settles pool (on_poller pool (poller_connected 7)) 7 (on_connected 7 50)
    × Settles pool (on_poller pool (poller_refused 7)) 7 (on_connection_refused 7 50)
    × Settles pool (on_poller pool (poller_failure 7)) 7 on_failure
unfolding find
on_poller_lem_example = on_poller_lem pool 7 50 refl
