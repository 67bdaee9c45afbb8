-- ===== src/Net/ConnectingPool/Deferred.antt =====
-- Deferred connections: which are kept, and which a step makes.
use net_lib.Net.ConnectingPool.{
  Attempt, ConnectingPool, ConnStatus, connect, connect_timeout, unreachable,
}
use net_lib.Prelude.Dict.{find}
use net_lib.Prelude.TimeSet.{Ascending, first_come, insert_at, insert_at-find}
use net_lib.Prelude.{
  ℕ, ◌+◌, ◌<◌, ◌≡◌, arith, true, false, List, [], ◌∷◌, some, ◌==◌, if◌then◌else◌, suc, Bool, drop,
}

-- With ascending deferred connections and a positive timeout, connect_timeout keeps what is
-- deferred at every other time; at its own time the address is deferred only if that time is
-- free, and is dropped if another one stands there.
pub connect_timeout-find :
    (p : ConnectingPool) (now timeout saddr u : ℕ) (a : Attempt)
    → 0 < timeout
    → Ascending p.deferred_connections
    → find u (connect_timeout p now timeout saddr a).deferred_connections ≡ (
        if now + timeout == u
        then some (first_come (find (now + timeout) p.deferred_connections) saddr)
        else find u p.deferred_connections)
unfolding connect_timeout
connect_timeout-find p now timeout saddr u a pos asc =
    let later : (timeout == 0) ≡ false = ground arith in
    rw later (insert_at-find (now + timeout) saddr u p.deferred_connections asc)

module _ (attempts : ℕ → Attempt) (clock : ℕ → ℕ) (timeout now : ℕ) where
  -- Attempts numbered from `i`, made one after the other.
  unfoldable pub connect_all : ℕ → List (ℕ × ℕ) → ConnectingPool → ConnectingPool
  connect_all i [] p = p
  connect_all i ((t, saddr) ∷ ds) p = connect_all (suc i) ds (connect p saddr (attempts i))

  abbrev pub is_unreachable : ConnStatus → Bool
  is_unreachable unreachable = true
  is_unreachable _ = false

  -- The addresses that are refused at once are deferred again, in order.
  unfoldable pub defer_again : ℕ → List (ℕ × ℕ) → List (ℕ × ℕ) → List (ℕ × ℕ)
  defer_again i [] later = later
  defer_again i ((t, saddr) ∷ ds) later = defer_again (suc i) ds (
      if is_unreachable (attempts i).status
      then insert_at (clock i + timeout, saddr) later
      else later)

  abbrev without_first : ConnectingPool → ConnectingPool
  without_first q = record q { deferred_connections = drop 1 q.deferred_connections }
