-- ===== src/Meshnet/Heartbeat/Tests.antt =====
-- Three sockets, one of them silent for too long.
use net_lib.Meshnet.Handshake.Expiry.{is_due}
use net_lib.Meshnet.Heartbeat.{Heartbeat, expired, heartbeat_sent, step}
use net_lib.Meshnet.Heartbeat.Limits.{remove_all, step_lem}
use net_lib.Meshnet.Heartbeat.Sending.{sockets}
use net_lib.Prelude.Dict.{find}
use net_lib.Prelude.{
  done, List, ◌++◌, map, mem, none, false, if◌then◌else◌, ℕ, ◌+◌, ◌≡◌, refl, arith, [], ◌∷◌,
}

abbrev beats : Heartbeat
beats = record {
  interval = 10;
  q = (100, 1) ∷ (101, 2) ∷ (105, 3) ∷ [];
  limits = (2, 90) ∷ (3, 200) ∷ [];
  log = [];
}

abbrev clock : ℕ → ℕ
clock i = 102 + i

-- Socket 2 gets a heartbeat, and is then taken as lost; it has no other socket in its channel.
step_lem_example :
    let queued : List (ℕ × ℕ) = (105, 3) ∷ (112, 1) ∷ (113, 2) ∷ [] in
    (h' : Heartbeat) × (sids : List ℕ) × (step (λ s. none) beats 102 104 clock ≡ done h')
    × (h'.log ≡ (heartbeat_sent 1 ∷ heartbeat_sent 2 ∷ []) ++ map expired sids)
    × (h'.q ≡ remove_all sids queued)
    × ((j : ℕ)
        → (mem j sids ≡ is_due 104 (find j beats.limits))
          × (find j h'.limits
              ≡ (if is_due 104 (find j beats.limits) then none else find j beats.limits))
          × (mem j (sockets h'.q)
              ≡ (if is_due 104 (find j beats.limits) then false else mem j (sockets queued))))
unfolding find
step_lem_example =
    step_lem (λ s. none) beats 102 104 clock ((100, 1) ∷ (101, 2) ∷ []) ((105, 3) ∷ []) refl
      (omega arith, (omega arith, tt)) (omega arith, tt) (omega arith, tt) (λ k. omega arith)
      (refl, (refl, tt)) ((λ e. refl), ((λ e. refl), tt))
