-- ===== src/Net/ListenerPool/Tests.antt =====
-- Two listeners, one of which cannot listen.
use net_lib.Net.ListenerPool.{
  on_failure, Answers, ListenerPool, record_events, poller_accept, on_poller, apply_remove,
}
use net_lib.Net.ListenerPool.Listening.{on_poller-apply_remove}
use net_lib.Prelude.{◌≡◌, false, [], ◌∷◌, some, ◌==◌}

abbrev answers : Answers
answers = record {
  listen_succeeds = λ id. id == 1;
  listen_fails = λ id. id == 2;
  add_fails = λ id. false;
  accept = λ id. some 9;
}

abbrev pool : ListenerPool
pool = record { listeners = (1, 1) ∷ (2, 2) ∷ []; removable = 2 ∷ []; log = [] }

on_poller-apply_remove_example :
    on_poller answers (apply_remove pool) (poller_accept 2)
    ≡ record_events (apply_remove pool) (on_failure ∷ [])
on_poller-apply_remove_example = on_poller-apply_remove answers pool 2
