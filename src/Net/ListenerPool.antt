-- ===== src/Net/ListenerPool.antt =====
-- include/pfs/netty/listener_pool.hpp. What the listeners and the poller answer is an argument;
-- callbacks and calls of the poller are logged, oldest first. A listener is its identifier.
pub mod Listening
mod Tests
use net_lib.Prelude.Dict.{find, insert, erase}
use net_lib.Prelude.{
  ℕ, Bool, true, false, ◌||◌, ◌&&◌, List, [], ◌∷◌, ◌++◌, Option, none, some, if◌then◌else◌,
}

pub data Event : Type 0 where
  on_failure : Event
  -- The identifier of the peer socket.
  on_accepted : ℕ → Event
  poller_added poller_removed : ℕ → Event

-- For a listener: whether `listen` succeeds, whether it sets the error, whether the poller sets the
-- error on adding it, and the peer socket that `accept_nonblocking` gives, if no error.
pub record Answers : Type 0 where
  pub listen_succeeds : ℕ → Bool
  pub listen_fails : ℕ → Bool
  pub add_fails : ℕ → Bool
  pub accept : ℕ → Option ℕ

pub record ListenerPool : Type 0 where
  -- The keys are what matters.
  pub listeners : List (ℕ × ℕ)
  pub removable : List ℕ
  pub log : List Event

abbrev pub record_events : ListenerPool → List Event → ListenerPool
record_events p es = record p { log = p.log ++ es }

-- A listener that could not be created is not kept.
unfoldable pub add : ListenerPool → Option ℕ → ListenerPool
add p none = p
add p (some id) = record p { listeners = insert id id p.listeners }

unfoldable pub remove_later : ListenerPool → ℕ → ListenerPool
remove_later p id = record p { removable = p.removable ++ (id ∷ []) }

-- What the body of the loop of `listen` calls.
unfoldable pub listen_one : Answers → ℕ → List Event
listen_one a id =
    let success = a.listen_succeeds id in
    let err = a.listen_fails id || (success && a.add_fails id) in
    (if success then poller_added id ∷ [] else []) ++ (if err then on_failure ∷ [] else [])

unfoldable pub listen_all : Answers → List (ℕ × ℕ) → List Event
listen_all a [] = []
listen_all a ((id, listener) ∷ m) = listen_one a listener ++ listen_all a m

unfoldable pub listen : Answers → ListenerPool → ListenerPool
listen a p = record_events p (listen_all a p.listeners)

-- What the poller reports.
pub data PollerEvent : Type 0 where
  poller_failure poller_accept : ℕ → PollerEvent

unfoldable pub accept_from : Answers → ℕ → Event
accept_from a id = elim (a.accept id) [ none ↦ on_failure | some peer ↦ on_accepted peer ]

unfoldable pub on_poller : Answers → ListenerPool → PollerEvent → ListenerPool
unfolding remove_later accept_from
on_poller a p (poller_failure id) = record_events (remove_later p id) (on_failure ∷ [])
on_poller a p (poller_accept id) = elim (find id p.listeners) [
  | none ↦ record_events p (on_failure ∷ [])
  | some _ ↦ record_events p (accept_from a id ∷ [])
]

unfoldable pub step : Answers → ListenerPool → List PollerEvent → ListenerPool
step a p [] = p
step a p (e ∷ es) = step a (on_poller a p e) es

unfoldable pub remove_listeners : List ℕ → List (ℕ × ℕ) → List (ℕ × ℕ)
remove_listeners [] m = m
remove_listeners (id ∷ ids) m = remove_listeners ids (erase id m)

unfoldable pub removal_events : List ℕ → List Event
removal_events [] = []
removal_events (id ∷ ids) = poller_removed id ∷ removal_events ids

unfoldable pub apply_remove : ListenerPool → ListenerPool
apply_remove p = record {
  listeners = remove_listeners p.removable p.listeners;
  removable = [];
  log = p.log ++ removal_events p.removable;
}
