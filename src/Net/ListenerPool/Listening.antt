-- ===== src/Net/ListenerPool/Listening.antt =====
-- Which listeners are polled, and what becomes of a connection to a removed one.
use net_lib.Net.ListenerPool.{
  Event, on_failure, on_accepted, poller_added, poller_removed, Answers, ListenerPool,
  record_events, listen_one, listen_all, listen, poller_accept, accept_from, on_poller,
  remove_listeners, apply_remove,
}
use net_lib.Prelude.Dict.{find, erase, find-erase}
use net_lib.Prelude.{
  ℕ, ◌≡◌, refl, ap, ◌∙◌, arith, false, ◌||◌, List, [], ◌∷◌, ◌++◌, Option, none, some, if◌then◌else◌,
  mem, inl, inr, Bool-cases, Option-cases,
}

-- The listeners that were added to the poller.
unfoldable pub polled : List Event → List ℕ
polled [] = []
polled (poller_added id ∷ es) = id ∷ polled es
polled (on_failure ∷ es) = polled es
polled (on_accepted peer ∷ es) = polled es
polled (poller_removed id ∷ es) = polled es

-- The listeners whose `listen` succeeds.
abbrev pub ready : Answers → List (ℕ × ℕ) → List ℕ
ready a [] = []
ready a ((id, listener) ∷ m) =
    if a.listen_succeeds listener then listener ∷ ready a m else ready a m

polled-listen_one :
    (a : Answers) (id : ℕ) (es : List Event)
    → polled (listen_one a id ++ es) ≡ (if a.listen_succeeds id then id ∷ polled es else polled es)
unfolding listen_one polled
polled-listen_one a id es = elim (Bool-cases (a.listen_succeeds id)) [
  | inl s ↦ elim (Bool-cases (a.listen_fails id || a.add_fails id)) [
    | inl t ↦ rw (s, t) refl
    | inr t ↦ rw (s, t) refl
  ]
  | inr s ↦ elim (Bool-cases (a.listen_fails id || false)) [
    | inl t ↦ rw (s, t) refl
    | inr t ↦ rw (s, t) refl
  ]
]

-- Whatever the listeners and the poller answer, listen adds to the poller exactly the listeners
-- that listen successfully, in order, and keeps all of them.
pub listen_lem :
    (a : Answers) (p : ListenerPool)
    → (es : List Event) × ((listen a p).log ≡ p.log ++ es)
      × (polled es ≡ ready a p.listeners)
      × ((listen a p).listeners ≡ p.listeners)
unfolding listen polled listen_all
listen_lem a p = (listen_all a p.listeners, refl, go p.listeners, refl)
  where
    go : (m : List (ℕ × ℕ)) → polled (listen_all a m) ≡ ready a m
    go [] = refl
    go ((id, listener) ∷ m) = polled-listen_one a listener (listen_all a m) ∙ rw (go m) refl

find-remove_listeners :
    (j : ℕ) (ids : List ℕ) (m : List (ℕ × ℕ))
    → find j (remove_listeners ids m) ≡ (if mem j ids then none else find j m)
unfolding remove_listeners
find-remove_listeners j [] m = refl
find-remove_listeners j (id ∷ ids) m =
    ground (arith, find-remove_listeners j ids (erase id m), find-erase id j m)

-- What is reported for a connection to a listener that is known or not.
abbrev pub accept_report : Answers → Option ℕ → ℕ → Event
accept_report a none id = on_failure
accept_report a (some _) id = accept_from a id

on_poller-accept :
    (a : Answers) (p : ListenerPool) (id : ℕ)
    → on_poller a p (poller_accept id)
      ≡ record_events p (accept_report a (find id p.listeners) id ∷ [])
unfolding on_poller
on_poller-accept a p id = elim (Option-cases (find id p.listeners)) [
  | inl e ↦ rw (on_poller, e) refl
  | inr (x, e) ↦ rw (on_poller, e) refl
]

-- After apply_remove a connection to a listener that was marked is reported as a failure; on any
-- other it is treated as before the removal, as accepted if the listener is there and accepts,
-- and as a failure otherwise.
pub on_poller-apply_remove :
    (a : Answers) (p : ListenerPool) (id : ℕ)
    → on_poller a (apply_remove p) (poller_accept id)
      ≡ record_events (apply_remove p) (
          (if mem id p.removable then on_failure else accept_report a (find id p.listeners) id)
          ∷ [])
unfolding apply_remove
on_poller-apply_remove a p id =
    on_poller-accept a (apply_remove p) id
    ∙ ap (λ (o : Option ℕ). record_events (apply_remove p) (accept_report a o id ∷ []))
        (find-remove_listeners id p.removable p.listeners)
    ∙ (elim (Bool-cases (mem id p.removable)) [ inl t ↦ rw t refl | inr t ↦ rw t refl ])
