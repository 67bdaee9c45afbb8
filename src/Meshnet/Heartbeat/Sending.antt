-- ===== src/Meshnet/Heartbeat/Sending.antt =====
-- Which sockets a step sends heartbeats to, and when they are due again.
use net_lib.Meshnet.Heartbeat.{
  Heartbeat, heartbeat_sent, enqueue, remove_items, remove, add, take_due, enqueue_all, send_due,
}
use net_lib.Prelude.TimeSet.{insert_at}
use net_lib.Prelude.{
  ℕ, suc, ◌+◌, ◌≤◌, ◌<◌, ◌≡◌, ◌≢◌, refl, ==_self, sym, ap, ◌∙◌, arith, true, false, List, [], ◌∷◌,
  ◌++◌, append_assoc, append-nil, map, ltb, leb, ◌==◌, All, All-append,
}

abbrev pub sockets : List (ℕ × ℕ) → List ℕ
sockets [] = []
sockets ((t, sid) ∷ q) = sid ∷ sockets q

-- The next heartbeats of some sockets, in order.
abbrev pub next_items : (ℕ → ℕ) → ℕ → ℕ → List ℕ → List (ℕ × ℕ)
next_items clock interval i [] = []
next_items clock interval i (sid ∷ sids) =
    (clock i + interval, sid) ∷ next_items clock interval (suc i) sids

insert_at_end :
    (t sid : ℕ) (q : List (ℕ × ℕ))
    → All (λ d. d.0 < t) q
    → insert_at (t, sid) q ≡ q ++ ((t, sid) ∷ [])
unfolding insert_at
insert_at_end t sid [] a = refl
insert_at_end t sid ((u, s) ∷ q) (lt, a) =
    let behind : ltb t u ≡ false = ground arith in
    let apart : (t == u) ≡ false = ground arith in
    rw (behind, apart) (ap (◌∷◌ (u, s)) (insert_at_end t sid q a))

take_due-append :
    (now : ℕ) (due rest : List (ℕ × ℕ))
    → All (λ d. d.0 ≤ now) due
    → All (λ d. now < d.0) rest
    → take_due now (due ++ rest) ≡ (sockets due, rest)
unfolding take_due
take_due-append now [] [] d r = refl
take_due-append now [] ((t, sid) ∷ rest) d (lt, r) =
    let wait : leb t now ≡ false = ground arith in rw wait refl
take_due-append now ((t, sid) ∷ due) rest (le, d) r =
    let ready : leb t now ≡ true = ground arith in
    let x = take_due-append now due rest d r in rw (ready, x) refl

weaken-All : (t u : ℕ) (q : List (ℕ × ℕ)) → t ≤ u → All (λ d. d.0 < t) q → All (λ d. d.0 < u) q
weaken-All t u [] le a = tt
weaken-All t u (d ∷ q) le (lt, a) = (omega arith, weaken-All t u q le a)

enqueue_all_lem :
    (clock : ℕ → ℕ) (i : ℕ) (sids : List ℕ) (h : Heartbeat)
    → ((k : ℕ) → clock k < clock (suc k))
    → All (λ d. d.0 < clock i + h.interval) h.q
    → enqueue_all clock i sids h ≡ record h { q = h.q ++ next_items clock h.interval i sids }
unfolding enqueue_all enqueue
enqueue_all_lem clock i [] h up a = ap (λ q. record h { q = q }) (sym (append-nil h.q))
enqueue_all_lem clock i (sid ∷ sids) h up a =
    let t = clock i + h.interval in
    let h1 : Heartbeat = record h { q = h.q ++ ((t, sid) ∷ []) } in
    let u = clock (suc i) + h.interval in
    let lt : t < u = (let x = up i in omega arith) in
    let b : All (λ d. d.0 < u) h1.q =
      All-append _ h.q ((t, sid) ∷ []) (weaken-All t u h.q (omega arith) a) (lt, tt) in
    rw (insert_at_end t sid h.q a) (
      enqueue_all_lem clock (suc i) sids h1 up b
      ∙ ap (λ q. record h { q = q })
          (append_assoc h.q ((t, sid) ∷ []) (next_items clock h.interval (suc i) sids)))

-- When the queue is some items that are due followed by some that are not, the readings of the
-- clock increase strictly, and the items that stay are earlier than the first new one, a step
-- sends exactly one heartbeat to each socket that is due, in order, and queues each of them
-- again, behind the others, an interval after its own reading.
pub send_due_lem :
    (h : Heartbeat) (now : ℕ) (clock : ℕ → ℕ) (due rest : List (ℕ × ℕ))
    → h.q ≡ due ++ rest
    → All (λ d. d.0 ≤ now) due
    → All (λ d. now < d.0) rest
    → All (λ d. d.0 < clock 0 + h.interval) rest
    → ((k : ℕ) → clock k < clock (suc k))
    → send_due h now clock ≡ record h {
      q = rest ++ next_items clock h.interval 0 (sockets due);
      log = h.log ++ map heartbeat_sent (sockets due);
    }
unfolding send_due
send_due_lem h now clock due rest e d r b up =
    let x : take_due now h.q ≡ (sockets due, rest) = rw e (take_due-append now due rest d r) in
    rw x (
      enqueue_all_lem clock 0 (sockets due)
        (record h { q = rest; log = h.log ++ map heartbeat_sent (sockets due) }) up b)

-- When two different sockets are added to an empty queue at the same reading of the clock, the
-- second is not queued.
pub add-add :
    (h : Heartbeat) (now a b : ℕ)
    → h.q ≡ []
    → a ≢ b
    → (add (add h now a) now b).q ≡ (now + h.interval, a) ∷ []
unfolding add enqueue remove remove_items insert_at
add-add h now a b e ne =
    let other : (a == b) ≡ false = ground arith in
    let t = now + h.interval in
    let same : (t == t) ≡ true = ==_self t in
    let before : ltb t t ≡ false = ground arith in rw (e, other, before, same) refl
