-- ===== src/Meshnet/Heartbeat/Limits.antt =====
-- Which sockets a step takes as lost.
use net_lib.Meshnet.Handshake.Expiry.{is_due}
use net_lib.Meshnet.Heartbeat.{
  check_each, Heartbeat, expired, heartbeat_sent, enqueue, enqueue_all, take_due, send_due,
  remove_items, check_limits, step,
}
use net_lib.Meshnet.Heartbeat.Sending.{next_items, send_due_lem, sockets}
use net_lib.Prelude.Dict.{find, Distinct}
use net_lib.Prelude.{
  append_assoc, append-nil, Option, done, All, ◌≤◌, ◌<◌, ◌+◌, ℕ, suc, ◌≡◌, refl, sym, ap, ◌∙◌,
  arith, false, List, [], ◌∷◌, ◌++◌, map, none, leb, ◌==◌, ==_iff, if◌then◌else◌, mem, inl, inr,
  Bool-cases,
}

-- The limits that stay, and the sockets whose time has come.
unfoldable pub expire : ℕ → List (ℕ × ℕ) → List (ℕ × ℕ) × List ℕ
expire now [] = ([], [])
expire now ((sid, t) ∷ m) =
    let r = expire now m in if leb t now then (r.0, sid ∷ r.1) else ((sid, t) ∷ r.0, r.1)

unfoldable pub remove_all : List ℕ → List (ℕ × ℕ) → List (ℕ × ℕ)
remove_all [] q = q
remove_all (sid ∷ sids) q = remove_all sids (remove_items sid q)

expire-find :
    (now j : ℕ) (m : List (ℕ × ℕ))
    → Distinct m
    → (find j (expire now m).0 ≡ (if is_due now (find j m) then none else find j m))
      × (mem j (expire now m).1 ≡ is_due now (find j m))
unfolding expire find
expire-find now j [] d = (refl, refl)
expire-find now j ((sid, t) ∷ m) (f, d) =
    let (x, y) = expire-find now j m d in
    elim (Bool-cases (sid == j)) [
      | inr n ↦ elim (Bool-cases (leb t now)) [
        | inl due ↦ rw (due, n) (x, ground (arith, y, n))
        | inr more ↦ rw (more, n) (x, y)
      ]
      | inl e ↦
          let none_left : find j m ≡ none = rw (sym ((==_iff sid j).0 e)) f in
          elim (Bool-cases (leb t now)) [
            | inl due ↦ rw (due, e, due) (x ∙ rw none_left refl, ground (arith, e))
            | inr more ↦ rw (more, e, more) (refl, y ∙ rw none_left refl)
          ]
    ]

mem-remove_items :
    (sid j : ℕ) (q : List (ℕ × ℕ))
    → mem j (sockets (remove_items sid q)) ≡ (if sid == j then false else mem j (sockets q))
unfolding remove_items
mem-remove_items sid j [] = ground arith
mem-remove_items sid j ((t, s) ∷ q) = ground (arith, mem-remove_items sid j q)

mem-remove_all :
    (sids : List ℕ) (j : ℕ) (q : List (ℕ × ℕ))
    → mem j (sockets (remove_all sids q)) ≡ (if mem j sids then false else mem j (sockets q))
unfolding remove_all
mem-remove_all [] j q = refl
mem-remove_all (sid ∷ sids) j q =
    ground (arith, mem-remove_all sids j (remove_items sid q), mem-remove_items sid j q)

enqueue_all-limits :
    (clock : ℕ → ℕ) (i : ℕ) (sids : List ℕ) (h : Heartbeat)
    → (enqueue_all clock i sids h).limits ≡ h.limits
unfolding enqueue_all enqueue
enqueue_all-limits clock i [] h = refl
enqueue_all-limits clock i (sid ∷ sids) h =
    enqueue_all-limits clock (suc i) sids (enqueue h (clock i) sid)

-- The sockets whose limit has come have no other socket in their channel.
abbrev pub Alone : (ℕ → Option ℕ) → ℕ → List (ℕ × ℕ) → Type 0
Alone also now limits = All (λ d. d.1 ≤ now → also d.0 ≡ none) limits

-- What the loop over the limits leaves.
abbrev left : ℕ → List (ℕ × ℕ) → List (ℕ × ℕ) → Heartbeat → Heartbeat
left now passed todo h =
    let r = expire now todo in
    record h { q = remove_all r.1 h.q; limits = passed ++ r.0; log = h.log ++ map expired r.1 }

check_each_lem :
    (also : ℕ → Option ℕ) (now : ℕ) (passed todo : List (ℕ × ℕ)) (h : Heartbeat)
    → Alone also now todo
    → check_each also now [] passed todo h ≡ done (left now passed todo h)
unfolding check_each expire remove_all
check_each_lem also now passed [] h a = rw (append-nil passed, append-nil h.log) refl
check_each_lem also now passed ((sid, t) ∷ m) h (one, a) = elim (Bool-cases (leb t now)) [
  | inr wait ↦
      rw (check_each, wait)
        (check_each_lem also now (passed ++ (sid, t) ∷ []) m h a
          ∙ rw (append_assoc passed ((sid, t) ∷ []) (expire now m).0) refl)
  | inl due ↦
      let alone : also sid ≡ none = one (ground arith) in
      let h' : Heartbeat = record h { q = remove_items sid h.q; log = h.log ++ expired sid ∷ [] } in
      rw (check_each, due, alone)
        (check_each_lem also now passed m h' a
          ∙ rw (append_assoc h.log (expired sid ∷ []) (map expired (expire now m).1)) refl)
]

-- With no
pub step-expired :
    (also : ℕ → Option ℕ) (h : Heartbeat) (now later : ℕ) (clock : ℕ → ℕ)
    → Distinct h.limits
    → Alone also later h.limits
    → let m = send_due h now clock in
      (h' : Heartbeat) × (sids : List ℕ) × (step also h now later clock ≡ done h')
      × (h'.log ≡ m.log ++ map expired sids)
      × (h'.q ≡ remove_all sids m.q)
      × ((j : ℕ)
          → (mem j sids ≡ is_due later (find j h.limits))
            × (find j h'.limits
                ≡ (if is_due later (find j h.limits) then none else find j h.limits))
            × (mem j (sockets h'.q)
                ≡ (if is_due later (find j h.limits) then false else mem j (sockets m.q))))
unfolding step check_limits send_due
step-expired also h now later clock distinct alone =
    let m = send_due h now clock in
    let same : m.limits ≡ h.limits = enqueue_all-limits clock 0 (take_due now h.q).0 _ in
    let sids = (expire later h.limits).1 in
    let run = check_each_lem also later [] h.limits m alone in
    (
      left later [] h.limits m,
      sids,
      ap (λ l. check_each also later [] [] l m) same ∙ run,
      refl,
      refl,
      λ j.
          (let (x, y) = expire-find later j h.limits distinct in
            (y, x, mem-remove_all sids j m.q ∙ rw y refl)),
    )

-- When the queue is some items that are due followed by some that are not, the readings of the
-- clock increase strictly, the items that stay are earlier than the first new one, no socket
-- stands twice in the limits, and those whose limit has come have no other socket in their
-- channel: a step ends without a fault. It sends exactly one heartbeat to each socket that is
-- due, in order, and puts each of them behind the others, an interval after its own reading; it
-- then reports exactly the sockets whose limit has come, drops their limits and no other, and
-- removes all their items, those just put there too, and keeps those of every other socket.
pub step_lem :
    (also : ℕ → Option ℕ) (h : Heartbeat) (now later : ℕ) (clock : ℕ → ℕ) (due rest : List (ℕ × ℕ))
    → h.q ≡ due ++ rest
    → All (λ d. d.0 ≤ now) due
    → All (λ d. now < d.0) rest
    → All (λ d. d.0 < clock 0 + h.interval) rest
    → ((k : ℕ) → clock k < clock (suc k))
    → Distinct h.limits
    → Alone also later h.limits
    → let queued = rest ++ next_items clock h.interval 0 (sockets due) in
      (h' : Heartbeat) × (sids : List ℕ) × (step also h now later clock ≡ done h')
      × (h'.log ≡ (h.log ++ map heartbeat_sent (sockets due)) ++ map expired sids)
      × (h'.q ≡ remove_all sids queued)
      × ((j : ℕ)
          → (mem j sids ≡ is_due later (find j h.limits))
            × (find j h'.limits
                ≡ (if is_due later (find j h.limits) then none else find j h.limits))
            × (mem j (sockets h'.q)
                ≡ (if is_due later (find j h.limits) then false else mem j (sockets queued))))
step_lem also h now later clock due rest e d r b up distinct alone =
    rw (send_due_lem h now clock due rest e d r b up) at
      (step-expired also h now later clock distinct alone)
