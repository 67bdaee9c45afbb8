-- ===== src/Net/WriterPool/Send.antt =====
-- One pass over the accounts: what the sockets take is what the queues lose.
use net_lib.Net.QueueOps.{QueueOps, StreamLaws}
use net_lib.Net.WriterPool.{
  SendStatus, failure, good, again, overflow, network, Env, Event, wait_for_write, poller_remove,
  on_failure, on_bytes_written, sent, u64, Side, record_event, fail_account, Account, after_write,
  write_good, on_sent, write_frame, send_account,
}
use net_lib.Prelude.{
  ℕ, ◌+◌, ◌%◌, ◌≤◌, ◌<◌, ◌≡◌, refl, sym, ap, ◌∙◌, arith, Bool, true, false, List, [], ◌∷◌, ◌++◌,
  ltb, ◌==◌, if◌then◌else◌, is_nil, length, take, Bytes, done, ◌>>=◌, inl, inr, Bool-cases,
  append-nil, append_assoc, take-take, take-append-drop, length-take,
}

-- The bytes that the log says socket `id` took, in order.
unfoldable pub sent_to : ℕ → List Event → Bytes
sent_to id [] = []
sent_to id (sent j bytes ∷ es) = if j == id then bytes ++ sent_to id es else sent_to id es
sent_to id (wait_for_write j ∷ es) = sent_to id es
sent_to id (poller_remove j ∷ es) = sent_to id es
sent_to id (on_failure j ∷ es) = sent_to id es
sent_to id (on_bytes_written j n ∷ es) = sent_to id es

pub sent_to-append :
    (id : ℕ) (es fs : List Event) → sent_to id (es ++ fs) ≡ sent_to id es ++ sent_to id fs
unfolding sent_to
sent_to-append id [] fs = refl
sent_to-append id (sent j bytes ∷ es) fs =
    ground (arith, sent_to-append id es fs, append_assoc bytes (sent_to id es) (sent_to id fs))
sent_to-append id (wait_for_write j ∷ es) fs = sent_to-append id es fs
sent_to-append id (poller_remove j ∷ es) fs = sent_to-append id es fs
sent_to-append id (on_failure j ∷ es) fs = sent_to-append id es fs
sent_to-append id (on_bytes_written j n ∷ es) fs = sent_to-append id es fs

-- An event that is no send.
pub sent_to_quiet :
    (id : ℕ) (es : List Event) (e : Event)
    → sent_to id (e ∷ []) ≡ []
    → sent_to id (es ++ (e ∷ [])) ≡ sent_to id es
sent_to_quiet id es e q = sent_to-append id es (e ∷ []) ∙ ap (◌++◌ (sent_to id es)) q ∙ append-nil _

-- A socket takes no more than it is given.
abbrev pub IsHonest : Env → Type 0
IsHonest env = (id : ℕ) (frame : Bytes) → (env.send id frame).n ≤ length frame

sent_to_write :
    (env : Env) (id j n : ℕ) (bytes : Bytes)
    → sent_to j
        (sent id bytes ∷ (if env.has_on_bytes_written then on_bytes_written id n ∷ [] else []))
      ≡ (if id == j then bytes else [])
unfolding sent_to
sent_to_write env id j n bytes = ground (arith, append-nil bytes)

module _ (o : QueueOps) (laws : StreamLaws o) where
  -- From `acc` and `s` to `r` the socket took `out`, the front of what was pending.
  pub record Moves (acc : Account o) (s : Side) (r : Account o × Side) : Type 0 where
    pub same_id : r.0.id ≡ acc.id
    pub same_size : r.0.frame_size ≡ acc.frame_size
    pub valid : laws.IsValid r.0.q
    pub out : Bytes
    pub conserved : out ++ laws.pending r.0.q ≡ laws.pending acc.q
    pub logged : (j : ℕ) → sent_to j r.1.log ≡ sent_to j s.log ++ (if acc.id == j then out else [])
    pub counted : (r.1.remain_bytes + length out) % u64 ≡ s.remain_bytes
    pub bounded : r.1.remain_bytes < u64

  if_same : (b : Bool) → (if b then [] else []) ≡ (let e : Bytes = [] in e)
  if_same true = refl
  if_same false = refl

  -- Nothing is taken, and at most an event is logged.
  Moves-idle :
      (acc acc' : Account o) (s s' : Side)
      → acc'.id ≡ acc.id
      → acc'.frame_size ≡ acc.frame_size
      → acc'.q ≡ acc.q
      → laws.IsValid acc.q
      → s'.remain_bytes ≡ s.remain_bytes
      → s.remain_bytes < u64
      → ((j : ℕ) → sent_to j s'.log ≡ sent_to j s.log)
      → Moves acc s (acc', s')
  Moves-idle acc acc' s s' i z e v r b l = record {
    same_id = i;
    same_size = z;
    valid = rw e v;
    out = [];
    conserved = ap laws.pending e;
    logged = λ j. l j ∙ sym (ap (◌++◌ (sent_to j s.log)) (if_same (acc.id == j)) ∙ append-nil _);
    counted = omega arith;
    bounded = omega arith;
  }

  Moves-quiet :
      (acc acc' : Account o) (s s' : Side) (e : Event)
      → acc'.id ≡ acc.id
      → acc'.frame_size ≡ acc.frame_size
      → acc'.q ≡ acc.q
      → laws.IsValid acc.q
      → s'.remain_bytes ≡ s.remain_bytes
      → s.remain_bytes < u64
      → s'.log ≡ s.log ++ (e ∷ [])
      → ((j : ℕ) → sent_to j (e ∷ []) ≡ [])
      → Moves acc s (acc', s')
  Moves-quiet acc acc' s s' e i z q v r b l quiet =
      Moves-idle acc acc' s s' i z q v r b
        (λ j. ap (sent_to j) l ∙ sent_to_quiet j s.log e (quiet j))

  write_good-Moves :
      (env : Env) (acc : Account o) (s : Side) (f : Bytes) (n : ℕ)
      → laws.IsValid acc.q
      → s.remain_bytes < u64
      → acc.frame_size < u64
      → o.empty acc.q ≡ false
      → o.frame acc.q acc.frame_size ≡ done f
      → f ≡ take (length f) (laws.pending acc.q)
      → length f ≤ acc.frame_size
      → n ≤ length f
      → (r : Account o × Side) × (write_good o env acc s f n ≡ done r) × Moves acc s r
  unfolding write_good
  write_good-Moves env acc s f n v b z ne fe pre fits h =
      let (q', se, pe, v') = laws.shift_lem acc.q acc.frame_size n f v ne fe h in
      (
        after_write o env acc s f n q',
        rw (se, write_good),
        record {
          same_id = refl;
          same_size = refl;
          valid = v';
          out = take n f;
          conserved =
              ap (λ l. l ++ laws.pending q') (ap (take n) pre ∙ take-take n (length f) _ h)
              ∙ ap (◌++◌ (take n (laws.pending acc.q))) pe
              ∙ take-append-drop n (laws.pending acc.q);
          logged = λ j.
              sent_to-append j s.log _
              ∙ ap (◌++◌ (sent_to j s.log)) (sent_to_write env acc.id j n (take n f));
          counted = omega (arith, length-take n f);
          bounded = omega arith;
        },
      )

  again-Moves :
      (acc : Account o) (s : Side)
      → laws.IsValid acc.q
      → s.remain_bytes < u64
      → (r : Account o × Side) × (done (
            if acc.writable
            then (record acc { writable = false }, record_event s (wait_for_write acc.id))
            else (acc, s))
          ≡ done r)
        × Moves acc s r
  unfolding sent_to
  again-Moves acc s v b = elim (Bool-cases acc.writable) [
    | inl t ↦ (
      (record acc { writable = false }, record_event s (wait_for_write acc.id)),
      rw t,
      Moves-quiet acc _ s _ (wait_for_write acc.id) refl refl refl v refl b refl (λ j. refl),
    )
    | inr e ↦ ((acc, s), rw e, Moves-idle acc acc s s refl refl refl v refl b (λ j. refl))
  ]

  on_sent-Moves :
      (env : Env) (acc : Account o) (s : Side) (f : Bytes) (st : SendStatus) (n : ℕ)
      → laws.IsValid acc.q
      → s.remain_bytes < u64
      → acc.frame_size < u64
      → o.empty acc.q ≡ false
      → o.frame acc.q acc.frame_size ≡ done f
      → f ≡ take (length f) (laws.pending acc.q)
      → length f ≤ acc.frame_size
      → n ≤ length f
      → (r : Account o × Side) × (on_sent o env acc s f st n ≡ done r) × Moves acc s r
  unfolding on_sent sent_to
  on_sent-Moves env acc s f failure n v b z ne fe pre fits h = (
    _,
    refl,
    Moves-quiet acc acc s (fail_account s acc.id) (on_failure acc.id) refl refl refl v refl b refl
        (λ j. refl),
  )
  on_sent-Moves env acc s f network n v b z ne fe pre fits h = (
    _,
    refl,
    Moves-quiet acc acc s (fail_account s acc.id) (on_failure acc.id) refl refl refl v refl b refl
        (λ j. refl),
  )
  on_sent-Moves env acc s f again n v b z ne fe pre fits h = again-Moves acc s v b
  on_sent-Moves env acc s f overflow n v b z ne fe pre fits h = again-Moves acc s v b
  on_sent-Moves env acc s f good n v b z ne fe pre fits h = elim (Bool-cases (ltb 0 n)) [
    | inl t ↦ rw t (write_good-Moves env acc s f n v b z ne fe pre fits h)
    | inr e ↦ rw e ((acc, s), refl, Moves-idle acc acc s s refl refl refl v refl b (λ j. refl))
  ]

  write_frame-Moves :
      (env : Env) (acc : Account o) (s : Side)
      → IsHonest env
      → laws.IsValid acc.q
      → s.remain_bytes < u64
      → acc.frame_size < u64
      → o.empty acc.q ≡ false
      → (r : Account o × Side) × (write_frame o env acc s ≡ done r) × Moves acc s r
  unfolding write_frame
  write_frame-Moves env acc s honest v b z ne =
      let (f, fe, pre, fits, _) = laws.frame_lem acc.q acc.frame_size v ne in
      elim (Bool-cases (is_nil f)) [
        | inl t ↦ (
          (acc, s),
          rw (fe, ◌>>=◌, t),
          Moves-idle acc acc s s refl refl refl v refl b (λ j. refl),
        )
        | inr e ↦
            rw (fe, ◌>>=◌, e) (on_sent-Moves env acc s f _ _ v b z ne fe pre fits (honest acc.id f))
      ]

  -- One turn of the loop over the accounts, on every branch, for a valid queue that keeps the
  -- promise of a byte stream, a socket that takes no more than it is given, and a frame size and
  -- a count of remaining bytes below 2 ^ 64: it does not fail, what the socket took is the front
  -- of what was pending, the queue is valid, the rest is still pending, and the count of
  -- remaining bytes fell by that much modulo 2 ^ 64.
  pub send_account-Moves :
      (env : Env) (acc : Account o) (s : Side)
      → IsHonest env
      → laws.IsValid acc.q
      → s.remain_bytes < u64
      → acc.frame_size < u64
      → (r : Account o × Side) × (send_account o env acc s ≡ done r) × Moves acc s r
  unfolding send_account sent_to
  send_account-Moves env acc s honest v b z = elim (Bool-cases acc.writable) [
    | inr e ↦ simp e ((acc, s), refl, idle)
    | inl t ↦ simp t (elim (Bool-cases (o.empty acc.q)) [
      | inl none_left ↦ rw none_left ((acc, s), refl, idle)
      | inr ne ↦ rw ne (elim (Bool-cases (env.locate_socket acc.id)) [
        | inl found ↦ rw found (write_frame-Moves env acc s honest v b z ne)
        | inr lost ↦ rw lost (
          _,
          refl,
          Moves-quiet acc acc s (fail_account s acc.id) (on_failure acc.id) refl refl refl v refl b
              refl (λ j. refl),
        )
      ])
    ])
  ]
    where
      idle : Moves acc s (acc, s)
      idle = Moves-idle acc acc s s refl refl refl v refl b (λ j. refl)
