-- ===== src/Net/WriterPool/History.antt =====
-- Any sequence of calls of the pool: what each socket took and still has to take, in order.
use net_lib.Net.QueueOps.{QueueOps, StreamLaws}
use net_lib.Net.WriterPool.Send.{sent_to, sent_to_quiet, IsHonest}
use net_lib.Net.WriterPool.Pass.{send_pass-Passes}
use net_lib.Net.WriterPool.Accounts.{find-AccountsOk, locate_account_lem}
use net_lib.Net.WriterPool.Queueing.{
  PoolOk, stream, SameDebt, Queues, Queues-put, Queues-idle, Queues-trans, add_lem, enqueue_lem,
  quiet,
}
use net_lib.Net.WriterPool.Calls.{Call, adds, enqueues, steps, removes_later, run, CallOk, queued}
use net_lib.Net.WriterPool.{
  Env, on_failure, Side, fail_account, Account, Pool, PollerEvent, can_write, poller_failure,
  send_pass, send_passes, remove_later, on_poller, poll, step,
}
use net_lib.Prelude.Dict.{find, insert}
use net_lib.Prelude.{
  ℕ, ◌≡◌, refl, sym, ap, ◌∙◌, arith, true, List, [], ◌∷◌, ◌++◌, ◌==◌, done, ◌>>=◌, inl, inr,
  Option-cases, append-nil, append_assoc, All,
}

module _ (o : QueueOps) (laws : StreamLaws o) where
  pass_lem :
      (p : Pool o) (env : Env)
      → IsHonest env
      → PoolOk o laws p
      → (r : List (ℕ × Account o) × Side) × (send_pass o env p.accounts p.side ≡ done r)
        × Queues o laws p (record { accounts = r.0; side = r.1 }) 0 []
  pass_lem p env honest pok =
      let (r, e, ps) = send_pass-Passes o laws env p.accounts p.side honest pok.ok pok.bounded in
      (
        r,
        e,
        record {
          after = record { ok = ps.ok; bounded = ps.bounded };
          streams = λ j. ps.stream j ∙ sym (quiet o laws (0 == j) (stream o laws j p));
          debt = ps.counted;
        },
      )

  send_passes_lem :
      (p : Pool o) (env : Env) (more : List Env)
      → IsHonest env
      → All IsHonest more
      → PoolOk o laws p
      → (p' : Pool o) × (send_passes o p env more ≡ done p') × Queues o laws p p' 0 []
  unfolding send_passes
  send_passes_lem p env [] honest hs pok =
      let (r, e, x) = pass_lem p env honest pok in (record { accounts = r.0; side = r.1 }, rw e, x)
  send_passes_lem p env (next ∷ more) honest hs pok =
      let (r, e, x) = pass_lem p env honest pok in
      let q : Pool o = record { accounts = r.0; side = r.1 } in
      let (p', f, y) = send_passes_lem q next more hs.0 hs.1 x.after in
      (p', rw (e, ◌>>=◌) f, Queues-trans o laws p q p' 0 0 [] x y)

  on_poller_lem :
      (p : Pool o) (e : PollerEvent o)
      → PoolOk o laws p
      → (p' : Pool o) × (on_poller o p e ≡ done p') × Queues o laws p p' 0 []
  unfolding on_poller sent_to
  on_poller_lem p (poller_failure id) pok = (
    record p { side = fail_account p.side id },
    refl,
    Queues-idle o laws p _ 0 pok refl refl (λ j. sent_to_quiet j p.log (on_failure id) refl),
  )
  on_poller_lem p (can_write id) pok = elim (Option-cases (find id p.accounts)) [
    | inl e ↦ (
      p,
      rw (locate_account_lem o laws p.accounts id pok.ok, e),
      Queues-idle o laws p p 0 pok refl refl (λ j. refl),
    )
    | inr (a, e) ↦
        let (i, v, z) = find-AccountsOk o laws id p.accounts pok.ok e in
        let x =
          Queues-put o laws p p.side id (record a { writable = true }) [] pok i v z (λ j. refl)
            (rw e (sym (append-nil _))) (omega (arith, pok.bounded)) in
        (
          record p { accounts = insert id (record a { writable = true }) p.accounts },
          rw (locate_account_lem o laws p.accounts id pok.ok, e),
          record {
            after = x.after;
            streams = λ j. x.streams j ∙ quiet o laws (id == j) _ ∙ sym (quiet o laws (0 == j) _);
            debt = x.debt;
          },
        )
  ]

  poll_lem :
      (p : Pool o) (es : List (PollerEvent o))
      → PoolOk o laws p
      → (p' : Pool o) × (poll o p es ≡ done p') × Queues o laws p p' 0 []
  unfolding poll
  poll_lem p [] pok = (p, refl, Queues-idle o laws p p 0 pok refl refl (λ j. refl))
  poll_lem p (e ∷ es) pok =
      let (q, f, x) = on_poller_lem p e pok in
      let (p', g, y) = poll_lem q es x.after in
      (p', rw (f, ◌>>=◌) g, Queues-trans o laws p q p' 0 0 [] x y)

  -- A step of the event loop fails nowhere, and leaves every stream as it was: what was taken came
  -- from the front of what was pending.
  pub step_lem :
      (p : Pool o) (env : Env) (more : List Env) (es : List (PollerEvent o))
      → IsHonest env
      → All IsHonest more
      → PoolOk o laws p
      → (p' : Pool o) × (step o p env more es ≡ done p') × Queues o laws p p' 0 []
  unfolding step
  step_lem p env more es honest hs pok =
      let (q, f, x) = send_passes_lem p env more honest hs pok in
      let (p', g, y) = poll_lem q es x.after in
      (p', rw (f, ◌>>=◌) g, Queues-trans o laws p q p' 0 0 [] x y)

  pub record Runs (p p' : Pool o) (cs : List (Call o)) : Type 0 where
    pub after : PoolOk o laws p'
    pub streams : (j : ℕ) → stream o laws j p' ≡ stream o laws j p ++ queued o j cs
    pub debt : SameDebt o laws p p'

  Runs-quiet :
      (p q p' : Pool o) (id : ℕ) (cs ds : List (Call o))
      → ((j : ℕ) → queued o j ds ≡ queued o j cs)
      → Queues o laws p q id []
      → Runs q p' cs
      → Runs p p' ds
  Runs-quiet p q p' id cs ds e x y = record {
    after = y.after;
    streams = λ j.
        y.streams j
        ∙ ap (λ l. l ++ queued o j cs) (x.streams j ∙ quiet o laws (id == j) (stream o laws j p))
        ∙ ap (◌++◌ (stream o laws j p)) (sym (e j));
    debt = omega (arith, x.debt, y.debt);
  }

  -- From a well-formed pool whose queues keep the promise of a byte stream, any sequence of calls
  -- of add, enqueue, step and remove_later, with frame sizes of 16 bits and sockets that take no
  -- more than they are given, ends without a fault in a well-formed pool. For every socket, what
  -- it took followed by what is still queued for it is what was there before followed by all that
  -- was queued for it, in order, and the count of remaining bytes moved, modulo 2 ^ 64, as the
  -- queued bytes did.
  pub run_lem :
      (p : Pool o) (cs : List (Call o))
      → All (CallOk o) cs
      → PoolOk o laws p
      → (p' : Pool o) × (run o p cs ≡ done p') × Runs p p' cs
  unfolding run remove_later
  run_lem p [] ok pok =
      (p, refl, record { after = pok; streams = λ j. sym (append-nil _); debt = refl })
  run_lem p (adds id fs ∷ cs) (z, ok) pok =
      let (q, e, x) = add_lem o laws p id fs (omega arith) pok in
      let (p', f, y) = run_lem q cs ok x.after in
      (p', rw (e, ◌>>=◌) f, Runs-quiet p q p' id cs _ (λ j. refl) x y)
  run_lem p (enqueues id pr bytes ∷ cs) (z, ok) pok =
      let (q, e, x) = enqueue_lem o laws p id pr bytes pok in
      let (p', f, y) = run_lem q cs ok x.after in
      (
        p',
        rw (e, ◌>>=◌) f,
        record {
          after = y.after;
          streams = λ j.
              y.streams j
              ∙ ap (λ l. l ++ queued o j cs) (x.streams j)
              ∙ append_assoc (stream o laws j p) _ (queued o j cs);
          debt = omega (arith, x.debt, y.debt);
        },
      )
  run_lem p (steps env more es ∷ cs) ((h, hs), ok) pok =
      let (q, e, x) = step_lem p env more es h hs pok in
      let (p', f, y) = run_lem q cs ok x.after in
      (p', rw (e, ◌>>=◌) f, Runs-quiet p q p' 0 cs _ (λ j. refl) x y)
  run_lem p (removes_later id ∷ cs) (z, ok) pok =
      let (p', f, y) =
        run_lem (remove_later o p id) cs ok (record { ok = pok.ok; bounded = pok.bounded }) in
      (
        p',
        f,
        Runs-quiet p (remove_later o p id) p' 0 cs _ (λ j. refl)
            (Queues-idle o laws p (remove_later o p id) 0 pok refl refl (λ j. refl)) y,
      )
