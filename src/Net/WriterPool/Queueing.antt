-- ===== src/Net/WriterPool/Queueing.antt =====
-- `add` and `enqueue`: the streams of all sockets, and the count of remaining bytes.
use net_lib.Net.QueueOps.{QueueOps, StreamLaws}
use net_lib.Net.WriterPool.Send.{sent_to, sent_to_quiet}
use net_lib.Net.WriterPool.Pass.{AccountsOk, pending_at, total}
use net_lib.Net.WriterPool.Accounts.{
  insert-AccountsOk, total-insert, find-AccountsOk, locate_account_lem,
}
use net_lib.Net.WriterPool.{
  u64, wait_for_write, Side, record_event, Account, Pool, ensure_account, add, enqueue,
  default_frame_size,
}
use net_lib.Prelude.Dict.{find, insert, find-insert}
use net_lib.Prelude.{
  ℕ, ◌+◌, ◌%◌, ◌<◌, ◌≡◌, refl, sym, ap, ◌∙◌, subst, arith, Bool, true, false, [], ◌∷◌, ◌++◌, some,
  ◌==◌, if◌then◌else◌, length, Bytes, done, ◌>>=◌, inl, inr, Bool-cases, Option-cases, append-nil,
  append_assoc, length-append, ==_iff, ==_self,
}

module _ (o : QueueOps) (laws : StreamLaws o) where
  pub record PoolOk (p : Pool o) : Type 0 where
    pub ok : AccountsOk o laws p.accounts
    pub bounded : p.remain_bytes < u64

  -- What socket `id` took and what is still queued for it.
  abbrev pub stream : ℕ → Pool o → Bytes
  stream id p = sent_to id p.log ++ pending_at o laws id p.accounts

  -- `remain_bytes` and the bytes that are queued change alike.
  abbrev pub SameDebt : Pool o → Pool o → Type 0
  SameDebt p p' =
      (p'.remain_bytes + total o laws p.accounts) % u64
      ≡ (p.remain_bytes + total o laws p'.accounts) % u64

  -- A call from `p` came to `p'` and queued `bytes` for socket `id`.
  pub record Queues (p p' : Pool o) (id : ℕ) (bytes : Bytes) : Type 0 where
    pub after : PoolOk p'
    pub streams : (j : ℕ) → stream j p' ≡ stream j p ++ (if id == j then bytes else [])
    pub debt : SameDebt p p'

  pub quiet : (b : Bool) (xs : Bytes) → xs ++ (if b then [] else []) ≡ xs
  quiet true xs = append-nil xs
  quiet false xs = append-nil xs

  put-stream :
      (p : Pool o) (s' : Side) (id j : ℕ) (a : Account o) (bytes : Bytes)
      → sent_to j s'.log ≡ sent_to j p.log
      → laws.pending a.q ≡ pending_at o laws id p.accounts ++ bytes
      → sent_to j s'.log ++ pending_at o laws j (insert id a p.accounts)
        ≡ stream j p ++ (if id == j then bytes else [])
  put-stream p s' id j a bytes l e = elim (Bool-cases (id == j)) [
    | inl t ↦
        let same : id ≡ j = (==_iff id j).0 t in
        rw (l, find-insert id j a p.accounts, t)
          (ap (◌++◌ (sent_to j p.log))
              (subst (λ (i : ℕ). laws.pending a.q ≡ pending_at o laws i p.accounts ++ bytes) same e)
            ∙ sym (append_assoc (sent_to j p.log) _ bytes))
    | inr f ↦ rw (l, find-insert id j a p.accounts, f) (sym (append-nil _))
  ]

  -- The account of `id` is written back with `bytes` more in its queue.
  pub Queues-put :
      (p : Pool o) (s' : Side) (id : ℕ) (a : Account o) (bytes : Bytes)
      → PoolOk p
      → a.id ≡ id
      → laws.IsValid a.q
      → a.frame_size < u64
      → ((j : ℕ) → sent_to j s'.log ≡ sent_to j p.log)
      → laws.pending a.q ≡ pending_at o laws id p.accounts ++ bytes
      → s'.remain_bytes ≡ (p.remain_bytes + length bytes) % u64
      → Queues p (record { side = s'; accounts = insert id a p.accounts }) id bytes
  Queues-put p s' id a bytes pok i v z l e r = record {
    after = record {
      ok = insert-AccountsOk o laws id a p.accounts i v z pok.ok;
      bounded = omega arith;
    };
    streams = λ j. put-stream p s' id j a bytes (l j) e;
    debt = omega (
      arith,
      total-insert o laws id a p.accounts,
      ap length e,
      length-append (pending_at o laws id p.accounts) bytes,
    );
  }

  pub Queues-idle :
      (p p' : Pool o) (id : ℕ)
      → PoolOk p
      → p'.accounts ≡ p.accounts
      → p'.remain_bytes ≡ p.remain_bytes
      → ((j : ℕ) → sent_to j p'.log ≡ sent_to j p.log)
      → Queues p p' id []
  Queues-idle p p' id pok a r l = record {
    after = record { ok = rw a pok.ok; bounded = omega (arith, pok.bounded) };
    streams = λ j. rw (a, l j) (sym (quiet (id == j) (stream j p)));
    debt = rw (a, r);
  }

  pub Queues-trans :
      (p q r : Pool o) (id k : ℕ) (bytes : Bytes)
      → Queues p q k []
      → Queues q r id bytes
      → Queues p r id bytes
  Queues-trans p q r id k bytes x y = record {
    after = y.after;
    streams = λ j.
        y.streams j
        ∙ ap (λ l. l ++ (if id == j then bytes else []))
            (x.streams j ∙ quiet (k == j) (stream j p));
    debt = omega (arith, x.debt, y.debt);
  }

  Ensures : Pool o → ℕ → Account o × Pool o → Type 0
  Ensures p id r =
      Queues p r.1 id []
      × (find id r.1.accounts ≡ some r.0)
      × (r.0.id ≡ id)
      × laws.IsValid r.0.q
      × (r.0.frame_size < u64)

  abbrev fresh_account : ℕ → ℕ → Account o
  fresh_account id frame_size = record {
    id = id;
    writable = false;
    frame_size = frame_size;
    q = o.new;
  }

  ensure_account_lem :
      (p : Pool o) (id frame_size : ℕ)
      → frame_size < u64
      → PoolOk p
      → (r : Account o × Pool o) × (ensure_account o p id frame_size ≡ done r) × Ensures p id r
  unfolding ensure_account Ensures sent_to
  ensure_account_lem p id fs z pok = elim (Option-cases (find id p.accounts)) [
    | inr (a, e) ↦
        let (i, v, y) = find-AccountsOk o laws id p.accounts pok.ok e in
        (
          (a, p),
          rw (locate_account_lem o laws p.accounts id pok.ok, e),
          (Queues-idle p p id pok refl refl (λ j. refl), e, i, v, y),
        )
    | inl e ↦ (
      (
        fresh_account id fs,
        record {
          accounts = insert id (fresh_account id fs) p.accounts;
          side = record_event p.side (wait_for_write id);
        },
      ),
      rw (locate_account_lem o laws p.accounts id pok.ok, e),
      (
        Queues-put p (record_event p.side (wait_for_write id)) id (fresh_account id fs) [] pok refl
            laws.new_lem.0 z (λ j. sent_to_quiet j p.log (wait_for_write id) refl)
            (laws.new_lem.1 ∙ rw e) (omega (arith, pok.bounded)),
        find-insert id id (fresh_account id fs) p.accounts ∙ rw (==_self id),
        refl,
        laws.new_lem.0,
        z,
      ),
    )
  ]

  pub add_lem :
      (p : Pool o) (id frame_size : ℕ)
      → frame_size < u64
      → PoolOk p
      → (p' : Pool o) × (add o p id frame_size ≡ done p') × Queues p p' id []
  unfolding add Ensures
  add_lem p id fs z pok = let (r, e, x) = ensure_account_lem p id fs z pok in (r.1, rw e, x.0)

  -- A message joins the end of its socket's stream, and no other stream changes.
  pub enqueue_lem :
      (p : Pool o) (id priority : ℕ) (bytes : Bytes)
      → PoolOk p
      → (p' : Pool o) × (enqueue o p id priority bytes ≡ done p') × Queues p p' id bytes
  unfolding enqueue Ensures
  enqueue_lem p id priority [] pok = (p, refl, Queues-idle p p id pok refl refl (λ j. refl))
  enqueue_lem p id priority (b ∷ bs) pok =
      let (r, e, (x, f, i, v, z)) = ensure_account_lem p id default_frame_size (omega arith) pok in
      let (q, g, pq, vq) = laws.enqueue_lem r.0.q priority (b ∷ bs) v in
      let s' : Side = record r.1.side {
        remain_bytes = (r.1.remain_bytes + length (b ∷ bs)) % u64;
      } in
      let p' : Pool o = record {
        side = s';
        accounts = insert id (record r.0 { q = q }) r.1.accounts;
      } in
      (
        p',
        rw (e, ◌>>=◌, g),
        Queues-trans p r.1 p' id id (b ∷ bs) x (
            Queues-put r.1 s' id (record r.0 { q = q }) (b ∷ bs) x.after i vq z (λ j. refl)
              (pq ∙ rw f) refl),
      )
