-- ===== src/Net/WriterPool/Pass.antt =====
-- A pass over all accounts: the streams of all sockets, and the count of remaining bytes.
use net_lib.Net.QueueOps.{QueueOps, StreamLaws}
use net_lib.Net.WriterPool.Send.{sent_to, IsHonest, Moves, send_account-Moves}
use net_lib.Net.WriterPool.{Env, u64, Side, Account, send_pass}
use net_lib.Prelude.Dict.{find}
use net_lib.Prelude.{
  ℕ, ◌+◌, ◌%◌, ◌<◌, ◌≡◌, refl, sym, ap, ◌∙◌, subst, arith, List, [], ◌∷◌, ◌++◌, Option, none, some,
  ◌==◌, length, Bytes, done, ◌>>=◌, inl, inr, Bool-cases, append-nil, append_assoc, length-append,
  ==_iff,
}

module _ (o : QueueOps) (laws : StreamLaws o) where
  -- Each key is its account's, no key stands twice, and the queues are valid. (A frame size is a
  -- std::uint16_t; 2 ^ 64 is enough here.)
  abbrev pub AccountsOk : List (ℕ × Account o) → Type 0
  AccountsOk [] = Unit
  AccountsOk ((k, a) ∷ m) =
      (a.id ≡ k) × laws.IsValid a.q × (a.frame_size < u64) × (find k m ≡ none) × AccountsOk m

  abbrev pub pending_of? : Option (Account o) → Bytes
  pending_of? none = []
  pending_of? (some a) = laws.pending a.q

  -- What is queued for socket `id`.
  abbrev pub pending_at : ℕ → List (ℕ × Account o) → Bytes
  pending_at id m = pending_of? (find id m)

  -- What is queued for all sockets, in bytes.
  abbrev pub total : List (ℕ × Account o) → ℕ
  total [] = 0
  total ((k, a) ∷ m) = length (laws.pending a.q) + total m

  pub record Passes (m : List (ℕ × Account o)) (s : Side) (r : List (ℕ × Account o) × Side)
      : Type 0 where
    pub ok : AccountsOk r.0
    pub keys : (j : ℕ) → find j m ≡ none → find j r.0 ≡ none
    pub stream : (j : ℕ) → sent_to j r.1.log ++ pending_at j r.0 ≡ sent_to j s.log ++ pending_at j m
    pub bounded : r.1.remain_bytes < u64
    pub counted : (r.1.remain_bytes + total m) % u64 ≡ (s.remain_bytes + total r.0) % u64

  -- The stream of the head account, and of any other.
  Passes-stream :
      (k : ℕ) (a : Account o) (m : List (ℕ × Account o)) (s : Side) (r : Account o × Side)
      (t : List (ℕ × Account o) × Side) (j : ℕ)
      → a.id ≡ k
      → find k m ≡ none
      → Moves o laws a s r
      → Passes m r.1 t
      → sent_to j t.1.log ++ pending_at j ((k, r.0) ∷ t.0)
        ≡ sent_to j s.log ++ pending_at j ((k, a) ∷ m)
  unfolding find
  Passes-stream k a m s r t j ida fresh mv ps = elim (Bool-cases (k == j)) [
    | inr e ↦
        rw e
          (ps.stream j ∙ ap (λ l. l ++ pending_at j m) (mv.logged j ∙ rw (ida, e) (append-nil _)))
    | inl e ↦
        let same : k ≡ j = (==_iff k j).0 e in
        let rest : sent_to j t.1.log ≡ sent_to j r.1.log =
          sym (append-nil _)
          ∙ subst
              (λ (x : Option (Account o)).
                sent_to j t.1.log ++ pending_of? x ≡ sent_to j r.1.log ++ pending_at j m)
              (ps.keys j (subst (λ i. find i m ≡ none) same fresh)) (ps.stream j)
          ∙ subst
              (λ (x : Option (Account o)).
                sent_to j r.1.log ++ pending_at j m ≡ sent_to j r.1.log ++ pending_of? x)
              (subst (λ i. find i m ≡ none) same fresh) refl
          ∙ append-nil _ in
        rw e (
          ap (λ l. l ++ laws.pending r.0.q) (rest ∙ mv.logged j ∙ rw (ida, e))
          ∙ append_assoc (sent_to j s.log) mv.out (laws.pending r.0.q)
          ∙ ap (◌++◌ (sent_to j s.log)) mv.conserved)
  ]

  Passes-cons :
      (k : ℕ) (a : Account o) (m : List (ℕ × Account o)) (s : Side) (r : Account o × Side)
      (t : List (ℕ × Account o) × Side)
      → AccountsOk ((k, a) ∷ m)
      → Moves o laws a s r
      → Passes m r.1 t
      → Passes ((k, a) ∷ m) s ((k, r.0) ∷ t.0, t.1)
  unfolding find
  Passes-cons k a m s r t (ida, v, z, fresh, oks) mv ps = record {
    ok = (mv.same_id ∙ ida, mv.valid, omega (arith, mv.same_size), ps.keys k fresh, ps.ok);
    keys = λ j. ground (arith, ps.keys j);
    stream = λ j. Passes-stream k a m s r t j ida fresh mv ps;
    bounded = ps.bounded;
    counted = omega (arith, ap length mv.conserved, length-append mv.out (laws.pending r.0.q));
  }

  pub send_pass-Passes :
      (env : Env) (m : List (ℕ × Account o)) (s : Side)
      → IsHonest env
      → AccountsOk m
      → s.remain_bytes < u64
      → (r : List (ℕ × Account o) × Side) × (send_pass o env m s ≡ done r) × Passes m s r
  unfolding send_pass
  send_pass-Passes env [] s honest ok b = (
    ([], s),
    refl,
    record { ok = tt; keys = λ j e. e; stream = λ j. refl; bounded = b; counted = refl },
  )
  send_pass-Passes env ((k, a) ∷ m) s honest ok b =
      let (r, e, mv) = send_account-Moves o laws env a s honest ok.1 b ok.2 in
      let (t, f, ps) = send_pass-Passes env m r.1 honest ok.4 mv.bounded in
      (((k, r.0) ∷ t.0, t.1), rw (e, ◌>>=◌, f), Passes-cons k a m s r t ok mv ps)
