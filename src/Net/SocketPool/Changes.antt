-- ===== src/Net/SocketPool/Changes.antt =====
-- Additions and removals in a well-formed pool.
use net_lib.Net.SocketPool.Slots.{
  Ascending, mem_above, Slot, IsValid, view, locate_slot, locate-none, locate_same,
}
use net_lib.Net.SocketPool.{Kind, Socket, Account, SocketPool, place, add, locate}
use net_lib.Prelude.Dict.{find, insert, find-insert}
use net_lib.Prelude.{
  ℕ, zero, suc, ◌≤◌, ◌<◌, ◌≡◌, ◌≢◌, refl, sym, ap, ◌∙◌, arith, true, false, List, [], ◌∷◌, ◌++◌,
  some, ◌==◌, ==_iff, ==_self, length, length-append, length-set, get_elem?, get_elem?-set_self,
  get_elem?-set_ne, get_elem?-lt, get_elem?-some, set, mem, done, inl, inr, Bool-cases,
  Option-cases, List-cases,
}

get_elem?-append {ℓ} :
    {A : Type ℓ} (xs : List A) (i : ℕ) (x : A)
    → i < length xs
    → get_elem? (xs ++ (x ∷ [])) i ≡ get_elem? xs i
get_elem?-append [] i x h = absurd (omega arith)
get_elem?-append (y ∷ ys) zero x h = refl
get_elem?-append (y ∷ ys) (suc i) x h = get_elem?-append ys i x (omega arith)

get_elem?-append_last {ℓ} :
    {A : Type ℓ} (xs : List A) (x : A) → get_elem? (xs ++ (x ∷ [])) (length xs) ≡ some x
get_elem?-append_last [] x = refl
get_elem?-append_last (y ∷ ys) x = get_elem?-append_last ys x

module _ {H : Type 0} where
  -- From `p` to `q` the identifier `id` got the slot `i`, which was not in use, with account `a`.
  pub record Fills (p q : SocketPool H) (id i : ℕ) (a : Account H) : Type 0 where
    pub maps : q.mapping ≡ insert id i p.mapping
    pub placed : get_elem? q.accounts i ≡ some a
    pub kept :
        (j : ℕ)
        → i ≢ j
        → (x : Account H) → get_elem? p.accounts j ≡ some x
        → get_elem? q.accounts j ≡ some x
    pub longer : length p.accounts ≤ length q.accounts
    pub taken : (j : ℕ) → mem j q.free_indices ≡ true → mem j p.free_indices ≡ true
    pub busy : mem i q.free_indices ≡ false
    pub ordered : Ascending q.free_indices

  slot_elsewhere :
      (p : SocketPool H) (i id j : ℕ)
      → ((x : Account H) → get_elem? p.accounts i ≡ some x → mem i p.free_indices ≡ true)
      → Slot p id j
      → i ≢ j
  slot_elsewhere p i id j free s e =
      let t : mem j p.free_indices ≡ true = rw (sym e) (free s.acc (rw e s.here)) in
      let f = s.used in cc

  not_taken :
      {p q : SocketPool H} {id i : ℕ} {a : Account H} (f : Fills p q id i a) (k : ℕ)
      → mem k p.free_indices ≡ false
      → mem k q.free_indices ≡ false
  not_taken {q = q} f k e = elim (Bool-cases (mem k q.free_indices)) [
    | inr x ↦ x
    | inl x ↦ absurd (let y = f.taken k x in cc)
  ]

  -- A slot of another identifier is still there.
  keeps_slot :
      {p q : SocketPool H} {id i : ℕ} {a : Account H} (f : Fills p q id i a) (j k : ℕ)
      → i ≢ k
      → Slot p j k
      → Slot q j k
  keeps_slot f j k ne s = record {
    acc = s.acc;
    here = f.kept k ne s.acc s.here;
    same_id = s.same_id;
    used = not_taken f k s.used;
  }

  -- The new identifier is found, and any other accs before.
  pub record Added (p q : SocketPool H) (id : ℕ) (a : Account H) : Type 0 where
    pub valid : IsValid q
    pub found : locate q id ≡ done (some (view a))
    pub others : (j : ℕ) → j ≢ id → locate q j ≡ locate p j

  Fills-Added :
      (p q : SocketPool H) (id i : ℕ) (a : Account H)
      → IsValid p
      → a.sock.id ≡ id
      → ((x : Account H) → get_elem? p.accounts i ≡ some x → mem i p.free_indices ≡ true)
      → Fills p q id i a
      → Added p q id a
  unfolding keeps_slot
  Fills-Added p q id i a v same free f = record {
    valid = record {
      slots = slots;
      inside = λ j e. (let lt = v.inside j (f.taken j e) in let le = f.longer in omega arith);
      ascending = f.ordered;
    };
    found =
        locate_slot q id i (rw (f.maps, find-insert id id i p.mapping, ==_self id) refl) new_slot;
    others = others;
  }
    where
      new_slot : Slot q id i
      new_slot = record { acc = a; here = f.placed; same_id = same; used = f.busy }

      elsewhere : (j k : ℕ) → Slot p j k → i ≢ k
      elsewhere j k s = slot_elsewhere p i j k free s

      slots : (j k : ℕ) → find j q.mapping ≡ some k → Slot q j k
      slots j k e = elim (Bool-cases (id == j)) [
        | inl t ↦
            let x : some i ≡ some k = rw (f.maps, find-insert id j i p.mapping, t) at e in
            let y : i ≡ k = cc in rw (sym y, sym ((==_iff id j).0 t)) new_slot
        | inr n ↦
            let x : find j p.mapping ≡ some k = rw (f.maps, find-insert id j i p.mapping, n) at e in
            let s = v.slots j k x in keeps_slot f j k (elsewhere j k s) s
      ]

      others : (j : ℕ) → j ≢ id → locate q j ≡ locate p j
      others j ne =
          let n : (id == j) ≡ false = ground arith in
          let e : find j q.mapping ≡ find j p.mapping =
            rw (f.maps, find-insert id j i p.mapping, n) refl in
          elim (Option-cases (find j p.mapping)) [
            | inl x ↦ rw (locate-none p j x) (locate-none q j (e ∙ x))
            | inr (k, x) ↦
                let s = v.slots j k x in
                let t = keeps_slot f j k (elsewhere j k s) s in
                locate_same p q j k x (e ∙ x) s t (s.here ∙ sym t.here)
          ]

  append_socket :
      (p : SocketPool H) (sock : Socket H) (kind : Kind)
      → IsValid p
      → p.free_indices ≡ []
      → (q : SocketPool H) × (add p sock kind ≡ done q)
        × Added p q sock.id (record { sock = sock; kind = kind })
  unfolding add place
  append_socket p sock kind v none_free =
      let a : Account H = record { sock = sock; kind = kind } in
      let n = length p.accounts in
      let q : SocketPool H = record p {
        accounts = p.accounts ++ (a ∷ []);
        mapping = insert sock.id n p.mapping;
      } in
      (
        q,
        ap (λ l. place l p a) none_free,
        Fills-Added p q sock.id n a v refl
            (λ x e. (let lt = get_elem?-lt p.accounts n e in absurd (omega arith)))
            (record {
              maps = refl;
              placed = get_elem?-append_last p.accounts a;
              kept = λ j ne x e. get_elem?-append p.accounts j a (get_elem?-lt p.accounts j e) ∙ e;
              longer = omega (arith, length-append p.accounts (a ∷ []));
              taken = λ j e. e;
              busy = ap (mem n) none_free;
              ordered = v.ascending;
            }),
      )

  reuse_slot :
      (p : SocketPool H) (sock : Socket H) (kind : Kind) (i : ℕ) (is : List ℕ)
      → IsValid p
      → p.free_indices ≡ i ∷ is
      → (q : SocketPool H) × (add p sock kind ≡ done q)
        × Added p q sock.id (record { sock = sock; kind = kind })
  unfolding add place
  reuse_slot p sock kind i is v some_free =
      let a : Account H = record { sock = sock; kind = kind } in
      let q : SocketPool H = record p {
        free_indices = is;
        accounts = set p.accounts i a;
        mapping = insert sock.id i p.mapping;
      } in
      let free : mem i p.free_indices ≡ true = ap (mem i) some_free ∙ ground arith in
      let up : Ascending (i ∷ is) = rw some_free at v.ascending in
      let lt : i < length p.accounts = v.inside i free in
      let (old, e) = get_elem?-some p.accounts i lt in
      (
        q,
        ap (λ l. place l p a) some_free ∙ rw (place, e) refl,
        Fills-Added p q sock.id i a v refl (λ x e. free)
            (record {
              maps = refl;
              placed = get_elem?-set_self p.accounts i a lt;
              kept = λ j ne x e. get_elem?-set_ne p.accounts i j a ne ∙ e;
              longer = omega (arith, length-set p.accounts i a);
              taken = λ j e. ap (mem j) some_free ∙ ground arith;
              busy = mem_above i i is (omega arith) up.0;
              ordered = up.1;
            }),
      )

  -- Adding any socket to a well-formed pool succeeds and keeps the pool well formed, whether a
  -- free slot is reused or a new one is appended: the socket is found under its identifier with
  -- its kind, and every other identifier is found, or not, as before.
  pub add-Added :
      (p : SocketPool H) (sock : Socket H) (kind : Kind)
      → IsValid p
      → (q : SocketPool H) × (add p sock kind ≡ done q)
        × Added p q sock.id (record { sock = sock; kind = kind })
  add-Added p sock kind v = elim (List-cases p.free_indices) [
    | inl e ↦ append_socket p sock kind v e
    | inr (i, is, e) ↦ reuse_slot p sock kind i is v e
  ]
