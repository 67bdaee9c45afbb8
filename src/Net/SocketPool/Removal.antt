-- ===== src/Net/SocketPool/Removal.antt =====
-- `apply_remove` in a well-formed pool.
use net_lib.Net.SocketPool.Slots.{
  mem-emplace_index, emplace_index-Ascending, Slot, IsValid, locate-none, locate_same,
}
use net_lib.Net.SocketPool.{
  no_socket, Account, SocketPool, emplace_index, account_at, locate_account, locate, remove_one,
  remove_all, apply_remove,
}
use net_lib.Prelude.Dict.{find, erase, find-erase}
use net_lib.Prelude.{
  ℕ, ◌<◌, ◌≡◌, ◌≢◌, refl, sym, ap, ◌∙◌, arith, true, false, List, [], ◌∷◌, none, some, ◌==◌, ==_iff,
  if◌then◌else◌, length, length-set, get_elem?, get_elem?-set_ne, get_elem?-lt, set, mem, done,
  ◌>>=◌, inl, inr, Bool-cases, Option-cases,
}

module _ {H : Type 0} where
  -- Two identifiers do not share a slot.
  slots_apart :
      (p : SocketPool H) (id j i k : ℕ) → Slot p id i → Slot p j k → (id == j) ≡ false → i ≢ k
  slots_apart p id j i k s t ne e =
      let h : get_elem? p.accounts i ≡ some t.acc = rw e t.here in
      let same : s.acc ≡ t.acc = (let x = s.here in cc) in
      let ids : id ≡ j = sym s.same_id ∙ ap (λ (a : Account H). a.sock.id) same ∙ t.same_id in
      ground (arith, ids)

  pub record Removed (p q : SocketPool H) (id : ℕ) : Type 0 where
    pub valid : IsValid q
    pub located : (j : ℕ) → locate q j ≡ (if id == j then done none else locate p j)

  -- The slot `i` of `id` is given back.
  vacated : ℕ → SocketPool H → ℕ → ℕ → Account H → SocketPool H
  vacated no_id p id i acc = record p {
    accounts = set p.accounts i (record acc { sock = no_socket no_id });
    free_indices = emplace_index i p.free_indices;
    mapping = erase id p.mapping;
  }

  vacated-slot :
      (no_id : ℕ) (p : SocketPool H) (id i j k : ℕ) (acc : Account H)
      → i ≢ k
      → Slot p j k
      → Slot (vacated no_id p id i acc) j k
  unfolding vacated
  vacated-slot no_id p id i j k acc ne s = record {
    acc = s.acc;
    here = get_elem?-set_ne p.accounts i k (record acc { sock = no_socket no_id }) ne ∙ s.here;
    same_id = s.same_id;
    used =
        (let other : (i == k) ≡ false = ground arith in
          mem-emplace_index i k p.free_indices ∙ rw (other, s.used) refl);
  }

  vacated-Removed :
      (no_id : ℕ) (p : SocketPool H) (id i : ℕ)
      → IsValid p
      → find id p.mapping ≡ some i
      → (s : Slot p id i) → Removed p (vacated no_id p id i s.acc) id
  unfolding vacated vacated-slot
  vacated-Removed no_id p id i v e s = record {
    valid = record {
      slots = slots;
      inside = inside;
      ascending = emplace_index-Ascending i p.free_indices v.ascending;
    };
    located = located;
  }
    where
      q : SocketPool H
      q = vacated no_id p id i s.acc

      gone : (j : ℕ) → find j q.mapping ≡ (if id == j then none else find j p.mapping)
      gone j = find-erase id j p.mapping

      slots : (j k : ℕ) → find j q.mapping ≡ some k → Slot q j k
      slots j k f = elim (Bool-cases (id == j)) [
        | inl t ↦ absurd (let x : none ≡ some k = rw (gone j, t) at f in cc)
        | inr n ↦
            let x : find j p.mapping ≡ some k = rw (gone j, n) at f in
            let t = v.slots j k x in
            vacated-slot no_id p id i j k s.acc (slots_apart p id j i k s t n) t
      ]

      inside : (j : ℕ) → mem j q.free_indices ≡ true → j < length q.accounts
      inside j f = elim (Bool-cases (i == j)) [
        | inl t ↦
            (let lt = get_elem?-lt p.accounts i s.here in
              ground (arith, length-set p.accounts i (record s.acc { sock = no_socket no_id }), t))
        | inr n ↦
            let x : mem j p.free_indices ≡ true =
              rw (mem-emplace_index i j p.free_indices, n) at f in
            let lt = v.inside j x in
            omega (arith, length-set p.accounts i (record s.acc { sock = no_socket no_id }))
      ]

      located : (j : ℕ) → locate q j ≡ (if id == j then done none else locate p j)
      located j = elim (Bool-cases (id == j)) [
        | inl t ↦ rw t (locate-none q j (rw (gone j, t) refl))
        | inr n ↦ rw n (elim (Option-cases (find j p.mapping)) [
          | inl x ↦ rw (locate-none p j x) (locate-none q j (rw (gone j, n) x))
          | inr (k, x) ↦
              let t = v.slots j k x in
              let u = vacated-slot no_id p id i j k s.acc (slots_apart p id j i k s t n) t in
              locate_same p q j k x (rw (gone j, n) x) t u (t.here ∙ sym u.here)
        ])
      ]

  remove_one-Removed :
      (no_id : ℕ) (p : SocketPool H) (id : ℕ)
      → IsValid p
      → (q : SocketPool H) × (remove_one no_id p id ≡ done q) × Removed p q id
  unfolding remove_one vacated
  remove_one-Removed no_id p id v = elim (Option-cases (find id p.mapping)) [
    | inl e ↦ (p, rw (remove_one, e) refl, record { valid = v; located = λ j. absent j e })
    | inr (i, e) ↦
        let s = v.slots id i e in
        (
          vacated no_id p id i s.acc,
          rw (remove_one, e, s.here) refl,
          vacated-Removed no_id p id i v e s,
        )
  ]
    where
      absent :
          (j : ℕ)
          → find id p.mapping ≡ none
          → locate p j ≡ (if id == j then done none else locate p j)
      absent j e = elim (Bool-cases (id == j)) [
        | inl t ↦ rw t (locate-none p j (rw (sym ((==_iff id j).0 t)) e))
        | inr n ↦ rw n refl
      ]

  remove_all_lem :
      (no_id : ℕ) (p : SocketPool H) (ids : List ℕ)
      → IsValid p
      → (q : SocketPool H) × (remove_all no_id p ids ≡ done q)
        × IsValid q
        × ((j : ℕ) → locate q j ≡ (if mem j ids then done none else locate p j))
  unfolding remove_all
  remove_all_lem no_id p [] v = (p, refl, v, λ j. refl)
  remove_all_lem no_id p (id ∷ ids) v =
      let (q, e, r) = remove_one-Removed no_id p id v in
      let (q', f, w, l) = remove_all_lem no_id q ids r.valid in
      (q', rw (e, ◌>>=◌) f, w, λ j. ground (arith, l j, r.located j))

  -- The marks play no part in what is found.
  unmarked :
      (q : SocketPool H)
      → IsValid q
      → IsValid (record q { removable = [] })
        × ((j : ℕ) → locate (record q { removable = [] }) j ≡ locate q j)
  unfolding locate locate_account account_at
  unmarked q v = (
    record {
      slots = λ id i e.
          (let s = v.slots id i e in
            record { acc = s.acc; here = s.here; same_id = s.same_id; used = s.used });
      inside = v.inside;
      ascending = v.ascending;
    },
    λ j. refl,
  )

  -- In a well-formed pool apply_remove succeeds and keeps the pool well formed: the identifiers
  -- that were marked, also those marked twice or unknown, are not found any more, every other is
  -- found as before, and no mark is left.
  pub apply_remove-locate :
      (no_id : ℕ) (p : SocketPool H)
      → IsValid p
      → (q : SocketPool H) × (apply_remove no_id p ≡ done q)
        × IsValid q
        × ((j : ℕ) → locate q j ≡ (if mem j p.removable then done none else locate p j))
        × (q.removable ≡ [])
  unfolding apply_remove
  apply_remove-locate no_id p v =
      let (q, e, w, l) = remove_all_lem no_id p p.removable v in
      let (x, y) = unmarked q w in
      (record q { removable = [] }, rw (e, ◌>>=◌) refl, x, λ j. y j ∙ l j, refl)
