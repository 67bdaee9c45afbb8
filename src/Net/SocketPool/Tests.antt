-- ===== src/Net/SocketPool/Tests.antt =====
-- A pool of two sockets, one of them marked.
use net_lib.Net.SocketPool.{Socket, SocketPool, accepted, connected, add, locate, apply_remove}
use net_lib.Net.SocketPool.Slots.{Slot, IsValid}
use net_lib.Net.SocketPool.Changes.{Added, add-Added}
use net_lib.Net.SocketPool.Removal.{apply_remove-locate}
use net_lib.Prelude.Dict.{find}
use net_lib.Prelude.{
  ℕ, ◌+◌, ◌≡◌, refl, sym, ==_iff, inl, inr, Bool-cases, arith, [], ◌∷◌, none, some, ◌==◌,
  if◌then◌else◌, mem, done,
}

abbrev socket : ℕ → Socket ℕ
socket id = record { id = id; handle = some (id + 100) }

abbrev two_sockets : SocketPool ℕ
two_sockets = record {
  free_indices = 1 ∷ [];
  accounts =
      record { sock = socket 7; kind = accepted }
      ∷ record { sock = record { id = 0; handle = none }; kind = accepted }
      ∷ record { sock = socket 9; kind = connected }
      ∷ [];
  mapping = (9, 2) ∷ (7, 0) ∷ [];
  removable = 7 ∷ [];
}

two_sockets-IsValid : IsValid two_sockets
unfolding find
two_sockets-IsValid = record { slots = slots; inside = λ i e. ground arith; ascending = (tt, tt) }
  where
    slots : (id i : ℕ) → find id two_sockets.mapping ≡ some i → Slot two_sockets id i
    slots id i e = elim (Bool-cases (9 == id)) [
      | inl t ↦
          let x : some 2 ≡ some i = rw t at e in
          let y : 2 ≡ i = cc in
          rw (sym y, sym ((==_iff 9 id).0 t))
            (record {
              acc = record { sock = socket 9; kind = connected };
              here = refl;
              same_id = refl;
              used = refl;
            })
      | inr n ↦ elim (Bool-cases (7 == id)) [
        | inl t ↦
            let x : some 0 ≡ some i = rw (n, t) at e in
            let y : 0 ≡ i = cc in
            rw (sym y, sym ((==_iff 7 id).0 t))
              (record {
                acc = record { sock = socket 7; kind = accepted };
                here = refl;
                same_id = refl;
                used = refl;
              })
        | inr m ↦ absurd (let x : none ≡ some i = rw (n, m) at e in cc)
      ]
    ]

add-Added_example :
    (q : SocketPool ℕ) × (add two_sockets (socket 4) accepted ≡ done q)
    × Added two_sockets q 4 (record { sock = socket 4; kind = accepted })
add-Added_example = add-Added two_sockets (socket 4) accepted two_sockets-IsValid

apply_remove-locate_example :
    (q : SocketPool ℕ) × (apply_remove 0 two_sockets ≡ done q)
    × IsValid q
    × ((j : ℕ) → locate q j ≡ (if mem j (7 ∷ []) then done none else locate two_sockets j))
    × (q.removable ≡ [])
apply_remove-locate_example = apply_remove-locate 0 two_sockets two_sockets-IsValid
