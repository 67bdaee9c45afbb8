-- ===== src/Net/SocketPool/Slots.antt =====
-- What a well-formed pool is, and what the checks of `locate` make of it.
use net_lib.Net.SocketPool.{
  accepted, connected, Socket, Account, SocketPool, emplace_index, account_at, locate_account,
  locate, count,
}
use net_lib.Prelude.Dict.{find}
use net_lib.Prelude.{
  ℕ, ◌+◌, ◌-◌, ◌%◌, ◌^◌, ◌≤◌, ◌<◌, ◌≡◌, refl, arith, Bool, true, false, List, [], ◌∷◌, Option, none,
  some, ltb, ◌==◌, ==_self, if◌then◌else◌, length, get_elem?, mem, All, done, fails, terminated,
  inl, inr, Bool-cases, Option-cases,
}

abbrev pub Ascending : List ℕ → Type 0
Ascending [] = Unit
Ascending (i ∷ is) = All (λ j. i < j) is × Ascending is

pub mem_above : (i j : ℕ) (is : List ℕ) → j ≤ i → All (λ k. i < k) is → mem j is ≡ false
mem_above i j [] le h = refl
mem_above i j (k ∷ is) le (lt, h) = ground (arith, mem_above i j is le h)

weaken-All : (i j : ℕ) (is : List ℕ) → i ≤ j → All (λ k. j < k) is → All (λ k. i < k) is
weaken-All i j [] le h = tt
weaken-All i j (k ∷ is) le (lt, h) = (omega arith, weaken-All i j is le h)

pub mem-emplace_index :
    (i j : ℕ) (is : List ℕ) → mem j (emplace_index i is) ≡ (if i == j then true else mem j is)
unfolding emplace_index
mem-emplace_index i j [] = ground arith
mem-emplace_index i j (k ∷ is) = ground (arith, mem-emplace_index i j is)

emplace_index_above :
    (h i : ℕ) (is : List ℕ) → h < i → All (λ k. h < k) is → All (λ k. h < k) (emplace_index i is)
unfolding emplace_index
emplace_index_above h i [] lt a = (lt, tt)
emplace_index_above h i (k ∷ is) lt (hk, a) = elim (Bool-cases (ltb i k)) [
  | inl e ↦ rw e (lt, (hk, a))
  | inr e ↦ rw e (elim (Bool-cases (i == k)) [
    | inl f ↦ rw f (hk, a)
    | inr f ↦ rw f (hk, emplace_index_above h i is lt a)
  ])
]

pub emplace_index-Ascending : (i : ℕ) (is : List ℕ) → Ascending is → Ascending (emplace_index i is)
unfolding emplace_index
emplace_index-Ascending i [] a = (tt, tt)
emplace_index-Ascending i (k ∷ is) (h, a) = elim (Bool-cases (ltb i k)) [
  | inl e ↦ rw e ((ground arith, weaken-All i k is (ground arith) h), (h, a))
  | inr e ↦ rw e (elim (Bool-cases (i == k)) [
    | inl f ↦ rw f (h, a)
    | inr f ↦ rw f (emplace_index_above k i is (ground arith) h, emplace_index-Ascending i is a)
  ])
]

module _ {H : Type 0} where
  -- An identifier in the map has a slot of its own, which is not free.
  pub record Slot (p : SocketPool H) (id i : ℕ) : Type 0 where
    pub acc : Account H
    pub here : get_elem? p.accounts i ≡ some acc
    pub same_id : acc.sock.id ≡ id
    pub used : mem i p.free_indices ≡ false

  pub record IsValid (p : SocketPool H) : Type 0 where
    pub slots : (id i : ℕ) → find id p.mapping ≡ some i → Slot p id i
    pub inside : (i : ℕ) → mem i p.free_indices ≡ true → i < length p.accounts
    pub ascending : Ascending p.free_indices

  abbrev pub view : Account H → Socket H × Bool
  view acc = (acc.sock, elim acc.kind [ accepted ↦ true | connected ↦ false ])

  pub locate_slot :
      (p : SocketPool H) (id i : ℕ)
      → find id p.mapping ≡ some i
      → (s : Slot p id i) → locate p id ≡ done (some (view s.acc))
  unfolding locate locate_account account_at
  locate_slot p id i e s =
      rw (locate_account, e, account_at, s.here, s.used, s.same_id, ==_self id) refl

  pub locate-none : (p : SocketPool H) (id : ℕ) → find id p.mapping ≡ none → locate p id ≡ done none
  unfolding locate locate_account
  locate-none p id e = rw (locate_account, e) refl

  -- Two pools in which an identifier has slots with equal accounts.
  pub locate_same :
      (p q : SocketPool H) (id i : ℕ)
      → find id p.mapping ≡ some i
      → find id q.mapping ≡ some i
      → (s : Slot p id i) (t : Slot q id i) → get_elem? p.accounts i ≡ get_elem? q.accounts i
      → locate q id ≡ locate p id
  locate_same p q id i e f s t same =
      let acc : s.acc ≡ t.acc = (let x = s.here in let y = t.here in cc) in
      rw (locate_slot p id i e s, locate_slot q id i f t, acc) refl

  -- In a well-formed pool none of the checks behind locate fails, for any identifier.
  pub locate_total :
      (p : SocketPool H) (id : ℕ)
      → IsValid p
      → (o : Option (Socket H × Bool)) × (locate p id ≡ done o)
  locate_total p id v = elim (Option-cases (find id p.mapping)) [
    | inl e ↦ (none, locate-none p id e)
    | inr (i, e) ↦ (some (view (v.slots id i e).acc), locate_slot p id i e (v.slots id i e))
  ]

  -- With no more marks than free slots, no more free slots than accounts, and fewer than 2 ^ 64
  -- accounts, count terminates the program.
  pub count_terminates :
      (p : SocketPool H)
      → length p.free_indices ≤ length p.accounts
      → length p.removable ≤ length p.free_indices
      → length p.accounts < 2 ^ 64
      → count p ≡ fails terminated
  unfolding count
  count_terminates p f r a =
      let e : ltb (length p.accounts)
            ((length p.free_indices + 2 ^ 64 - length p.removable) % 2 ^ 64)
          ≡ false =
        ground arith in
      rw e refl
