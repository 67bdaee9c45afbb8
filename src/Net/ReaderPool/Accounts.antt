-- ===== src/Net/ReaderPool/Accounts.antt =====
-- Well-formed pools: an account stands under its own identifier.
use net_lib.Net.ReaderPool.{
  Account, ReaderPool, PollerEvent, poller_failure, disconnected, ready_read, locate_account,
  new_account, add,
}
use net_lib.Prelude.Dict.{find, find-insert}
use net_lib.Prelude.{
  ℕ, ◌≡◌, ◌≢◌, refl, sym, ap, ◌∙◌, Bool, List, none, some, ◌==◌, ==_iff, ==_self, done, ◌>>=◌, inl,
  inr, Bool-cases, Option-cases,
}

abbrev pub IsValid : List (ℕ × Account) → Type 0
IsValid m = (id : ℕ) (acc : Account) → find id m ≡ some acc → acc.id ≡ id

pub locate_account-find :
    (p : ReaderPool) (id : ℕ) → IsValid p.accounts → locate_account p id ≡ done (find id p.accounts)
unfolding locate_account
locate_account-find p id v = elim (Option-cases (find id p.accounts)) [
  | inl e ↦ rw (locate_account, e) refl
  | inr (acc, e) ↦ rw (locate_account, e, v id acc e, ==_self id) refl
]

new_account-IsValid :
    (p : ReaderPool) (id : ℕ) (b : Bool)
    → IsValid p.accounts
    → IsValid (new_account p id b).accounts
unfolding new_account
new_account-IsValid p id b v j acc e = elim (Bool-cases (id == j)) [
  | inl t ↦
      let new : Account = record { id = id; frame_size = 1500 } in
      let x : some new ≡ some acc = rw (find-insert id j new p.accounts, t) at e in
      let y : new ≡ acc = cc in sym (ap (λ (a : Account). a.id) y) ∙ (==_iff id j).0 t
  | inr n ↦
      v j acc (rw (find-insert id j (record { id = id; frame_size = 1500 }) p.accounts, n) at e)
]

new_account-find :
    (p : ReaderPool) (id : ℕ) (b : Bool)
    → find id (new_account p id b).accounts ≡ some (record { id = id; frame_size = 1500 })
unfolding new_account
new_account-find p id b =
    find-insert id id (record { id = id; frame_size = 1500 }) p.accounts ∙ rw (==_self id) refl

-- Adding a socket to a well-formed pool succeeds, also when the poller fails, keeps the pool well
-- formed, and leaves an account under the identifier.
pub add_lem :
    (p : ReaderPool) (id : ℕ) (add_fails : Bool)
    → IsValid p.accounts
    → (q : ReaderPool) × (add p id add_fails ≡ done q)
      × IsValid q.accounts
      × (acc : Account) × (find id q.accounts ≡ some acc)
unfolding add
add_lem p id b v = elim (Option-cases (find id p.accounts)) [
  | inl e ↦
      let l : locate_account p id ≡ done none = locate_account-find p id v ∙ ap done e in
      (
        new_account p id b,
        rw (l, ◌>>=◌) refl,
        new_account-IsValid p id b v,
        record { id = id; frame_size = 1500 },
        new_account-find p id b,
      )
  | inr (acc, e) ↦
      let l : locate_account p id ≡ done (some acc) = locate_account-find p id v ∙ ap done e in
      (p, rw (l, ◌>>=◌) refl, v, acc, e)
]

-- The socket of an event that needs an account.
abbrev pub Known : List (ℕ × Account) → PollerEvent → Type 0
Known m (poller_failure id) = Unit
Known m (disconnected id) = Unit
Known m (ready_read id sock) = find id m ≢ none
