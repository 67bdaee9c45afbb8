-- ===== src/Net/ReaderPool/Tests.antt =====
-- A pool with the socket 7.
use net_lib.Net.ReaderPool.{
  Account, on_failure, on_data_ready, failure, received, ReaderPool, ready_read, on_poller,
}
use net_lib.Net.ReaderPool.Accounts.{IsValid}
use net_lib.Net.ReaderPool.Reading.{ready_read_lem}
use net_lib.Prelude.Dict.{find}
use net_lib.Prelude.{
  ◌≡◌, refl, sym, ap, ◌∙◌, arith, [], ◌∷◌, none, some, ◌==◌, ==_iff, done, inl, inr, Bool-cases,
}

abbrev account : Account
account = record { id = 7; frame_size = 1500 }

abbrev pool : ReaderPool
pool = record { accounts = (7, account) ∷ []; removable = []; log = [] }

pool-IsValid : IsValid pool.accounts
unfolding find
pool-IsValid id acc e = elim (Bool-cases (7 == id)) [
  | inl t ↦
      let x : some account ≡ some acc = rw t at e in
      let y : account ≡ acc = cc in sym (ap (λ (a : Account). a.id) y) ∙ (==_iff 7 id).0 t
  | inr n ↦ absurd (let x : none ≡ some acc = rw n at e in cc)
]

ready_read_lem_example :
    (on_poller pool
        (ready_read 7 (some (received (1 ∷ 2 ∷ []) ∷ received (3 ∷ []) ∷ received [] ∷ [])))
      ≡ done (record {
        accounts = pool.accounts;
        removable = [];
        log = on_data_ready 7 (1 ∷ 2 ∷ 3 ∷ []) ∷ [];
      }))
    × (on_poller pool
          (ready_read 7 (some (received (1 ∷ 2 ∷ []) ∷ received (3 ∷ []) ∷ failure ∷ [])))
        ≡ done (record { accounts = pool.accounts; removable = 7 ∷ []; log = on_failure 7 ∷ [] }))
unfolding find
ready_read_lem_example =
    ready_read_lem pool 7 account ((1 ∷ 2 ∷ []) ∷ (3 ∷ []) ∷ []) [] pool-IsValid refl
      (omega arith, (omega arith, tt))
