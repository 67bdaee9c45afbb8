-- ===== src/Net/WriterPool/Accounts.antt =====
-- Insertion into and removal from the map of accounts.
use net_lib.Net.QueueOps.{QueueOps, StreamLaws}
use net_lib.Net.WriterPool.Pass.{AccountsOk, pending_at, total}
use net_lib.Net.WriterPool.{u64, Account, locate_account, remove_accounts}
use net_lib.Prelude.Dict.{find, insert, erase, find-insert, find-erase}
use net_lib.Prelude.{
  ℕ, ◌+◌, ◌<◌, ◌≡◌, refl, sym, ◌∙◌, subst, arith, List, [], ◌∷◌, Option, none, some, ◌==◌, length,
  done, inl, inr, Bool-cases, ==_iff,
}

module _ (o : QueueOps) (laws : StreamLaws o) where
  pub insert-AccountsOk :
      (id : ℕ) (a : Account o) (m : List (ℕ × Account o))
      → a.id ≡ id
      → laws.IsValid a.q
      → a.frame_size < u64
      → AccountsOk o laws m
      → AccountsOk o laws (insert id a m)
  unfolding find insert
  insert-AccountsOk id a [] e v z ok = (e, v, z, refl, tt)
  insert-AccountsOk id a ((k, b) ∷ m) e v z (i, w, y, fresh, ok) = elim (Bool-cases (k == id)) [
    | inl t ↦ rw t (e ∙ sym ((==_iff k id).0 t), v, z, fresh, ok)
    | inr f ↦
        rw f (i, w, y, ground (arith, find-insert id k a m), insert-AccountsOk id a m e v z ok)
  ]

  pub total-insert :
      (id : ℕ) (a : Account o) (m : List (ℕ × Account o))
      → total o laws (insert id a m) + length (pending_at o laws id m)
        ≡ total o laws m + length (laws.pending a.q)
  unfolding find insert
  total-insert id a [] = omega arith
  total-insert id a ((k, b) ∷ m) = elim (Bool-cases (k == id)) [
    | inl t ↦ rw t (omega arith)
    | inr f ↦ rw f (omega (arith, total-insert id a m))
  ]

  pub erase-AccountsOk :
      (id : ℕ) (m : List (ℕ × Account o)) → AccountsOk o laws m → AccountsOk o laws (erase id m)
  unfolding find erase
  erase-AccountsOk id [] ok = tt
  erase-AccountsOk id ((k, b) ∷ m) (i, w, y, fresh, ok) = elim (Bool-cases (k == id)) [
    | inl t ↦ rw t (erase-AccountsOk id m ok)
    | inr f ↦ rw f (i, w, y, ground (arith, find-erase id k m), erase-AccountsOk id m ok)
  ]

  pub remove_accounts-AccountsOk :
      (ids : List ℕ) (m : List (ℕ × Account o))
      → AccountsOk o laws m
      → AccountsOk o laws (remove_accounts o ids m)
  unfolding remove_accounts
  remove_accounts-AccountsOk [] m ok = ok
  remove_accounts-AccountsOk (id ∷ ids) m ok =
      remove_accounts-AccountsOk ids (erase id m) (erase-AccountsOk id m ok)

  -- `PFS__TERMINATE` of `locate_account` cannot strike: keys are their accounts' identifiers.
  pub find-AccountsOk :
      (id : ℕ) (m : List (ℕ × Account o)) {a : Account o}
      → AccountsOk o laws m
      → find id m ≡ some a
      → (a.id ≡ id) × laws.IsValid a.q × (a.frame_size < u64)
  unfolding find
  find-AccountsOk id [] ok e = absurd (cc)
  find-AccountsOk id ((k, b) ∷ m) {a} (i, w, y, fresh, ok) e = elim (Bool-cases (k == id)) [
    | inl t ↦
        let same : b ≡ a = ground arith in
        subst (λ (x : Account o). (x.id ≡ id) × laws.IsValid x.q × (x.frame_size < u64)) same
          (i ∙ (==_iff k id).0 t, w, y)
    | inr f ↦ find-AccountsOk id m {a = a} ok (ground arith)
  ]

  pub locate_account_lem :
      (m : List (ℕ × Account o)) (id : ℕ)
      → AccountsOk o laws m
      → locate_account o m id ≡ done (find id m)
  unfolding locate_account
  locate_account_lem m id ok = go (find id m) refl
    where
      go : (r : Option (Account o)) → find id m ≡ r → locate_account o m id ≡ done r
      go none e = rw (e, locate_account)
      go (some a) e = rw (e, locate_account, (==_iff a.id id).1 (find-AccountsOk id m ok e).0)
