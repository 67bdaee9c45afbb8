-- ===== src/Net/WriterPool/Removal.antt =====
-- `remove_later` and `apply_remove`.
use net_lib.Net.QueueOps.{QueueOps, StreamLaws}
use net_lib.Net.WriterPool.Send.{sent_to, sent_to-append}
use net_lib.Net.WriterPool.Accounts.{remove_accounts-AccountsOk}
use net_lib.Net.WriterPool.Queueing.{PoolOk}
use net_lib.Net.WriterPool.{Account, Pool, apply_remove, remove_accounts, removal_events}
use net_lib.Prelude.Dict.{find, erase, find-erase}
use net_lib.Prelude.{
  ℕ, ◌≡◌, refl, ap, ◌∙◌, arith, List, [], ◌∷◌, ◌++◌, none, if◌then◌else◌, append-nil, mem,
}

sent_to-removal_events : (j : ℕ) (ids : List ℕ) → sent_to j (removal_events ids) ≡ []
unfolding sent_to removal_events
sent_to-removal_events j [] = refl
sent_to-removal_events j (id ∷ ids) = sent_to-removal_events j ids

module _ (o : QueueOps) (laws : StreamLaws o) where
  find-remove_accounts :
      (j : ℕ) (ids : List ℕ) (m : List (ℕ × Account o))
      → find j (remove_accounts o ids m) ≡ (if mem j ids then none else find j m)
  unfolding remove_accounts
  find-remove_accounts j [] m = refl
  find-remove_accounts j (id ∷ ids) m =
      ground (arith, find-remove_accounts j ids (erase id m), find-erase id j m)

  -- In a well-formed pool apply_remove removes the accounts that were marked, and no other, and
  -- keeps the pool well formed. Nothing is sent, the marks are cleared, and the count of
  -- remaining bytes stays as it was.
  pub apply_remove_lem :
      (p : Pool o)
      → PoolOk o laws p
      → let q = apply_remove o p in
        PoolOk o laws q
        × ((j : ℕ) → find j q.accounts ≡ (if mem j p.removable then none else find j p.accounts))
        × ((j : ℕ) → sent_to j q.log ≡ sent_to j p.log)
        × (q.removable ≡ [])
        × (q.remain_bytes ≡ p.remain_bytes)
  unfolding apply_remove
  apply_remove_lem p pok = (
    record {
      ok = remove_accounts-AccountsOk o laws p.removable p.accounts pok.ok;
      bounded = pok.bounded;
    },
    λ j. find-remove_accounts j p.removable p.accounts,
    λ j.
        sent_to-append j p.log _
        ∙ ap (◌++◌ (sent_to j p.log)) (sent_to-removal_events j p.removable)
        ∙ append-nil _,
    refl,
    refl,
  )
