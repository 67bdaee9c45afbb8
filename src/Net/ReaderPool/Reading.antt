-- ===== src/Net/ReaderPool/Reading.antt =====
-- What a ready socket delivers.
use net_lib.Net.ReaderPool.{
  Account, on_failure, on_data_ready, Received, failure, received, ReaderPool, ready_read,
  remove_later, recv_all, deliver, read_socket, on_poller, locate_account,
}
use net_lib.Net.ReaderPool.Accounts.{IsValid, locate_account-find}
use net_lib.Prelude.Dict.{find}
use net_lib.Prelude.{
  ℕ, ◌<◌, ◌≡◌, sym, ap, ◌∙◌, arith, List, [], ◌∷◌, ◌++◌, map, append_assoc, append-nil, length, All,
  some, Bytes, done, ◌>>=◌,
}

abbrev pub concat : List Bytes → Bytes
concat [] = []
concat (c ∷ cs) = c ++ concat cs

-- Chunks that are not empty are all read.
recv_all-chunks :
    (chunks : List Bytes) (rest : List Received) (inpb : Bytes)
    → All (λ c. 0 < length c) chunks
    → recv_all (map received chunks ++ rest) inpb ≡ recv_all rest (inpb ++ concat chunks)
unfolding recv_all
recv_all-chunks [] rest inpb ok = ap (recv_all rest) (sym (append-nil inpb))
recv_all-chunks ([] ∷ chunks) rest inpb (pos, ok) = absurd (omega arith)
recv_all-chunks ((c ∷ cs) ∷ chunks) rest inpb (pos, ok) =
    recv_all-chunks chunks rest (inpb ++ (c ∷ cs)) ok
    ∙ ap (recv_all rest) (append_assoc inpb (c ∷ cs) (concat chunks))

-- When a socket with an account in a well-formed pool is ready, and its recv answers with chunks
-- that are not empty: if the next answer is that nothing is left, all chunks are delivered as
-- one, in order, and nothing else changes; if the next answer is a failure, the socket is marked
-- for removal and reported, and none of the bytes read before is delivered.
pub ready_read_lem :
    (p : ReaderPool) (id : ℕ) (acc : Account) (chunks : List Bytes) (rest : List Received)
    → IsValid p.accounts
    → find id p.accounts ≡ some acc
    → All (λ c. 0 < length c) chunks
    → (on_poller p (ready_read id (some (map received chunks ++ (received [] ∷ rest))))
        ≡ done (record p { log = p.log ++ (on_data_ready id (concat chunks) ∷ []) }))
      × (on_poller p (ready_read id (some (map received chunks ++ (failure ∷ rest))))
          ≡ done (record p {
            removable = p.removable ++ (id ∷ []);
            log = p.log ++ (on_failure id ∷ []);
          }))
unfolding on_poller read_socket deliver remove_later recv_all
ready_read_lem p id acc chunks rest v e ok =
    let l : locate_account p id ≡ done (some acc) = locate_account-find p id v ∙ ap done e in
    (
      rw (l, ◌>>=◌)
          (ap (λ o. done (deliver p id o)) (recv_all-chunks chunks (received [] ∷ rest) [] ok)),
      rw (l, ◌>>=◌)
          (ap (λ o. done (deliver p id o)) (recv_all-chunks chunks (failure ∷ rest) [] ok)),
    )
