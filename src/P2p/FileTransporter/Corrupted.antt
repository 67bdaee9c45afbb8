-- ===== src/P2p/FileTransporter/Corrupted.antt =====
-- Chunks that cannot be read.
use net_lib.P2p.FileTransporter.{
  IfileItem, Transporter, on_failure, ready_send, file_stop, record_events, stop_file,
}
use net_lib.P2p.FileTransporter.Incoming.{stop_each, on_corrupted, on_unknown, process_file_chunk}
use net_lib.Prelude.Dict.{find, erase, find-erase}
use net_lib.Prelude.{
  Bool, All, some, ==_self, Bool-cases, inl, inr, if◌then◌else◌, ◌∙◌, ℕ, ◌≡◌, ◌≢◌, refl, ap, arith,
  List, [], ◌∷◌, ◌++◌, append_assoc, none, true, false, ◌==◌, Bytes, done, fails, undefined,
}

-- A chunk that cannot be read, of a file that is not downloaded, when one file is, stops that file,
-- whoever sends it: the download is gone, and the sender of the chunk, which need not be the file's, is
-- told to stop it, and nobody else.
pub process_file_chunk-foreign :
    (percents : ℕ → ℕ → ℕ) (t : Transporter) (addresser fileid offset f : ℕ) (item : IfileItem)
    (bytes : Bytes)
    → t.ifile_pool ≡ (f, item) ∷ []
    → f ≢ fileid
    → process_file_chunk percents t false addresser fileid offset bytes
      ≡ done (record t {
        ifile_pool = [];
        log = t.log ++ (on_failure ∷ ready_send addresser f file_stop ∷ []);
      })
unfolding process_file_chunk on_corrupted on_unknown stop_file record_events find erase
process_file_chunk-foreign percents t addresser fileid offset f item bytes one ne =
    let other : (f == fileid) ≡ false = ground arith in
    let same : (f == f) ≡ true = ground arith in
    let unknown : find fileid t.ifile_pool ≡ none = rw one (rw other refl) in
    let empty : erase f ((f, item) ∷ []) ≡ [] = rw same refl in
    rw (unknown, one, empty)
      (ap (λ l. done (record t { ifile_pool = []; log = l }))
        (append_assoc t.log (on_failure ∷ []) (ready_send addresser f file_stop ∷ [])))

-- Whether a file of the pool is of a sender.
abbrev pub sends : ℕ → List (ℕ × IfileItem) → Bool
sends addresser [] = false
sends addresser ((f, item) ∷ m) = if item.addresser == addresser then true else sends addresser m

-- Every item that is listed is found.
abbrev Listed : List (ℕ × IfileItem) → List (ℕ × IfileItem) → Type 0
Listed pool todo = All (λ x. (item : IfileItem) × (find x.0 pool ≡ some item)) todo

Listed-cons :
    (f : ℕ) (item : IfileItem) (m todo : List (ℕ × IfileItem))
    → Listed m todo
    → Listed ((f, item) ∷ m) todo
unfolding find
Listed-cons f item m [] l = tt
Listed-cons f item m ((g, x) ∷ todo) ((y, e), l) = (
  elim (Bool-cases (f == g)) as (λ _. (i : IfileItem) × (find g ((f, item) ∷ m) ≡ some i)) [
    | inl same ↦ (item, rw same refl)
    | inr other ↦ (y, rw other e)
  ],
  Listed-cons f item m todo l,
)

Listed-self : (pool : List (ℕ × IfileItem)) → Listed pool pool
unfolding find
Listed-self [] = tt
Listed-self ((f, item) ∷ m) = ((item, rw (==_self f) refl), Listed-cons f item m m (Listed-self m))

stop_each_lem :
    (t : Transporter) (addresser : ℕ) (todo : List (ℕ × IfileItem))
    → Listed t.ifile_pool todo
    → stop_each t addresser todo ≡ (if sends addresser todo then fails undefined else done t)
unfolding stop_each stop_file
stop_each_lem t addresser [] l = refl
stop_each_lem t addresser ((f, item) ∷ m) ((x, e), l) =
    elim (Bool-cases (item.addresser == addresser)) [
      | inl own ↦
          let gone : find f (erase f t.ifile_pool) ≡ none =
            find-erase f f t.ifile_pool ∙ rw (==_self f) refl in
          rw (stop_each, own, gone) refl
      | inr other ↦ rw (stop_each, other, e, other) (stop_each_lem t addresser m l)
    ]

-- A chunk that cannot be read, of a file that is not downloaded, when two files are or more: if
-- one of them is of its sender, the loop that stops the sender's files erases what it goes
-- through, which is undefined; if none is, the failure is reported and nothing else changes.
pub process_file_chunk-iterating :
    (percents : ℕ → ℕ → ℕ) (t : Transporter) (addresser fileid offset f g : ℕ)
    (item item' : IfileItem) (m : List (ℕ × IfileItem)) (bytes : Bytes)
    → t.ifile_pool ≡ (f, item) ∷ (g, item') ∷ m
    → find fileid t.ifile_pool ≡ none
    → process_file_chunk percents t false addresser fileid offset bytes ≡ (
        if sends addresser t.ifile_pool
        then fails undefined
        else done (record_events t (on_failure ∷ [])))
unfolding process_file_chunk on_corrupted on_unknown record_events
process_file_chunk-iterating percents t addresser fileid offset f g item item' m bytes two
      none_such =
    let t' = record_events t (on_failure ∷ []) in
    let listed : Listed t'.ifile_pool t'.ifile_pool = Listed-self t.ifile_pool in
    let loop = stop_each_lem t' addresser t'.ifile_pool listed in
    let many : on_unknown t' addresser t.ifile_pool ≡ stop_each t' addresser t.ifile_pool =
      rw two refl in
    rw none_such (many ∙ loop)
