-- ===== src/P2p/FileTransporter/Tests.antt =====
-- A file of seven bytes in chunks of three, and peers that are lost or send what cannot be read.
use net_lib.P2p.FileTransporter.{
  Event, Options, Transporter, download_complete, expire_addressee, expire_addresser, file_request,
  file_success, on_failure, record_events, ready_send, step, without_addressee,
}
use net_lib.P2p.FileTransporter.Corrupted.{sends, process_file_chunk-iterating}
use net_lib.P2p.FileTransporter.Incoming.{
  listing, commit_incoming_file, process_file_chunk, send_file_request,
}
use net_lib.P2p.FileTransporter.Pools.{interrupted, not_to, step-expire_addressee}
use net_lib.P2p.FileTransporter.Protocol.{
  IsSent, send_file-transfer, send_file_request-expire_addresser,
}
use net_lib.P2p.FileTransporter.Receiving.{Holds}
use net_lib.P2p.FileTransporter.Targets.{commit_incoming_file_lem}
use net_lib.P2p.FileTransporter.Transfer.{IsTransferred, transfer, transfer_lem}
use net_lib.Prelude.Dict.{find}
use net_lib.Prelude.{
  ℕ, ◌+◌, ◌-◌, ◌*◌, ◌/◌, ◌≡◌, refl, arith, List, [], ◌∷◌, ◌++◌, Option, none, some, true, false,
  Bytes, done, fails, undefined, length, if◌then◌else◌, ◌==◌,
}

abbrev file : Bytes
file = 1 ∷ 2 ∷ 3 ∷ 4 ∷ 5 ∷ 6 ∷ 7 ∷ []

abbrev options : Options
options = record { download_progress_granularity = 1; file_chunk_size = 3; max_file_size = 100 }

abbrev idle : Transporter
idle = record {
  opts = options;
  ifile_pool = [];
  ofile_pool = [];
  descs = λ p f. none;
  datas = λ p f. none;
  dones = λ p f. none;
  targets = λ p n. none;
  cache = λ f. none;
  log = [];
}

abbrev percents : ℕ → ℕ → ℕ
percents part whole = part * 100 / whole

abbrev numbered : ℕ → ℕ → ℕ
numbered name counter = name + 1000 * counter

abbrev on_disk : ℕ → Option Bytes
on_disk path = if path == 40 then some file else none

send_file-transfer_example :
    IsSent percents numbered (λ n. n) on_disk 1 2 9 file 30 (omega arith) idle idle 0 40
unfolding find
send_file-transfer_example =
    send_file-transfer percents numbered (λ n. n) on_disk 1 2 9 file 30 (omega arith) idle idle 0 40
      (λ e. absurd (omega arith)) (omega arith) (omega arith) refl refl (refl) refl refl

-- Five bytes have arrived.
abbrev downloading : Transporter
downloading = record idle {
  ifile_pool =
      (9, record { addresser = 1; filesize = 7 })
      ∷ (8, record { addresser = 3; filesize = 2 })
      ∷ [];
  descs = λ p f. if f == 9 then some (record { offset = 5; filesize = 7; filename = 30 }) else none;
  datas = λ p f. if f == 9 then some (1 ∷ 2 ∷ 3 ∷ 4 ∷ 5 ∷ []) else none;
}

abbrev uploading : Transporter
uploading = record idle {
  ofile_pool =
      (9, record { addressee = 2; content = file; position = 5; chunk_requested = false }) ∷ [];
}

holds : Holds 1 9 file 30 5 downloading
unfolding find
holds = record {
  item = refl;
  desc = record { offset = 5; filesize = 7; filename = 30 };
  has_desc = refl;
  named = refl;
  sized = refl;
  at_offset = refl;
  bytes = 1 ∷ 2 ∷ 3 ∷ 4 ∷ 5 ∷ [];
  has_data = refl;
  front = record { front = refl; enough = omega arith; fits = omega arith };
}

transfer_lem_example :
    (s' t' : Transporter) × (transfer percents numbered
        (λ n. n)
        on_disk
        1
        2
        9
        (length file - 5 + 2)
        uploading
        downloading
      ≡ done (s', t'))
    × IsTransferred percents numbered
        (λ n. n)
        on_disk
        1
        2
        9
        file
        30
        (omega arith)
        uploading
        s'
        downloading
        t'
transfer_lem_example =
    transfer_lem percents numbered (λ n. n) on_disk 1 2 9 file 30 (omega arith) uploading
      downloading (record { addressee = 2; content = file; position = 5; chunk_requested = false })
      (omega arith) refl refl refl (omega arith) holds refl

send_file_request-expire_addresser_example :
    (find 9 (expire_addresser downloading 1).ifile_pool ≡ none)
    × ((t' : Transporter) × (send_file_request (expire_addresser downloading 1) 1 9 ≡ done t')
        × Holds 1 9 file 30 5 t'
        × (t'.targets ≡ downloading.targets)
        × (t'.log
            ≡ downloading.log
              ++ (interrupted 1 downloading.ifile_pool ++ (ready_send 1 9 (file_request 5) ∷ []))))
unfolding find
send_file_request-expire_addresser_example =
    send_file_request-expire_addresser 1 9 file 30 5 downloading (refl, (refl, tt)) holds

step-expire_addressee_example :
    ((step (expire_addressee uploading 2) (λ p. true)).0.ofile_pool
      ≡ without_addressee 2 (step uploading (λ p. true)).0.ofile_pool)
    × ((events : List Event) × ((step uploading (λ p. true)).0.log ≡ [] ++ events)
        × ((step (expire_addressee uploading 2) (λ p. true)).0.log ≡ [] ++ not_to 2 events))
step-expire_addressee_example = step-expire_addressee uploading 2 (λ p. true)

-- The name is taken already.
abbrev crowded : Transporter
crowded = record downloading { targets = λ p n. if n == 30 then some [] else none }

commit_incoming_file_lem_example :
    (t' : Transporter) × (path : ℕ) × (commit_incoming_file numbered (λ n. n) crowded 1 9 ≡ done t')
    × (listing crowded.targets 1 path ≡ none)
    × (t'.targets 1 path ≡ some (1 ∷ 2 ∷ 3 ∷ 4 ∷ 5 ∷ []))
    × ((p n : ℕ) (b : Bytes) → crowded.targets p n ≡ some b → t'.targets p n ≡ some b)
    × (find 9 t'.ifile_pool ≡ none)
    × (t'.datas 1 9 ≡ none)
    × (t'.log ≡ [] ++ (ready_send 1 9 file_success ∷ download_complete 1 9 path ∷ []))
unfolding find
commit_incoming_file_lem_example =
    commit_incoming_file_lem numbered (λ n. n) crowded 1 9 1
      (record { addresser = 1; filesize = 7 }) (record { offset = 5; filesize = 7; filename = 30 })
      (1 ∷ 2 ∷ 3 ∷ 4 ∷ 5 ∷ []) refl refl refl (omega arith) (omega arith) refl

process_file_chunk-iterating_example : process_file_chunk percents downloading false 3 7 0 [] ≡ (
    if sends 3 downloading.ifile_pool
    then fails undefined
    else done (record_events downloading (on_failure ∷ [])))
unfolding find
process_file_chunk-iterating_example =
    process_file_chunk-iterating percents downloading 3 7 0 9 8
      (record { addresser = 1; filesize = 7 }) (record { addresser = 3; filesize = 2 }) [] [] refl
      refl
