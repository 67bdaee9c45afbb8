-- ===== src/P2p/FileTransporter/Incoming.antt =====
-- Lines 258 to 301, 322 to 349, 372 to 531, 633 to 796 and 915 to 938 of
-- include/pfs/netty/p2p/file_transporter.hpp: files that come in, and the packets about files. An
-- exception is `unexpected_data`.
use net_lib.P2p.FileTransporter.{
  FilePacket, Event, IfileItem, Desc, Files, Transporter, file_request, file_begin,
  file_credentials, file_stop, file_end, file_success, file_chunk, on_failure, ready_send,
  upload_stopped, download_progress, download_complete, set_file, record_events, remove_ofile_item,
  complete_file, stop_file,
}
use net_lib.Prelude.Dict.{find, insert, erase}
use net_lib.Prelude.{
  ℕ, zero, suc, ◌+◌, ◌-◌, ◌*◌, ◌/◌, ◌%◌, ◌^◌, List, [], ◌∷◌, ◌++◌, Option, none, some, Bool, true,
  false, ltb, ◌==◌, if◌then◌else◌, length, take, drop, replicate, Bytes, Outcome, done, fails,
  undefined, unexpected_data, ◌>>=◌, min,
}

abbrev pub thrown {ℓ} : {A : Type ℓ} → Outcome A
thrown = fails unexpected_data

-- What a file must hold.
abbrev pub file_at : {V : Type 0} → Option V → Outcome V
file_at none = thrown
file_at (some v) = done v

-- A file that is opened for writing is made where there is none.
abbrev pub created : Option Bytes → Bytes
created none = []
created (some bytes) = bytes

-- The item of a file, whoever sends it. Where there is none, it is made, and its files opened.
unfoldable pub ensure_ifile_item : Transporter → (addresser fileid : ℕ) → Transporter
ensure_ifile_item t addresser fileid = elim (find fileid t.ifile_pool) [
  | some item ↦ t
  | none ↦ record t {
    ifile_pool = insert fileid (record { addresser = addresser; filesize = 0 }) t.ifile_pool;
    datas = set_file t.datas addresser fileid (some (created (t.datas addresser fileid)));
  }
]

-- Bytes written at an offset; a gap reads as zeros.
unfoldable pub write_at : ℕ → Bytes → Bytes → Bytes
write_at offset bytes old =
    take offset old
    ++ (replicate (offset - length old) 0 ++ (bytes ++ drop (offset + length bytes) old))

-- The lower half of the offset, which is kept in eight bytes, is overwritten.
unfoldable pub write_offset : ℕ → Desc → Desc
write_offset offset d = record d { offset = d.offset / 2 ^ 32 * 2 ^ 32 + offset % 2 ^ 32 }

module _ (percents : ℕ → ℕ → ℕ) where
  -- Whether progress is reported; `percents` is a part of the size, rounded to percent.
  unfoldable pub pass_download_progress : (granularity filesize last_offset offset : ℕ) → Bool
  pass_download_progress granularity filesize last_offset offset =
      if filesize == offset
      then true
      else if granularity == 0
      then true
      else if ltb (percents last_offset filesize) (percents offset filesize)
      then percents offset filesize % granularity == 0
      else false

  unfoldable pub progress_events :
      Transporter → (addresser fileid filesize last_offset offset : ℕ) → List Event
  progress_events t addresser fileid filesize last_offset offset =
      if ltb 0 filesize
      then if pass_download_progress t.opts.download_progress_granularity filesize last_offset
          offset
        then download_progress addresser fileid offset filesize ∷ []
        else []
      else []

  -- The chunk goes to the files of the item, whose addresser need not be the sender's.
  unfoldable pub commit_chunk :
      Transporter → (addresser fileid offset : ℕ) → Bytes → Outcome Transporter
  commit_chunk t addresser fileid offset bytes = elim (find fileid t.ifile_pool) [
    | none ↦ done t
    | some item ↦ do
      old ← file_at (t.datas item.addresser fileid)
      desc ← file_at (t.descs item.addresser fileid)
      let after = offset + length bytes
      done (record t {
        datas = set_file t.datas item.addresser fileid (some (write_at offset bytes old));
        descs = set_file t.descs item.addresser fileid (some (write_offset after desc));
        log = t.log ++ progress_events t addresser fileid item.filesize offset after;
      })
  ]

abbrev pub exists : Option Bytes → Bool
exists none = false
exists (some bytes) = true

-- The name of the directory of the files that are not complete, which lies beside those that are, and
-- is there once a description was looked up.
abbrev pub transient : ℕ
transient = 0

abbrev pub listing : Files Bytes → Files Bytes
listing targets p n = if n == transient then some [] else targets p n

module _ (numbered : (name counter : ℕ) → ℕ) (unique : ℕ → ℕ) where
  -- Numbered names, until one is free or the counter has reached its last value.
  unfoldable pub search_name :
      (rounds counter path : ℕ) → Files Bytes → (addresser filename : ℕ) → ℕ
  search_name zero counter path targets addresser filename = path
  search_name (suc rounds) counter path targets addresser filename =
      let rest =
        search_name rounds (suc counter) (numbered filename counter) targets addresser filename in
      if exists (targets addresser path) then rest else path

  unfoldable pub last_chance : Files Bytes → (addresser filename path : ℕ) → Outcome ℕ
  last_chance targets addresser filename path =
      if exists (targets addresser path)
      then if exists (targets addresser (unique filename)) then thrown else done (unique filename)
      else done path

  unfoldable pub make_targetfilepath : Files Bytes → (addresser filename : ℕ) → Outcome ℕ
  make_targetfilepath targets addresser filename =
      if exists (targets addresser filename)
      then last_chance targets addresser filename
          (search_name (2 ^ 31 - 2) 1 filename targets addresser filename)
      else done filename

  unfoldable pub commit_incoming_file : Transporter → (addresser fileid : ℕ) → Outcome Transporter
  commit_incoming_file t addresser fileid = elim (find fileid t.ifile_pool) [
    | none ↦ done (record_events t (on_failure ∷ []))
    | some item ↦ do
      desc ← file_at (t.descs addresser fileid)
      path ← make_targetfilepath (listing t.targets) addresser desc.filename
      bytes ← file_at (t.datas addresser fileid)
      done (record t {
        ifile_pool = erase fileid t.ifile_pool;
        descs = set_file t.descs addresser fileid none;
        dones = set_file t.dones addresser fileid (some desc);
        datas = set_file t.datas addresser fileid none;
        targets = set_file t.targets addresser path (some bytes);
        log =
            t.log
            ++ (ready_send addresser fileid file_success
                ∷ download_complete addresser fileid path
                ∷ []);
      })
  ]

unfoldable pub cache_incoming_file_credentials :
    Transporter → (addresser fileid filename filesize offset : ℕ) → Transporter
cache_incoming_file_credentials t addresser fileid filename filesize offset =
    elim (t.descs addresser fileid) [
      | some desc ↦ t
      | none ↦ record t {
        descs =
            set_file t.descs addresser fileid
              (some (record { offset = offset; filesize = filesize; filename = filename }));
        datas = set_file t.datas addresser fileid (some []);
      }
    ]

-- The item gets the size.
abbrev pub set_filesize : ℕ → ℕ → Option IfileItem → List (ℕ × IfileItem) → List (ℕ × IfileItem)
set_filesize fileid filesize none pool = pool
set_filesize fileid filesize (some item) pool =
    insert fileid (record item { filesize = filesize }) pool

unfoldable pub send_file_request : Transporter → (addressee fileid : ℕ) → Outcome Transporter
send_file_request t addressee fileid = do
  desc ← file_at (t.descs addressee fileid)
  bytes ← file_at (t.datas addressee fileid)
  let t' = ensure_ifile_item t addressee fileid
  done (record t' {
    ifile_pool = set_filesize fileid desc.filesize (find fileid t'.ifile_pool) t'.ifile_pool;
    log =
        t'.log
        ++ (ready_send addressee fileid (file_request (min desc.offset (length bytes))) ∷ []);
  })

-- The file is on the path that was cached; `open_file` opens it.
unfoldable pub process_file_request :
    Transporter → (ℕ → Option Bytes) → (addresser fileid offset : ℕ) → Outcome Transporter
process_file_request t open_file addresser fileid offset = do
  path ← file_at (t.cache fileid)
  content ← file_at (open_file path)
  done (record t {
    ofile_pool =
        t.ofile_pool
        ++ ((
          fileid,
          record {
            addressee = addresser;
            content = content;
            position = offset;
            chunk_requested = true;
          },
        )
            ∷ []);
    log = t.log ++ (ready_send addresser fileid (file_begin offset) ∷ []);
  })

unfoldable pub process_file_begin : Transporter → (addresser fileid offset : ℕ) → Transporter
process_file_begin t addresser fileid offset = elim (find fileid t.ifile_pool) [
  | none ↦ t
  | some item ↦ record_events t (download_progress addresser fileid offset item.filesize ∷ [])
]

-- The loop over the pool: `todo` are the items from the iterator on. A sender's file is stopped, which
-- erases its item; to step on from an item that is no longer there is undefined.
unfoldable pub stop_each :
    Transporter → (addresser : ℕ) → (todo : List (ℕ × IfileItem)) → Outcome Transporter
stop_each t addresser [] = done t
stop_each t addresser ((f, item) ∷ m) =
    let t' = if item.addresser == addresser then stop_file t addresser f else t in
    elim (find f t'.ifile_pool) [ none ↦ fails undefined | some x ↦ stop_each t' addresser m ]

-- The file is unknown: the only one, or those of the sender, are stopped.
unfoldable pub on_unknown : Transporter → ℕ → List (ℕ × IfileItem) → Outcome Transporter
on_unknown t addresser ((f, item) ∷ []) = done (stop_file t addresser f)
on_unknown t addresser pool = stop_each t addresser pool

abbrev pub is_known : Option IfileItem → Bool
is_known none = false
is_known (some item) = true

-- A chunk that cannot be read or written; the file is taken from its header.
unfoldable pub on_corrupted : Transporter → (addresser fileid : ℕ) → Outcome Transporter
on_corrupted t addresser fileid =
    let t' = record_events t (on_failure ∷ []) in
    if is_known (find fileid t.ifile_pool)
    then done (stop_file t' addresser fileid)
    else on_unknown t' addresser t.ifile_pool

module _ (percents : ℕ → ℕ → ℕ) where
  -- `readable` is whether the packet can be read.
  unfoldable pub process_file_chunk :
      Transporter → (readable : Bool) → (addresser fileid offset : ℕ) → Bytes → Outcome Transporter
  process_file_chunk t readable addresser fileid offset bytes =
      let caught = on_corrupted t addresser fileid in
      if readable
      then elim (commit_chunk percents t addresser fileid offset bytes)
          as (λ _. Outcome Transporter) [ done t' ↦ done t' | fails f ↦ caught ]
      else caught

  -- A packet about a file, of any type.
  unfoldable pub process_file_data :
      (numbered : (name counter : ℕ) → ℕ)
      → (unique : ℕ → ℕ) → (open_file : ℕ → Option Bytes) → Transporter
      → (addresser fileid : ℕ) → FilePacket
      → Outcome Transporter
  process_file_data numbered unique open_file t p f (file_credentials name size offset) =
      send_file_request (cache_incoming_file_credentials t p f name size offset) p f
  process_file_data numbered unique open_file t p f (file_request offset) =
      process_file_request t open_file p f offset
  process_file_data numbered unique open_file t p f (file_begin offset) =
      done (process_file_begin t p f offset)
  process_file_data numbered unique open_file t p f file_stop =
      done (record_events (remove_ofile_item t p f) (upload_stopped p f ∷ []))
  process_file_data numbered unique open_file t p f file_end =
      commit_incoming_file numbered unique t p f
  process_file_data numbered unique open_file t p f file_success = done (complete_file t p f)
  process_file_data numbered unique open_file t p f (file_chunk offset bytes) =
      process_file_chunk t true p f offset bytes
