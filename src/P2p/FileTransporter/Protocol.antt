-- ===== src/P2p/FileTransporter/Protocol.antt =====
-- The whole transfer of a file, from send_file to the end, and a transfer that is taken up again.
use net_lib.P2p.FileTransporter.{
  FilePacket, IfileItem, OfileItem, Desc, Transporter, file_credentials, file_request, file_begin,
  ready_send, download_progress, set_file, set_cache, send_file, send_credentials, record_events,
  expire_addresser,
}
use net_lib.P2p.FileTransporter.Incoming.{
  listing, process_file_data, process_file_request, process_file_begin,
  cache_incoming_file_credentials, send_file_request, ensure_ifile_item,
}
use net_lib.P2p.FileTransporter.Receiving.{Holds, IsFront, set_file_self}
use net_lib.P2p.FileTransporter.Transfer.{transfer, transfer_lem, IsTransferred}
use net_lib.P2p.FileTransporter.Pools.{interrupted, expire_addresser_lem}
use net_lib.Prelude.Dict.{find, Distinct, insert, find-insert}
use net_lib.Prelude.{
  ℕ, ◌+◌, ◌-◌, ◌^◌, ◌≤◌, ◌<◌, ◌≡◌, ◌≢◌, refl, ap, ◌∙◌, arith, [], ◌∷◌, ◌++◌, append_assoc, Option,
  none, some, true, false, length, min, ltb, ◌==◌, ==_self, Bytes, Outcome, done,
}

-- What the receiver has, and knows from the description, while it does not download.
pub record Stores (sender fileid : ℕ) (file : Bytes) (name offset : ℕ) (t : Transporter)
    : Type 0 where
  pub no_item : find fileid t.ifile_pool ≡ none
  pub desc : Desc
  pub has_desc : t.descs sender fileid ≡ some desc
  pub named : desc.filename ≡ name
  pub sized : desc.filesize ≡ length file
  pub at_offset : desc.offset ≡ offset
  pub bytes : Bytes
  pub has_data : t.datas sender fileid ≡ some bytes
  pub front : IsFront file offset bytes

module _ (sender fileid : ℕ) (file : Bytes) (name : ℕ) where
  ensure_lem :
      (t : Transporter) (bytes : Bytes)
      → find fileid t.ifile_pool ≡ none
      → t.datas sender fileid ≡ some bytes
      → ensure_ifile_item t sender fileid ≡ record t {
        ifile_pool = insert fileid (record { addresser = sender; filesize = 0 }) t.ifile_pool;
        datas = set_file t.datas sender fileid (some bytes);
      }
  unfolding ensure_ifile_item
  ensure_lem t bytes e d = rw (ensure_ifile_item, e, d) refl

  -- A download that is not running is taken up where it stopped.
  pub send_file_request_lem :
      (offset : ℕ) (t : Transporter)
      → Stores sender fileid file name offset t
      → (t' : Transporter) × (send_file_request t sender fileid ≡ done t')
        × Holds sender fileid file name offset t'
        × (t'.targets ≡ t.targets)
        × (t'.log ≡ t.log ++ (ready_send sender fileid (file_request offset) ∷ []))
  unfolding send_file_request
  send_file_request_lem offset t h =
      let item : IfileItem = record { addresser = sender; filesize = length file } in
      let item0 : IfileItem = record { addresser = sender; filesize = 0 } in
      let pool = insert fileid item0 t.ifile_pool in
      let opened : find fileid pool ≡ some item0 =
        find-insert fileid fileid item0 t.ifile_pool ∙ rw (==_self fileid) refl in
      let clamped : min h.desc.offset (length h.bytes) ≡ offset =
        rw h.at_offset (omega (arith, h.front.enough)) in
      (
        record t {
          ifile_pool = insert fileid item pool;
          datas = set_file t.datas sender fileid (some h.bytes);
          log = t.log ++ (ready_send sender fileid (file_request offset) ∷ []);
        },
        rw
            (
              h.has_desc,
              h.has_data,
              ensure_lem t h.bytes h.no_item h.has_data,
              opened,
              h.sized,
              clamped,
            )
            refl,
        record {
          item = find-insert fileid fileid item pool ∙ rw (==_self fileid) refl;
          desc = h.desc;
          has_desc = h.has_desc;
          named = h.named;
          sized = h.sized;
          at_offset = h.at_offset;
          bytes = h.bytes;
          has_data = set_file_self t.datas sender fileid (some h.bytes);
          front = h.front;
        },
        refl,
        refl,
      )

  expire-targets : (t : Transporter) → (expire_addresser t sender).targets ≡ t.targets
  unfolding expire_addresser
  expire-targets t = refl

  Stores-expire :
      (offset : ℕ) (t : Transporter)
      → Holds sender fileid file name offset t
      → find fileid (expire_addresser t sender).ifile_pool ≡ none
      → Stores sender fileid file name offset (expire_addresser t sender)
  unfolding expire_addresser
  Stores-expire offset t h gone = record {
    no_item = gone;
    desc = h.desc;
    has_desc = h.has_desc;
    named = h.named;
    sized = h.sized;
    at_offset = h.at_offset;
    bytes = h.bytes;
    has_data = h.has_data;
    front = h.front;
  }

  -- When a download that has come to some offset is interrupted by the loss of its sender, in a
  -- pool of different files, and requested again, the request is for that offset and the receiver
  -- is where it was.
  pub send_file_request-expire_addresser :
      (offset : ℕ) (t : Transporter)
      → Distinct t.ifile_pool
      → Holds sender fileid file name offset t
      → (find fileid (expire_addresser t sender).ifile_pool ≡ none)
        × ((t' : Transporter) × (send_file_request (expire_addresser t sender) sender fileid
              ≡ done t')
            × Holds sender fileid file name offset t'
            × (t'.targets ≡ t.targets)
            × (t'.log
                ≡ t.log
                  ++ (interrupted sender t.ifile_pool
                      ++ (ready_send sender fileid (file_request offset) ∷ []))))
  send_file_request-expire_addresser offset t d h =
      let (left, log) = expire_addresser_lem t sender d in
      let gone : find fileid (expire_addresser t sender).ifile_pool ≡ none =
        left fileid ∙ rw h.item (rw (==_self sender) refl) in
      let stored : Stores sender fileid file name offset (expire_addresser t sender) =
        Stores-expire offset t h gone in
      let (t', run, holds, targets, log') =
        send_file_request_lem offset (expire_addresser t sender) stored in
      (
        gone,
        (
          t',
          run,
          holds,
          targets ∙ expire-targets t,
          log'
              ∙ ap (λ l. l ++ (ready_send sender fileid (file_request offset) ∷ [])) log
              ∙ append_assoc t.log (interrupted sender t.ifile_pool) _,
        ),
      )

module _ (percents numbered : ℕ → ℕ → ℕ) (unique : ℕ → ℕ) (open_file : ℕ → Option Bytes)
    (sender receiver fileid : ℕ) (file : Bytes) (name : ℕ) (short : length file < 2 ^ 31) where
  abbrev process : Transporter → ℕ → FilePacket → Outcome Transporter
  process t peer packet = process_file_data percents numbered unique open_file t peer fileid packet

  send_file_lem :
      (s : Transporter) (fresh path : ℕ)
      → fileid ≢ 0
      → length file ≤ s.opts.max_file_size
      → send_file s receiver fileid fresh path name (some (length file)) true
        ≡ done (
          record s {
            cache = set_cache s.cache fileid (some path);
            log =
                s.log ++ (ready_send receiver fileid (file_credentials name (length file) 0) ∷ []);
          },
          fileid,
        )
  unfolding send_file send_credentials
  send_file_lem s fresh path ne le =
      let fits : ltb s.opts.max_file_size (length file) ≡ false = ground arith in
      let known : (fileid == 0) ≡ false = ground arith in rw (fits, known) refl

  credentials_lem :
      (t : Transporter)
      → find fileid t.ifile_pool ≡ none
      → t.descs sender fileid ≡ none
      → (t' : Transporter) × (process t sender (file_credentials name (length file) 0) ≡ done t')
        × Holds sender fileid file name 0 t'
        × (t'.targets ≡ t.targets)
        × (t'.log ≡ t.log ++ (ready_send sender fileid (file_request 0) ∷ []))
  unfolding process_file_data cache_incoming_file_credentials
  credentials_lem t no_item no_desc =
      let desc : Desc = record { offset = 0; filesize = length file; filename = name } in
      let t0 : Transporter = record t {
        descs = set_file t.descs sender fileid (some desc);
        datas = set_file t.datas sender fileid (some []);
      } in
      let cached : cache_incoming_file_credentials t sender fileid name (length file) 0 ≡ t0 =
        rw (cache_incoming_file_credentials, no_desc) refl in
      let stored : Stores sender fileid file name 0 t0 = record {
        no_item = no_item;
        desc = desc;
        has_desc = set_file_self t.descs sender fileid (some desc);
        named = refl;
        sized = refl;
        at_offset = refl;
        bytes = [];
        has_data = set_file_self t.datas sender fileid (some []);
        front = record { front = refl; enough = omega arith; fits = omega arith };
      } in
      let (t', run, holds, targets, log) =
        send_file_request_lem sender fileid file name 0 t0 stored in
      (t', ap (λ x. send_file_request x sender fileid) cached ∙ run, holds, targets, log)

  abbrev upload : OfileItem
  upload = record { addressee = receiver; content = file; position = 0; chunk_requested = true }

  request_lem :
      (s : Transporter) (path : ℕ)
      → s.cache fileid ≡ some path
      → open_file path ≡ some file
      → process s receiver (file_request 0)
        ≡ done (record s {
          ofile_pool = s.ofile_pool ++ ((fileid, upload) ∷ []);
          log = s.log ++ (ready_send receiver fileid (file_begin 0) ∷ []);
        })
  unfolding process_file_data process_file_request
  request_lem s path cached opened = rw (cached, opened) refl

  begin_lem :
      (t : Transporter)
      → Holds sender fileid file name 0 t
      → let t' : Transporter = record t {
        log = t.log ++ (download_progress sender fileid 0 (length file) ∷ []);
      } in
        (process t sender (file_begin 0) ≡ done t') × Holds sender fileid file name 0 t'
  unfolding process_file_data process_file_begin record_events
  begin_lem t h = (
    rw (process_file_begin, h.item) refl,
    record {
      item = h.item;
      desc = h.desc;
      has_desc = h.has_desc;
      named = h.named;
      sized = h.sized;
      at_offset = h.at_offset;
      bytes = h.bytes;
      has_data = h.has_data;
      front = h.front;
    },
  )

  -- The run of a whole transfer, packet by packet.
  pub record IsSent (s t : Transporter) (fresh path : ℕ) : Type 0 where
    pub s1 : Transporter
    pub t1 : Transporter
    pub s2 : Transporter
    pub t2 : Transporter
    pub s3 : Transporter
    pub t3 : Transporter
    pub offered :
        send_file s receiver fileid fresh path name (some (length file)) true ≡ done (s1, fileid)
    pub offer :
        s1.log ≡ s.log ++ (ready_send receiver fileid (file_credentials name (length file) 0) ∷ [])
    pub heard : process t sender (file_credentials name (length file) 0) ≡ done t1
    pub request : t1.log ≡ t.log ++ (ready_send sender fileid (file_request 0) ∷ [])
    pub opened : process s1 receiver (file_request 0) ≡ done s2
    pub begin : s2.log ≡ s1.log ++ (ready_send receiver fileid (file_begin 0) ∷ [])
    pub begun : process t1 sender (file_begin 0) ≡ done t2
    pub carried :
        transfer percents numbered unique open_file sender receiver fileid (length file + 2) s2 t2
        ≡ done (s3, t3)
    pub transferred :
        IsTransferred percents numbered unique open_file sender receiver fileid file name short s2
          s3 t2 t3
    pub others : (p n : ℕ) (b : Bytes) → t.targets p n ≡ some b → t3.targets p n ≡ some b

  -- A file of fewer than 2 ^ 31 bytes and no more than the limit, that can be opened under its
  -- path, of a chosen identifier; a chunk size that is not zero, no other upload, and a receiver
  -- that knows nothing of the file and has neither a complete file nor the directory `transient`
  -- under its name: send_file offers the file, the receiver requests it from the start, the
  -- sender begins it, and after as many rounds as it has bytes, and two more, it has arrived byte
  -- for byte under its name, beside all complete files that were there before. The upload is
  -- gone, and so are the item, the description and the data of the receiver.
  pub send_file-transfer :
      (s t : Transporter) (fresh path : ℕ)
      → fileid ≢ 0
      → 0 < s.opts.file_chunk_size
      → length file ≤ s.opts.max_file_size
      → open_file path ≡ some file
      → s.ofile_pool ≡ []
      → find fileid t.ifile_pool ≡ none
      → t.descs sender fileid ≡ none
      → listing t.targets sender name ≡ none
      → IsSent s t fresh path
  send_file-transfer s t fresh path ne size limit opened idle no_item no_desc free =
      let s1 : Transporter = record s {
        cache = set_cache s.cache fileid (some path);
        log = s.log ++ (ready_send receiver fileid (file_credentials name (length file) 0) ∷ []);
      } in
      let cached : s1.cache fileid ≡ some path = rw (==_self fileid) refl in
      let (t1, heard, h1, targets, request) = credentials_lem t no_item no_desc in
      let s2 : Transporter = record s1 {
        ofile_pool = s1.ofile_pool ++ ((fileid, upload) ∷ []);
        log = s1.log ++ (ready_send receiver fileid (file_begin 0) ∷ []);
      } in
      let (begun, h2) = begin_lem t1 h1 in
      let t2 : Transporter = record t1 {
        log = t1.log ++ (download_progress sender fileid 0 (length file) ∷ []);
      } in
      let (s3, t3, carried, r) =
        transfer_lem percents numbered unique open_file sender receiver fileid file name short s2 t2
          upload size (ap (λ m. m ++ ((fileid, upload) ∷ [])) idle) refl refl (omega arith) h2
          (ap (λ f. listing f sender name) targets ∙ free) in
      let rounds : length file + 2 ≡ length file - 0 + 2 = omega arith in
      record {
        s1 = s1;
        t1 = t1;
        s2 = s2;
        t2 = t2;
        s3 = s3;
        t3 = t3;
        offered = send_file_lem s fresh path ne limit;
        offer = refl;
        heard = heard;
        request = request;
        opened = request_lem s1 path cached opened;
        begin = refl;
        begun = begun;
        carried =
            ap (λ n. transfer percents numbered unique open_file sender receiver fileid n s2 t2)
              rounds
            ∙ carried;
        transferred = r;
        others = λ p n b has. r.complete.others p n b (ap (λ f. f p n) targets ∙ has);
      }
