-- ===== src/P2p/FileTransporter.antt =====
-- include/pfs/netty/p2p/file_transporter.hpp: the pools of files that come in and go out, the files on
-- disk, and sending. A file on disk is its bytes, a description file its fields; a path or a file name is
-- a number, zero the null identifier. Callbacks are logged, oldest first; what `ready_send` is given is
-- the packet before it is serialized. Sizes and offsets are below 2 ^ 31.
pub mod Corrupted
pub mod Incoming
pub mod Pools
pub mod Protocol
pub mod Receiving
pub mod Rounds
pub mod Targets
pub mod Transfer
mod Tests
use net_lib.Prelude.Dict.{find, erase}
use net_lib.Prelude.{
  ℕ, suc, ◌+◌, ◌*◌, List, [], ◌∷◌, ◌++◌, Option, none, some, Bool, true, false, ltb, leb, ◌==◌,
  if◌then◌else◌, length, take, drop, is_nil, Bytes, Outcome, done, fails, unexpected_data,
}

-- What is sent to a peer about a file.
pub data FilePacket : Type 0 where
  file_credentials : (filename filesize offset : ℕ) → FilePacket
  file_request file_begin : (offset : ℕ) → FilePacket
  file_stop file_end file_success : FilePacket
  file_chunk : (offset : ℕ) → Bytes → FilePacket

pub data Event : Type 0 where
  on_failure : Event
  ready_send : (addressee fileid : ℕ) → FilePacket → Event
  upload_stopped : (addressee fileid : ℕ) → Event
  download_progress : (addresser fileid downloaded total : ℕ) → Event
  download_complete : (addresser fileid path : ℕ) → Event
  download_interrupted : (addresser fileid : ℕ) → Event

pub record Options : Type 0 where
  pub download_progress_granularity : ℕ
  pub file_chunk_size : ℕ
  pub max_file_size : ℕ

-- The handles of an item are those of the files of its addresser.
pub record IfileItem : Type 0 where
  pub addresser : ℕ
  pub filesize : ℕ

-- An open file: what it holds, and the position.
pub record OfileItem : Type 0 where
  pub addressee : ℕ
  pub content : Bytes
  pub position : ℕ
  pub chunk_requested : Bool

pub record Desc : Type 0 where
  pub offset : ℕ
  pub filesize : ℕ
  pub filename : ℕ

-- Files of a peer, by number.
abbrev pub Files : Type 0 → Type 0
Files V = ℕ → ℕ → Option V

pub record Transporter : Type 0 where
  pub opts : Options
  -- By file.
  pub ifile_pool : List (ℕ × IfileItem)
  pub ofile_pool : List (ℕ × OfileItem)
  -- The files <fileid>.desc, <fileid>.data and <fileid>.done below `transient`, by addresser and file.
  pub descs : Files Desc
  pub datas : Files Bytes
  pub dones : Files Desc
  -- The files that are complete, by addresser and name.
  pub targets : Files Bytes
  -- The path of a file to send.
  pub cache : ℕ → Option ℕ
  pub log : List Event

abbrev pub set_file : {V : Type 0} → Files V → ℕ → ℕ → Option V → Files V
set_file files peer file v p f = if p == peer then if f == file then v else files p f else files p f

unfoldable pub record_events : Transporter → List Event → Transporter
record_events t events = record t { log = t.log ++ events }

-- The constructor's checks.
unfoldable pub new_options : (file_chunk_size max_file_size granularity : ℕ) → Outcome Options
new_options chunk size granularity =
    if ltb chunk 32
    then fails unexpected_data
    else if ltb (1024 * 1024) chunk
    then fails unexpected_data
    else if ltb 0x7ffff000 size
    then fails unexpected_data
    else if ltb 100 granularity
    then fails unexpected_data
    else done (record {
      download_progress_granularity = granularity;
      file_chunk_size = chunk;
      max_file_size = size;
    })

-- The bytes from the position on, no more than `count`.
unfoldable pub read_chunk : OfileItem → ℕ → Bytes
read_chunk item count = take count (drop item.position item.content)

unfoldable pub remove_ifile_item : Transporter → ℕ → Transporter
remove_ifile_item t fileid = record t { ifile_pool = erase fileid t.ifile_pool }

-- The items of a file and an addressee.
unfoldable pub remove_outgoing :
    (addressee fileid : ℕ) → List (ℕ × OfileItem) → List (ℕ × OfileItem)
remove_outgoing addressee fileid [] = []
remove_outgoing addressee fileid ((f, item) ∷ m) =
    let rest = remove_outgoing addressee fileid m in
    if f == fileid
    then if item.addressee == addressee then rest else (f, item) ∷ rest
    else (f, item) ∷ rest

unfoldable pub remove_ofile_item : Transporter → (addressee fileid : ℕ) → Transporter
remove_ofile_item t addressee fileid = record t {
  ofile_pool = remove_outgoing addressee fileid t.ofile_pool;
}

abbrev pub set_cache : (ℕ → Option ℕ) → ℕ → Option ℕ → ℕ → Option ℕ
set_cache cache fileid path f = if f == fileid then path else cache f

unfoldable pub complete_file : Transporter → (addressee fileid : ℕ) → Transporter
unfolding remove_ofile_item
complete_file t addressee fileid =
    remove_ofile_item (record t { cache = set_cache t.cache fileid none }) addressee fileid

-- The items of an addressee.
unfoldable pub without_addressee : ℕ → List (ℕ × OfileItem) → List (ℕ × OfileItem)
without_addressee addressee [] = []
without_addressee addressee ((f, item) ∷ m) =
    let rest = without_addressee addressee m in
    if item.addressee == addressee then rest else (f, item) ∷ rest

unfoldable pub expire_addressee : Transporter → ℕ → Transporter
expire_addressee t addressee = record t { ofile_pool = without_addressee addressee t.ofile_pool }

-- The items that stay, and the files that are interrupted.
unfoldable pub without_addresser : ℕ → List (ℕ × IfileItem) → List (ℕ × IfileItem) × List Event
without_addresser addresser [] = ([], [])
without_addresser addresser ((f, item) ∷ m) =
    let rest = without_addresser addresser m in
    if item.addresser == addresser
    then (rest.0, download_interrupted addresser f ∷ rest.1)
    else ((f, item) ∷ rest.0, rest.1)

unfoldable pub expire_addresser : Transporter → ℕ → Transporter
expire_addresser t addresser =
    let r = without_addresser addresser t.ifile_pool in
    record t { ifile_pool = r.0; log = t.log ++ r.1 }

-- What both calls of send_file do in the end; `fresh` is an identifier for a file that has none.
unfoldable pub send_credentials :
    Transporter → (addressee fileid fresh path filename size : ℕ) → Transporter × ℕ
send_credentials t addressee fileid fresh path filename size =
    let id = if fileid == 0 then fresh else fileid in
    (
      record t {
        cache = set_cache t.cache id (some path);
        log = t.log ++ (ready_send addressee id (file_credentials filename size 0) ∷ []);
      },
      id,
    )

-- The size of a file that is not there is an exception; `readable` is whether it can be opened. The
-- result is the identifier, or zero.
unfoldable pub send_file :
    Transporter
    → (addressee fileid fresh path filename : ℕ) → (size : Option ℕ) → (readable : Bool)
    → Outcome (Transporter × ℕ)
send_file t addressee fileid fresh path filename none readable = fails unexpected_data
send_file t addressee fileid fresh path filename (some size) readable =
    if ltb t.opts.max_file_size size
    then done (t, 0)
    else if readable
    then done (send_credentials t addressee fileid fresh path filename size)
    else done (t, 0)

-- Do not process incoming chunks, and tell the peer.
unfoldable pub stop_file : Transporter → (addressee fileid : ℕ) → Transporter
stop_file t addressee fileid = record t {
  ifile_pool = erase fileid t.ifile_pool;
  log = t.log ++ (ready_send addressee fileid file_stop ∷ []);
}

-- The first item of the file and the addressee is marked.
unfoldable pub mark_requested :
    (addressee fileid : ℕ) → List (ℕ × OfileItem) → List (ℕ × OfileItem) × Bool
mark_requested addressee fileid [] = ([], false)
mark_requested addressee fileid ((f, item) ∷ m) =
    let rest = mark_requested addressee fileid m in
    let marked : List (ℕ × OfileItem) × Bool =
      ((f, record item { chunk_requested = true }) ∷ m, true) in
    let skipped : List (ℕ × OfileItem) × Bool = ((f, item) ∷ rest.0, rest.1) in
    if f == fileid then if item.addressee == addressee then marked else skipped else skipped

unfoldable pub request_chunk : Transporter → (addressee fileid : ℕ) → Transporter × Bool
request_chunk t addressee fileid =
    let r = mark_requested addressee fileid t.ofile_pool in (record t { ofile_pool = r.0 }, r.1)

-- One round of the loop of `step`: the item, unless it is finished, and what is sent.
unfoldable pub step_item :
    (ready : ℕ → Bool) → (chunk_size : ℕ) → ℕ × OfileItem → List (ℕ × OfileItem) × List Event
unfolding read_chunk
step_item ready chunk_size (f, item) =
    let chunk = read_chunk item chunk_size in
    let sent : OfileItem = record item {
      chunk_requested = false;
      position = item.position + length chunk;
    } in
    if ready item.addressee
    then if item.chunk_requested
      then if is_nil chunk
        then ([], ready_send item.addressee f file_end ∷ [])
        else ((f, sent) ∷ [], ready_send item.addressee f (file_chunk item.position chunk) ∷ [])
      else ((f, item) ∷ [], [])
    else ((f, item) ∷ [], [])

unfoldable pub step_items :
    (ready : ℕ → Bool) → (chunk_size : ℕ) → List (ℕ × OfileItem) → List (ℕ × OfileItem) × List Event
step_items ready chunk_size [] = ([], [])
step_items ready chunk_size (x ∷ m) =
    let r = step_item ready chunk_size x in
    let rest = step_items ready chunk_size m in (r.0 ++ rest.0, r.1 ++ rest.1)

-- The number is that of the packets sent.
unfoldable pub step : Transporter → (ℕ → Bool) → Transporter × ℕ
step t ready =
    let r = step_items ready t.opts.file_chunk_size t.ofile_pool in
    (record t { ofile_pool = r.0; log = t.log ++ r.1 }, length r.1)
