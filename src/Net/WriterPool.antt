-- ===== src/Net/WriterPool.antt =====
-- include/pfs/netty/writer_pool.hpp, over the operations of its queue type. The unordered_map of
-- accounts is an association list in the order of iteration. What the pool calls (its poller, the
-- sockets, the callbacks) is written to a log, oldest first; callbacks do not call the pool back while
-- it iterates, other than by `remove_later`. Byte counts wrap at 2 ^ 64 as std::uint64_t.
pub mod Send
pub mod Pass
pub mod Calls
mod Tests
pub mod Removal
pub mod Queueing
pub mod History
pub mod Accounts
use net_lib.Net.QueueOps.{QueueOps}
use net_lib.Prelude.Dict.{find, insert, erase}
use net_lib.Prelude.{
  ℕ, ◌+◌, ◌-◌, ◌%◌, ◌^◌, Bool, true, false, List, [], ◌∷◌, ◌++◌, Option, none, some, ltb, ◌==◌,
  if◌then◌else◌, is_nil, length, take, Bytes, Outcome, done, fails, terminated, ◌>>=◌,
}

-- send_result.hpp.
pub data SendStatus : Type 0 where
  failure good again overflow network : SendStatus

pub record SendResult : Type 0 where
  pub status : SendStatus
  pub n : ℕ

-- The surroundings during one pass over the accounts: which sockets can be located, what a socket
-- answers to a frame, and whether the callback for written bytes is set.
pub record Env : Type 0 where
  pub locate_socket : ℕ → Bool
  pub send : ℕ → Bytes → SendResult
  pub has_on_bytes_written : Bool

pub data Event : Type 0 where
  wait_for_write : ℕ → Event
  poller_remove : ℕ → Event
  on_failure : ℕ → Event
  on_bytes_written : ℕ → ℕ → Event
  -- The socket took these bytes.
  sent : ℕ → Bytes → Event

abbrev pub default_frame_size : ℕ
default_frame_size = 1500

abbrev pub u64 : ℕ
u64 = 2 ^ 64

-- The members that a pass over the accounts changes, beside the accounts.
pub record Side : Type 0 where
  pub remain_bytes : ℕ
  pub removable : List ℕ
  pub log : List Event

abbrev pub record_event : Side → Event → Side
record_event s e = record s { log = s.log ++ (e ∷ []) }

abbrev pub fail_account : Side → ℕ → Side
fail_account s id = record s {
  removable = s.removable ++ (id ∷ []);
  log = s.log ++ (on_failure id ∷ []);
}

removal_events : List ℕ → List Event
removal_events [] = []
removal_events (id ∷ ids) = poller_remove id ∷ removal_events ids

module _ (o : QueueOps) where
  pub record Account : Type 0 where
    pub id : ℕ
    pub writable : Bool
    pub frame_size : ℕ
    pub q : o.Queue

  pub record Pool : Type 0 where
    pub side : Side
    pub open side use *
    pub accounts : List (ℕ × Account)

  abbrev pub new_pool : Pool
  new_pool = record { side = record { remain_bytes = 0; removable = []; log = [] }; accounts = [] }

  unfoldable pub locate_account : List (ℕ × Account) → ℕ → Outcome (Option Account)
  locate_account m id = elim (find id m) [
    | none ↦ done none
    | some acc ↦ if acc.id == id then done (some acc) else fails terminated
  ]

  unfoldable pub ensure_account : Pool → ℕ → ℕ → Outcome (Account × Pool)
  ensure_account p id frame_size = do
    found ← locate_account p.accounts id
    done (elim found [
      | some acc ↦ (acc, p)
      | none ↦
          let acc : Account = record {
            id = id;
            writable = false;
            frame_size = frame_size;
            q = o.new;
          } in
          (
            acc,
            record {
              accounts = insert id acc p.accounts;
              side = record_event p.side (wait_for_write id);
            },
          )
    ])

  unfoldable pub add : Pool → ℕ → ℕ → Outcome Pool
  add p id frame_size = do r ← ensure_account p id frame_size; done r.1

  unfoldable pub enqueue : Pool → ℕ → ℕ → Bytes → Outcome Pool
  enqueue p id priority bytes = if is_nil bytes then done p else do
    r ← ensure_account p id default_frame_size
    q ← o.enqueue r.0.q priority bytes
    done (record {
      accounts = insert id (record r.0 { q = q }) r.1.accounts;
      side = record r.1.side { remain_bytes = (r.1.remain_bytes + length bytes) % u64 };
    })

  -- After the socket took n bytes of the frame; `q` is the shifted queue.
  abbrev pub after_write : Env → Account → Side → Bytes → ℕ → o.Queue → Account × Side
  after_write env acc s frame n q = (
    record acc { q = q },
    record {
      remain_bytes = (s.remain_bytes + u64 - n) % u64;
      removable = s.removable;
      log =
          s.log
          ++ (sent acc.id (take n frame)
              ∷ (if env.has_on_bytes_written then on_bytes_written acc.id n ∷ [] else []));
    },
  )

  unfoldable pub write_good : Env → Account → Side → Bytes → ℕ → Outcome (Account × Side)
  write_good env acc s frame n = do q ← o.shift acc.q n; done (after_write env acc s frame n q)

  -- The switch over the status of a send of `frame`.
  unfoldable pub on_sent : Env → Account → Side → Bytes → SendStatus → ℕ → Outcome (Account × Side)
  unfolding write_good
  on_sent env acc s frame failure n = done (acc, fail_account s acc.id)
  on_sent env acc s frame network n = done (acc, fail_account s acc.id)
  on_sent env acc s frame again n = done (
      if acc.writable
      then (record acc { writable = false }, record_event s (wait_for_write acc.id))
      else (acc, s))
  on_sent env acc s frame overflow n = done (
      if acc.writable
      then (record acc { writable = false }, record_event s (wait_for_write acc.id))
      else (acc, s))
  on_sent env acc s frame good n = if ltb 0 n then write_good env acc s frame n else done (acc, s)

  unfoldable pub write_chunk : Env → Account → Side → Bytes → Outcome (Account × Side)
  unfolding on_sent
  write_chunk env acc s frame =
      let r = env.send acc.id frame in
      if is_nil frame then done (acc, s) else on_sent env acc s frame r.status r.n

  unfoldable pub write_frame : Env → Account → Side → Outcome (Account × Side)
  unfolding write_chunk
  write_frame env acc s = do frame ← o.frame acc.q acc.frame_size; write_chunk env acc s frame

  -- The body of the loop over the accounts.
  unfoldable pub send_account : Env → Account → Side → Outcome (Account × Side)
  unfolding write_frame
  send_account env acc s =
      if acc.writable
      then if o.empty acc.q
        then done (acc, s)
        else if env.locate_socket acc.id
        then write_frame env acc s
        else done (acc, fail_account s acc.id)
      else done (acc, s)

  unfoldable pub send_pass : Env → List (ℕ × Account) → Side → Outcome (List (ℕ × Account) × Side)
  send_pass env [] s = done ([], s)
  send_pass env ((k, acc) ∷ m) s = do
    r ← send_account env acc s
    rest ← send_pass env m r.1
    done ((k, r.0) ∷ rest.0, rest.1)

  -- `do … while`: the passes are as many as the stopwatch allows, one at least. Each has surroundings
  -- of its own.
  unfoldable pub send_passes : Pool → Env → List Env → Outcome Pool
  send_passes p env [] = do
    r ← send_pass env p.accounts p.side
    done (record { accounts = r.0; side = r.1 })
  send_passes p env (next ∷ more) = do
    r ← send_pass env p.accounts p.side
    send_passes (record { accounts = r.0; side = r.1 }) next more

  unfoldable pub remove_later : Pool → ℕ → Pool
  remove_later p id = record p { side = record p.side { removable = p.removable ++ (id ∷ []) } }

  unfoldable pub remove_accounts : List ℕ → List (ℕ × Account) → List (ℕ × Account)
  remove_accounts [] m = m
  remove_accounts (id ∷ ids) m = remove_accounts ids (erase id m)

  unfoldable pub apply_remove : Pool → Pool
  unfolding removal_events
  apply_remove p = record {
    accounts = remove_accounts p.removable p.accounts;
    side = record p.side { removable = []; log = p.log ++ removal_events p.removable };
  }

  -- What the poller reports from `poll`.
  pub data PollerEvent : Type 0 where
    can_write : ℕ → PollerEvent
    poller_failure : ℕ → PollerEvent

  unfoldable pub on_poller : Pool → PollerEvent → Outcome Pool
  on_poller p (can_write id) = do
    found ← locate_account p.accounts id
    done (elim found [
      | none ↦ p
      | some acc ↦ record p { accounts = insert id (record acc { writable = true }) p.accounts }
    ])
  on_poller p (poller_failure id) = done (record p { side = fail_account p.side id })

  unfoldable pub poll : Pool → List PollerEvent → Outcome Pool
  poll p [] = done p
  poll p (e ∷ es) = do p' ← on_poller p e; poll p' es

  unfoldable pub step : Pool → Env → List Env → List PollerEvent → Outcome Pool
  step p env more es = do p' ← send_passes p env more; poll p' es
