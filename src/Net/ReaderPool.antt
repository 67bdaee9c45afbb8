-- ===== src/Net/ReaderPool.antt =====
-- include/pfs/netty/reader_pool.hpp. The poller, the callbacks and the location of sockets are
-- reached by calls, which are logged, oldest first; what they answer is an argument. A socket is the
-- list of what its `recv` answers from now on, and nothing more once the list has ended.
pub mod Reading
pub mod Accounts
mod Tests
use net_lib.Prelude.Dict.{find, insert, erase}
use net_lib.Prelude.{
  ℕ, Bool, true, false, List, [], ◌∷◌, ◌++◌, Option, none, some, ◌==◌, if◌then◌else◌, Bytes,
  Outcome, done, fails, terminated, ◌>>=◌,
}

pub record Account : Type 0 where
  pub id : ℕ
  pub frame_size : ℕ

pub data Event : Type 0 where
  poller_added poller_removed on_failure on_disconnected : ℕ → Event
  on_data_ready : ℕ → Bytes → Event

-- One call of `recv`: it fails, or it gives so many bytes, none if there are none for now.
pub data Received : Type 0 where
  failure : Received
  received : Bytes → Received

pub record ReaderPool : Type 0 where
  pub accounts : List (ℕ × Account)
  pub removable : List ℕ
  pub log : List Event

abbrev pub record_event : ReaderPool → Event → ReaderPool
record_event p e = record p { log = p.log ++ (e ∷ []) }

unfoldable pub remove_later : ReaderPool → ℕ → ReaderPool
remove_later p id = record p { removable = p.removable ++ (id ∷ []) }

unfoldable pub locate_account : ReaderPool → ℕ → Outcome (Option Account)
locate_account p id = elim (find id p.accounts) [
  | none ↦ done none
  | some acc ↦ if acc.id == id then done (some acc) else fails terminated
]

-- A new account has the default frame size; `add_fails` is what the poller answers.
unfoldable pub new_account : ReaderPool → ℕ → Bool → ReaderPool
new_account p id add_fails = record p {
  accounts = insert id (record { id = id; frame_size = 1500 }) p.accounts;
  log = p.log ++ (poller_added id ∷ (if add_fails then on_failure id ∷ [] else []));
}

unfoldable pub add : ReaderPool → ℕ → Bool → Outcome ReaderPool
unfolding new_account
add p id add_fails = do
  found ← locate_account p id
  done (elim found [ none ↦ new_account p id add_fails | some _ ↦ p ])

-- `for (;;)`: each answer is appended to the buffer, until one is empty or fails. `none` is a failure.
unfoldable pub recv_all : List Received → Bytes → Option Bytes
recv_all [] inpb = some inpb
recv_all (failure ∷ rs) inpb = none
recv_all (received [] ∷ rs) inpb = some inpb
recv_all (received (c ∷ cs) ∷ rs) inpb = recv_all rs (inpb ++ (c ∷ cs))

unfoldable pub deliver : ReaderPool → ℕ → Option Bytes → ReaderPool
unfolding remove_later
deliver p id none = remove_later (record_event p (on_failure id)) id
deliver p id (some inpb) = record_event p (on_data_ready id inpb)

unfoldable pub read_socket : ReaderPool → ℕ → Option (List Received) → ReaderPool
unfolding recv_all deliver remove_later
read_socket p id none = record_event (remove_later p id) (on_failure id)
read_socket p id (some rs) = deliver p id (recv_all rs [])

-- What the poller reports: a socket is `none` if it cannot be located.
pub data PollerEvent : Type 0 where
  poller_failure disconnected : ℕ → PollerEvent
  ready_read : ℕ → Option (List Received) → PollerEvent

unfoldable pub on_poller : ReaderPool → PollerEvent → Outcome ReaderPool
unfolding read_socket remove_later
on_poller p (poller_failure id) = done (record_event (remove_later p id) (on_failure id))
on_poller p (disconnected id) = done (remove_later (record_event p (on_disconnected id)) id)
on_poller p (ready_read id sock) = do
  found ← locate_account p id
  elim found [ none ↦ fails terminated | some _ ↦ done (read_socket p id sock) ]

unfoldable pub step : ReaderPool → List PollerEvent → Outcome ReaderPool
step p [] = done p
step p (e ∷ es) = do p' ← on_poller p e; step p' es

unfoldable pub remove_accounts : List ℕ → List (ℕ × Account) → List (ℕ × Account)
remove_accounts [] m = m
remove_accounts (id ∷ ids) m = remove_accounts ids (erase id m)

unfoldable pub removal_events : List ℕ → List Event
removal_events [] = []
removal_events (id ∷ ids) = poller_removed id ∷ removal_events ids

unfoldable pub apply_remove : ReaderPool → ReaderPool
apply_remove p = record {
  accounts = remove_accounts p.removable p.accounts;
  removable = [];
  log = p.log ++ removal_events p.removable;
}
