-- ===== src/Net/SocketPool.antt =====
-- include/pfs/netty/socket_pool.hpp: sockets in slots of a vector, found by a map from identifiers to
-- indices. The std::set of free indices is an ascending list. A socket is its identifier and the
-- handle `h` that it owns; a default one has the identifier `no_id`.
pub mod Slots
pub mod Changes
pub mod Removal
mod Tests
use net_lib.Prelude.Dict.{find, insert, erase}
use net_lib.Prelude.{
  ℕ, ◌+◌, ◌-◌, ◌%◌, ◌^◌, Bool, true, false, List, [], ◌∷◌, ◌++◌, Option, none, some, ltb, ◌==◌,
  if◌then◌else◌, length, get_elem?, set, mem, Outcome, done, fails, undefined, terminated, ◌>>=◌,
}

pub data Kind : Type 0 where
  accepted connected : Kind

pub record Socket (H : Type 0) : Type 0 where
  pub id : ℕ
  pub handle : Option H

-- `socket_type{}`.
abbrev pub no_socket : {H : Type 0} → ℕ → Socket H
no_socket no_id = record { id = no_id; handle = none }

pub record Account (H : Type 0) : Type 0 where
  pub sock : Socket H
  pub kind : Kind

pub record SocketPool (H : Type 0) : Type 0 where
  pub free_indices : List ℕ
  pub accounts : List (Account H)
  pub mapping : List (ℕ × ℕ)
  pub removable : List ℕ

abbrev pub new_pool : {H : Type 0} → SocketPool H
new_pool = record { free_indices = []; accounts = []; mapping = []; removable = [] }

-- `emplace` into the std::set.
unfoldable pub emplace_index : ℕ → List ℕ → List ℕ
emplace_index i [] = i ∷ []
emplace_index i (j ∷ js) =
    if ltb i j then i ∷ j ∷ js else if i == j then j ∷ js else j ∷ emplace_index i js

module _ {H : Type 0} where
  -- The first of the free indices is reused.
  unfoldable pub place : List ℕ → SocketPool H → Account H → Outcome (SocketPool H)
  place [] p acc = done (record p {
    mapping = insert acc.sock.id (length p.accounts) p.mapping;
    accounts = p.accounts ++ (acc ∷ []);
  })
  place (i ∷ is) p acc = elim (get_elem? p.accounts i) [
    | none ↦ fails undefined
    | some _ ↦ done (record p {
      mapping = insert acc.sock.id i p.mapping;
      accounts = set p.accounts i acc;
      free_indices = is;
    })
  ]

  unfoldable pub add : SocketPool H → Socket H → Kind → Outcome (SocketPool H)
  unfolding place
  add p sock kind = place p.free_indices p (record { sock = sock; kind = kind })

  unfoldable pub add_connected : SocketPool H → Socket H → Outcome (SocketPool H)
  add_connected p sock = add p sock connected

  unfoldable pub add_accepted : SocketPool H → Socket H → Outcome (SocketPool H)
  add_accepted p sock = add p sock accepted

  -- The three checks behind the index that the map gives.
  unfoldable pub account_at : SocketPool H → ℕ → ℕ → Outcome (Option (Account H))
  account_at p id index = elim (get_elem? p.accounts index) [
    | none ↦ fails terminated
    | some acc ↦
        if mem index p.free_indices
        then fails terminated
        else if acc.sock.id == id
        then done (some acc)
        else fails terminated
  ]

  unfoldable pub locate_account : SocketPool H → ℕ → Outcome (Option (Account H))
  locate_account p id = elim (find id p.mapping) [
    | none ↦ done none
    | some index ↦ account_at p id index
  ]

  -- The socket, and whether it was accepted.
  unfoldable pub locate : SocketPool H → ℕ → Outcome (Option (Socket H × Bool))
  locate p id = do
    found ← locate_account p id
    done (elim found [
      | none ↦ none
      | some acc ↦ some (acc.sock, elim acc.kind [ accepted ↦ true | connected ↦ false ])
    ])

  unfoldable pub remove_later : SocketPool H → ℕ → SocketPool H
  remove_later p id = record p { removable = p.removable ++ (id ∷ []) }

  -- The body of the loop of `apply_remove`.
  unfoldable pub remove_one : ℕ → SocketPool H → ℕ → Outcome (SocketPool H)
  remove_one no_id p id = elim (find id p.mapping) [
    | none ↦ done p
    | some index ↦ elim (get_elem? p.accounts index) [
      | none ↦ fails undefined
      | some acc ↦ done (record p {
        accounts = set p.accounts index (record acc { sock = no_socket no_id });
        free_indices = emplace_index index p.free_indices;
        mapping = erase id p.mapping;
      })
    ]
  ]

  unfoldable pub remove_all : ℕ → SocketPool H → List ℕ → Outcome (SocketPool H)
  remove_all no_id p [] = done p
  remove_all no_id p (id ∷ ids) = do q ← remove_one no_id p id; remove_all no_id q ids

  unfoldable pub apply_remove : ℕ → SocketPool H → Outcome (SocketPool H)
  apply_remove no_id p = do q ← remove_all no_id p p.removable; done (record q { removable = [] })

  -- Sizes are std::size_t, and their differences wrap. The check is written as it stands.
  unfoldable pub count : SocketPool H → Outcome ℕ
  count p =
      let accounts = length p.accounts in
      let free = length p.free_indices in
      let removable = length p.removable in
      if ltb accounts ((free + 2 ^ 64 - removable) % 2 ^ 64)
      then done ((accounts + 2 ^ 64 + 2 ^ 64 - free - removable) % 2 ^ 64)
      else fails terminated
