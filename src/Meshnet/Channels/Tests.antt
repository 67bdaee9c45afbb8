-- ===== src/Meshnet/Channels/Tests.antt =====
-- A node with the neighbour 5 on the sockets 1 and 2.
use net_lib.Meshnet.Handshake.{reader, writer}
use net_lib.Meshnet.Channels.{
  heartbeat_added, node_connected, Node, remove_socket, find_writer, find_value, on_completed,
  close_socket,
}
use net_lib.Meshnet.Channels.Lookup.{IsValid}
use net_lib.Meshnet.Channels.Shrinking.{Closed}
use net_lib.Meshnet.Channels.Closing.{close_socket_lem}
use net_lib.Meshnet.Channels.Opening.{opened_lem}
use net_lib.Prelude.Dict.{find}
use net_lib.Meshnet.PriorityInput.{Deserializer}
use net_lib.Prelude.{
  length, ◌<◌, Option, Bytes, true, ℕ, ◌≡◌, ◌≢◌, refl, arith, [], ◌∷◌, none, some, ◌==◌, ==_iff,
  if◌then◌else◌, done, ◌>>=◌, inl, inr, Bool-cases,
}

abbrev no_neighbours : Node
no_neighbours = record { readers = []; writers = []; log = [] }

nothing : (k v : ℕ) → find k [] ≢ some v
unfolding find
nothing k v e = cc

no_neighbours-IsValid : IsValid no_neighbours
no_neighbours-IsValid = record {
  reader_keys = tt;
  writer_keys = tt;
  one_reader = λ s t i e f. absurd (nothing s i e);
  one_writer = λ s i j e f. absurd (nothing i s e);
  agree = λ s i j e f. absurd (nothing s i e);
}

opened_lem_example :
    (n' : Node) × ((on_completed no_neighbours 5 1 reader >>= λ m. on_completed m 5 1 writer)
      ≡ done n')
    × IsValid n'
    × ((s : ℕ) → find s n'.readers ≡ (if 1 == s then some 5 else find s []))
    × ((i : ℕ) → find i n'.writers ≡ (if 5 == i then some 1 else find i []))
    × (n'.log ≡ heartbeat_added 1 ∷ heartbeat_added 1 ∷ node_connected 5 ∷ [])
unfolding find
opened_lem_example = opened_lem no_neighbours 5 1 no_neighbours-IsValid (record {
  no_reader = λ s. nothing s 5;
  no_writer = refl;
  idle_reader = refl;
  idle_writer = λ i. nothing i 1;
})

-- Reads from one socket, writes to another.
abbrev two_sockets : Node
two_sockets = record { readers = (1, 5) ∷ []; writers = (5, 2) ∷ []; log = [] }

only : (k v j w : ℕ) → find j ((k, v) ∷ []) ≡ some w → (k ≡ j) × (v ≡ w)
unfolding find
only k v j w e = elim (Bool-cases (k == j)) [
  | inl t ↦ (let x : some v ≡ some w = rw t at e in let y : v ≡ w = cc in ((==_iff k j).0 t, y))
  | inr n ↦ absurd (let x : none ≡ some w = rw n at e in cc)
]

two_sockets-IsValid : IsValid two_sockets
unfolding find
two_sockets-IsValid = record {
  reader_keys = (refl, tt);
  writer_keys = (refl, tt);
  one_reader =
      λ s t i e f. (let x = (only 1 5 s i e).0 in let y = (only 1 5 t i f).0 in omega arith);
  one_writer =
      λ s i j e f. (let x = (only 5 2 i s e).0 in let y = (only 5 2 j s f).0 in omega arith);
  agree = λ s i j e f.
      (let x = (only 1 5 s i e).0 in let y = (only 5 2 j s f).1 in absurd (omega arith));
}

close_socket_lem_example :
    (n' : Node) × (close_socket two_sockets 2 ≡ done n')
    × Closed (remove_socket two_sockets 2) n' 5
    × (find 2 n'.readers ≡ none)
    × ((i : ℕ) → find i n'.writers ≢ some 2)
unfolding find find_writer find_value
close_socket_lem_example = close_socket_lem two_sockets 2 two_sockets-IsValid

-- One byte is a header, and there is nothing more to a packet.
abbrev byte_header : Bytes → Option ℕ × Bytes
byte_header [] = (none, [])
byte_header (x ∷ rest) = (some x, rest)

byte_shrinks :
    (b : Bytes) (h : ℕ) → (byte_header b).0 ≡ some h → length (byte_header b).1 < length b
byte_shrinks [] h e = cc
byte_shrinks (x ∷ rest) h e = omega arith

abbrev single_bytes : Deserializer ℕ ℕ
single_bytes = record {
  read_header = byte_header;
  is_known = λ h. true;
  read_packet = λ h b. (some h, b);
  header-shrinks = byte_shrinks;
  packet-shrinks = λ h b. omega arith;
}
