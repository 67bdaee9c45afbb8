-- ===== src/Meshnet/Channels/Lookup.antt =====
-- Search by value, and well-formed maps of readers and writers.
use net_lib.Meshnet.Channels.{
  Event, socket_removed, heartbeat_added, node_connected, node_disconnected, message_sent,
  node_not_found, Node, find_value,
}
use net_lib.Prelude.Dict.{find, Distinct}
use net_lib.Prelude.{
  ℕ, ◌≡◌, ◌≢◌, sym, ap, arith, List, [], ◌∷◌, none, some, ◌==◌, ==_iff, ==_self, inl, inr,
  Bool-cases,
}

-- What is found by value is found by key.
pub find_value-some :
    (v : ℕ) (m : List (ℕ × ℕ)) {k : ℕ} → Distinct m → find_value v m ≡ some k → find k m ≡ some v
unfolding find_value find
find_value-some v [] d e = cc
find_value-some v ((j, w) ∷ m) {k} (f, d) e = elim (Bool-cases (w == v)) [
  | inl t ↦
      let x : some j ≡ some k = rw t at e in
      let y : j ≡ k = cc in rw (y, ==_self k) (ap some ((==_iff w v).0 t))
  | inr n ↦
      let x : find_value v m ≡ some k = rw n at e in
      let y : find k m ≡ some v = find_value-some v m d x in
      elim (Bool-cases (j == k)) [
        | inl t ↦ absurd (let z : find k m ≡ none = rw (sym ((==_iff j k).0 t)) f in cc)
        | inr o ↦ rw o y
      ]
]

pub find_value-none : (v k : ℕ) (m : List (ℕ × ℕ)) → find_value v m ≡ none → find k m ≢ some v
unfolding find_value find
find_value-none v k [] e f = cc
find_value-none v k ((j, w) ∷ m) e f = elim (Bool-cases (w == v)) [
  | inl t ↦ absurd (let x : some j ≡ none = rw t at e in cc)
  | inr n ↦
      let x : find_value v m ≡ none = rw n at e in
      elim (Bool-cases (j == k)) [
        | inl t ↦ (let y : some w ≡ some v = rw t at f in let z : w ≡ v = cc in ground (arith, z))
        | inr o ↦ find_value-none v k m x (rw o at f)
      ]
]

-- A neighbour has a reader and a writer at most, and a socket that is both serves one neighbour.
pub record IsValid (n : Node) : Type 0 where
  pub reader_keys : Distinct n.readers
  pub writer_keys : Distinct n.writers
  pub one_reader : (s t i : ℕ) → find s n.readers ≡ some i → find t n.readers ≡ some i → s ≡ t
  pub one_writer : (s i j : ℕ) → find i n.writers ≡ some s → find j n.writers ≡ some s → i ≡ j
  pub agree : (s i j : ℕ) → find s n.readers ≡ some i → find j n.writers ≡ some s → i ≡ j

-- The neighbours that the events report as disconnected.
unfoldable pub disconnected : List Event → List ℕ
disconnected [] = []
disconnected (node_disconnected id ∷ es) = id ∷ disconnected es
disconnected (socket_removed sid ∷ es) = disconnected es
disconnected (heartbeat_added sid ∷ es) = disconnected es
disconnected (node_connected id ∷ es) = disconnected es
disconnected (message_sent sid priority bytes ∷ es) = disconnected es
disconnected (node_not_found id ∷ es) = disconnected es
