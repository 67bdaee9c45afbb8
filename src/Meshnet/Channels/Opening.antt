-- ===== src/Meshnet/Channels/Opening.antt =====
-- A new neighbour over one socket, as the handshake reports it.
use net_lib.Meshnet.Handshake.{reader, writer}
use net_lib.Meshnet.Channels.{
  Event, heartbeat_added, node_connected, Node, find_value, find_reader, report_connected,
  on_completed,
}
use net_lib.Meshnet.Channels.Lookup.{IsValid}
use net_lib.Meshnet.Channels.Shrinking.{reader_known}
use net_lib.Prelude.Dict.{find, insert, find-insert, insert-Distinct}
use net_lib.Prelude.{
  ℕ, ◌≡◌, ◌≢◌, ◌⊎◌, refl, sym, ap, ◌∙◌, true, false, List, [], ◌∷◌, ◌++◌, append_assoc, none, some,
  ◌==◌, ==_iff, ==_self, if◌then◌else◌, done, ◌>>=◌, inl, inr, Bool-cases,
}

-- A neighbour without a channel, and a socket that serves none.
pub record IsFresh (n : Node) (id sid : ℕ) : Type 0 where
  pub no_reader : (s : ℕ) → find s n.readers ≢ some id
  pub no_writer : find id n.writers ≡ none
  pub idle_reader : find sid n.readers ≡ none
  pub idle_writer : (i : ℕ) → find i n.writers ≢ some sid

abbrev with_channel : Node → ℕ → ℕ → List Event → Node
with_channel n id sid log = record {
  readers = insert sid id n.readers;
  writers = insert id sid n.writers;
  log = log;
}

inserted :
    (k v j w : ℕ) (m : List (ℕ × ℕ))
    → find j (insert k v m) ≡ some w
    → ((k == j) ≡ true) × (v ≡ w) ⊎ ((k == j) ≡ false) × (find j m ≡ some w)
inserted k v j w m e = elim (Bool-cases (k == j)) [
  | inl t ↦
      (let x : some v ≡ some w = rw (find-insert k j v m, t) at e in
        let y : v ≡ w = cc in inl (t, y))
  | inr n ↦ inr (n, rw (find-insert k j v m, n) at e)
]

with_channel-IsValid :
    (n : Node) (id sid : ℕ) (log : List Event)
    → IsValid n
    → IsFresh n id sid
    → IsValid (with_channel n id sid log)
with_channel-IsValid n id sid log v f = record {
  reader_keys = insert-Distinct sid id n.readers v.reader_keys;
  writer_keys = insert-Distinct id sid n.writers v.writer_keys;
  one_reader = one_reader;
  one_writer = one_writer;
  agree = agree;
}
  where
    n' : Node
    n' = with_channel n id sid log

    one_reader : (s t i : ℕ) → find s n'.readers ≡ some i → find t n'.readers ≡ some i → s ≡ t
    one_reader s t i e g = elim (inserted sid id s i n.readers e) [
      | inl (a, b) ↦ elim (inserted sid id t i n.readers g) [
        | inl (c, d) ↦ sym ((==_iff sid s).0 a) ∙ (==_iff sid t).0 c
        | inr (c, d) ↦ absurd (f.no_reader t (d ∙ ap some (sym b)))
      ]
      | inr (a, b) ↦ elim (inserted sid id t i n.readers g) [
        | inl (c, d) ↦ absurd (f.no_reader s (b ∙ ap some (sym d)))
        | inr (c, d) ↦ v.one_reader s t i b d
      ]
    ]

    one_writer : (s i j : ℕ) → find i n'.writers ≡ some s → find j n'.writers ≡ some s → i ≡ j
    one_writer s i j e g = elim (inserted id sid i s n.writers e) [
      | inl (a, b) ↦ elim (inserted id sid j s n.writers g) [
        | inl (c, d) ↦ sym ((==_iff id i).0 a) ∙ (==_iff id j).0 c
        | inr (c, d) ↦ absurd (f.idle_writer j (d ∙ ap some (sym b)))
      ]
      | inr (a, b) ↦ elim (inserted id sid j s n.writers g) [
        | inl (c, d) ↦ absurd (f.idle_writer i (b ∙ ap some (sym d)))
        | inr (c, d) ↦ v.one_writer s i j b d
      ]
    ]

    agree : (s i j : ℕ) → find s n'.readers ≡ some i → find j n'.writers ≡ some s → i ≡ j
    agree s i j e g = elim (inserted sid id s i n.readers e) [
      | inl (a, b) ↦ elim (inserted id sid j s n.writers g) [
        | inl (c, d) ↦ sym b ∙ (==_iff id j).0 c
        | inr (c, d) ↦ absurd (f.idle_writer j (d ∙ ap some (sym ((==_iff sid s).0 a))))
      ]
      | inr (a, b) ↦ elim (inserted id sid j s n.writers g) [
        | inl (c, d) ↦
            absurd (let x : find sid n.readers ≡ some i = rw d b in let y = f.idle_reader in cc)
        | inr (c, d) ↦ v.agree s i j b d
      ]
    ]

reader_first :
    (n : Node) (id sid : ℕ)
    → find id n.writers ≡ none
    → on_completed n id sid reader
      ≡ done (record n {
        readers = insert sid id n.readers;
        log = n.log ++ (heartbeat_added sid ∷ []);
      })
unfolding on_completed report_connected
reader_first n id sid e =
    let n' : Node = record n {
      readers = insert sid id n.readers;
      log = n.log ++ (heartbeat_added sid ∷ []);
    } in
    ap (λ o. done (report_connected n' id o)) e

writer_second :
    (n : Node) (id sid r : ℕ)
    → find_value id n.readers ≡ some r
    → on_completed n id sid writer
      ≡ done (record n {
        writers = insert id sid n.writers;
        log = (n.log ++ (heartbeat_added sid ∷ [])) ++ (node_connected id ∷ []);
      })
unfolding on_completed report_connected find_reader
writer_second n id sid r e =
    let n' : Node = record n {
      writers = insert id sid n.writers;
      log = n.log ++ (heartbeat_added sid ∷ []);
    } in
    ap (λ o. done (report_connected n' id o)) e

-- From well-formed maps, when the handshake reports a socket that serves no neighbour as reader
-- and then as writer of a neighbour without a channel, the socket serves that neighbour in both
-- directions, all others keep what they had, the maps stay well formed, and the neighbour is
-- reported as connected exactly once.
pub opened_lem :
    (n : Node) (id sid : ℕ)
    → IsValid n
    → IsFresh n id sid
    → (n' : Node) × ((on_completed n id sid reader >>= λ m. on_completed m id sid writer) ≡ done n')
      × IsValid n'
      × ((s : ℕ) → find s n'.readers ≡ (if sid == s then some id else find s n.readers))
      × ((i : ℕ) → find i n'.writers ≡ (if id == i then some sid else find i n.writers))
      × (n'.log ≡ n.log ++ (heartbeat_added sid ∷ heartbeat_added sid ∷ node_connected id ∷ []))
opened_lem n id sid v f =
    let found : find sid (insert sid id n.readers) ≡ some id =
      find-insert sid sid id n.readers ∙ rw (==_self sid) refl in
    let first : Node = record n {
      readers = insert sid id n.readers;
      log = n.log ++ (heartbeat_added sid ∷ []);
    } in
    let (r, x) = reader_known first sid id found in
    let log =
      ((n.log ++ (heartbeat_added sid ∷ [])) ++ (heartbeat_added sid ∷ []))
      ++ (node_connected id ∷ []) in
    (
      with_channel n id sid log,
      rw (reader_first n id sid f.no_writer) (writer_second first id sid r x),
      with_channel-IsValid n id sid log v f,
      λ s. find-insert sid s id n.readers,
      λ i. find-insert id i sid n.writers,
      append_assoc (n.log ++ (heartbeat_added sid ∷ [])) _ _ ∙ append_assoc n.log _ _,
    )
