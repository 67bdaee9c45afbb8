-- ===== src/Meshnet/Channels/Closing.antt =====
-- `close_socket` on well-formed maps.
use net_lib.Meshnet.Channels.Shrinking.{
  Closed, erase_reader, keep_readers, keep_writers, writers_some, shrunk-IsValid, reader_known,
}
use net_lib.Meshnet.Channels.{
  socket_removed, node_disconnected, Node, find_value, find_reader, find_writer, remove_socket,
  close_writer, close_reader, close_both, close_channel_of, close_channel, close_socket,
}
use net_lib.Meshnet.Channels.Lookup.{find_value-some, find_value-none, IsValid, disconnected}
use net_lib.Prelude.Dict.{find, erase, find-erase, erase-Distinct}
use net_lib.Prelude.{
  ℕ, ◌≡◌, ◌≢◌, refl, sym, ap, ◌∙◌, arith, true, [], ◌∷◌, ◌++◌, append-nil, Option, none, some, ◌==◌,
  ==_self, done, inl, inr, Option-cases,
}

Closed-both :
    (n : Node) (sid rid id : ℕ)
    → IsValid n
    → find sid n.readers ≡ some rid
    → find_writer n sid ≡ some id
    → (n' : Node) × (close_both n sid rid id ≡ done n') × Closed n n' id
unfolding close_both find_writer disconnected
Closed-both n sid rid id v e f =
    let w : find id n.writers ≡ some sid = find_value-some sid n.writers v.writer_keys f in
    let same : rid ≡ id = v.agree sid rid id e w in
    let e' : find sid n.readers ≡ some id = e ∙ ap some same in
    let n' : Node = record {
      readers = erase sid n.readers;
      writers = erase id n.writers;
      log = n.log ++ (node_disconnected id ∷ []);
    } in
    let (q, x) = reader_known n sid id e' in
    let r = erase_reader n sid id v e' in
    let k = λ (i : ℕ). find-erase id i n.writers in
    (
      n',
      rw (same, ==_self id) refl,
      record {
        valid =
            shrunk-IsValid n n' id v (erase-Distinct sid n.readers v.reader_keys)
              (erase-Distinct id n.writers v.writer_keys) r k;
        readers = r;
        writers = k;
        es = node_disconnected id ∷ [];
        logged = refl;
        reported = rw (x, w) refl;
      },
    )

Closed-writer :
    (n : Node) (id sid : ℕ)
    → IsValid n
    → find id n.writers ≡ some sid
    → Closed n (close_writer n id (find_reader n id)) id
unfolding close_writer find_reader disconnected
Closed-writer n id sid v w = elim (Option-cases (find_value id n.readers)) [
  | inl x ↦ rw x (
      let k = λ (i : ℕ). find-erase id i n.writers in
      let r = keep_readers n id x in
      record {
        valid =
            shrunk-IsValid n (record n { writers = erase id n.writers }) id v v.reader_keys
              (erase-Distinct id n.writers v.writer_keys) r k;
        readers = r;
        writers = k;
        es = [];
        logged = sym (append-nil n.log);
        reported = rw x refl;
      })
  | inr (s, x) ↦ rw x (
      let k = λ (i : ℕ). find-erase id i n.writers in
      let r = erase_reader n s id v (find_value-some id n.readers v.reader_keys x) in
      record {
        valid =
            shrunk-IsValid n _ id v (erase-Distinct s n.readers v.reader_keys)
              (erase-Distinct id n.writers v.writer_keys) r k;
        readers = r;
        writers = k;
        es = socket_removed s ∷ node_disconnected id ∷ [];
        logged = refl;
        reported = rw (x, w) refl;
      })
]

Closed-reader :
    (n : Node) (sid id : ℕ)
    → IsValid n
    → find sid n.readers ≡ some id
    → Closed n (close_reader n sid id (find id n.writers)) id
unfolding close_reader disconnected
Closed-reader n sid id v e =
    let r = erase_reader n sid id v e in
    let dr = erase-Distinct sid n.readers v.reader_keys in
    elim (Option-cases (find id n.writers)) [
      | inl w ↦ rw w (record {
        valid =
            shrunk-IsValid n (record n { readers = erase sid n.readers }) id v dr v.writer_keys r
              (keep_writers n.writers id w);
        readers = r;
        writers = keep_writers n.writers id w;
        es = [];
        logged = sym (append-nil n.log);
        reported = (let (r, x) = reader_known n sid id e in rw (x, w) refl);
      })
      | inr (s, w) ↦ rw w (
          let k = λ (i : ℕ). find-erase id i n.writers in
          record {
            valid = shrunk-IsValid n _ id v dr (erase-Distinct id n.writers v.writer_keys) r k;
            readers = r;
            writers = k;
            es = socket_removed s ∷ node_disconnected id ∷ [];
            logged = refl;
            reported = (let (r, x) = reader_known n sid id e in rw (x, w) refl);
          })
    ]

-- The neighbour that a socket serves.
abbrev pub served : Option ℕ → Option ℕ → Option ℕ
served (some id) w = some id
served none w = w

-- What becomes of the node when a socket that serves this neighbour, if any, is closed.
abbrev pub Closes : Node → Node → Option ℕ → Type 0
Closes n n' none = (n'.readers ≡ n.readers) × (n'.writers ≡ n.writers) × (n'.log ≡ n.log)
Closes n n' (some id) = Closed n n' id

Closes-channel :
    (n : Node) (sid : ℕ)
    → IsValid n
    → (n' : Node) × (close_channel n sid ≡ done n')
      × Closes n n' (served (find sid n.readers) (find_writer n sid))
unfolding close_channel close_channel_of find_writer
Closes-channel n sid v = elim (Option-cases (find sid n.readers)) [
  | inl r ↦ elim (Option-cases (find_value sid n.writers)) [
    | inl w ↦ (n, rw (r, w) refl, rw (r, w) (refl, refl, refl))
    | inr (id, w) ↦ (
      close_writer n id (find_reader n id),
      rw (r, w) refl,
      rw (r, w) (Closed-writer n id sid v (find_value-some sid n.writers v.writer_keys w)),
    )
  ]
  | inr (id, r) ↦ elim (Option-cases (find_value sid n.writers)) [
    | inl w ↦ (
      close_reader n sid id (find id n.writers),
      rw (r, w) refl,
      rw r (Closed-reader n sid id v r),
    )
    | inr (wid, w) ↦
        let (n', e, c) = Closed-both n sid id wid v r w in
        let same : id ≡ wid =
          v.agree sid id wid r (find_value-some sid n.writers v.writer_keys w) in
        (n', rw (r, w) e, rw (r, same) c)
  ]
]

removed-IsValid : (n : Node) (sid : ℕ) → IsValid n → IsValid (remove_socket n sid)
unfolding remove_socket
removed-IsValid n sid v = record {
  reader_keys = v.reader_keys;
  writer_keys = v.writer_keys;
  one_reader = v.one_reader;
  one_writer = v.one_writer;
  agree = v.agree;
}

Closes-reader :
    (n n' : Node) (sid : ℕ)
    → Closes n n' (served (find sid n.readers) (find_writer n sid))
    → find sid n'.readers ≡ none
Closes-reader n n' sid c = elim (Option-cases (find sid n.readers)) [
  | inr (id, r) ↦ let x : Closed n n' id = rw r at c in x.readers sid ∙ rw (r, ==_self id) refl
  | inl r ↦ elim (Option-cases (find_writer n sid)) [
    | inl w ↦ (let x : Closes n n' none = rw (r, w) at c in ap (find sid) x.0 ∙ r)
    | inr (id, w) ↦ (let x : Closed n n' id = rw (r, w) at c in x.readers sid ∙ rw r refl)
  ]
]

Closes-writer :
    (n n' : Node) (sid i : ℕ)
    → IsValid n
    → Closes n n' (served (find sid n.readers) (find_writer n sid))
    → find i n'.writers ≢ some sid
unfolding find_writer
Closes-writer n n' sid i v c e = elim (Option-cases (find sid n.readers)) [
  | inr (id, r) ↦
      let x : Closed n n' id = rw r at c in
      let w : find i n.writers ≡ some sid = writers_some id i _ (sym (x.writers i) ∙ e) in
      let same : id ≡ i = v.agree sid id i r w in
      let t : (id == i) ≡ true = ground (arith, same) in
      let y : none ≡ some sid = rw (x.writers i, t) at e in cc
  | inl r ↦ elim (Option-cases (find_value sid n.writers)) [
    | inl w ↦
        let x : Closes n n' none = rw (r, w) at c in
        find_value-none sid i n.writers w (ap (find i) (sym x.1) ∙ e)
    | inr (id, f) ↦
        let x : Closed n n' id = rw (r, f) at c in
        let w : find i n.writers ≡ some sid = writers_some id i _ (sym (x.writers i) ∙ e) in
        let same : id ≡ i =
          v.one_writer sid id i (find_value-some sid n.writers v.writer_keys f) w in
        let t : (id == i) ≡ true = ground (arith, same) in
        let y : none ≡ some sid = rw (x.writers i, t) at e in cc
  ]
]

-- From well-formed maps, closing any socket succeeds on every branch. If the socket serves no
-- neighbour, the maps stay as they were; otherwise the neighbour that it serves loses its reader
-- and its writer, whichever socket they are on, every other neighbour keeps what it had, the maps
-- stay well formed, and the neighbour is reported as disconnected, once, exactly if it had both.
-- Afterwards the socket reads from no neighbour and writes to none.
pub close_socket_lem :
    (n : Node) (sid : ℕ)
    → IsValid n
    → (n' : Node) × (close_socket n sid ≡ done n')
      × Closes (remove_socket n sid) n' (served (find sid n.readers) (find_writer n sid))
      × (find sid n'.readers ≡ none)
      × ((i : ℕ) → find i n'.writers ≢ some sid)
unfolding close_socket remove_socket find_writer
close_socket_lem n sid v =
    let v' = removed-IsValid n sid v in
    let (n', e, c) = Closes-channel (remove_socket n sid) sid v' in
    (
      n',
      e,
      c,
      Closes-reader (remove_socket n sid) n' sid c,
      λ i. Closes-writer (remove_socket n sid) n' sid i v' c,
    )
