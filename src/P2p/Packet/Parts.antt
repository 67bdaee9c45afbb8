-- ===== src/P2p/Packet/Parts.antt =====
-- The packets of a message.
use net_lib.P2p.Packet.{
  PacketType, Packet, packet_value, header_size, max_packet_size, next_packet, packet_loop,
  part_count, enqueue_packets,
}
use native.Mathlib.Nat.{
  div-eq_of_lt, div-eq-sub-div, div-le_self, div_self, mod-add-div', mod-eq_of_lt, mod-eq-sub-mod,
  mod_self,
}
use net_lib.Prelude.{
  ℕ, zero, suc, ◌^◌, ◌+◌, ◌-◌, ◌*◌, ◌/◌, ◌%◌, ◌≤◌, ◌<◌, ◌≡◌, refl, sym, ap, ◌∙◌, arith, List, [],
  ◌∷◌, ◌++◌, true, false, ltb, leb, ◌==◌, ==_iff, ltb→lt, ltb→ge, lt→ltb, length, take, drop,
  drop_all, Bytes, done, subst, All, length-take, length-drop, length-append, take-append-drop,
  take-length-append, take_all, inl, inr, Bool-cases, replicate, if◌then◌else◌,
}

le-mul : (n m : ℕ) → 0 < m → n ≤ n * m
le-mul n m pos = grind arith

-- What a packet carries.
abbrev pub content : Packet → Bytes
content p = take p.payloadsize p.payload

abbrev pub contents : List Packet → Bytes
contents [] = []
contents (p ∷ ps) = content p ++ contents ps

-- A packet of a message from `addresser`, with the payload filled up to the packet size.
pub record IsPart (addresser : ℕ) (packettype : PacketType) (packet_size partcount : ℕ) (p : Packet)
    : Type 0 where
  pub type_ok : p.packettype ≡ packet_value packettype
  pub size_ok : p.packetsize ≡ packet_size
  pub from_ok : p.addresser ≡ addresser
  pub count_ok : p.partcount ≡ partcount
  pub some_payload : 0 < p.payloadsize
  pub payload_fits : p.payloadsize ≤ packet_size - header_size
  pub payload_full : length p.payload ≡ packet_size - header_size

-- Numbered from `i`, and the last has the number `n`.
abbrev pub Numbered : (i n : ℕ) → List Packet → Type 0
Numbered i n [] = i ≡ suc n
Numbered i n (p ∷ ps) = (p.partindex ≡ i) × Numbered (suc i) n ps

part_number : (m len : ℕ) → ℕ
part_number m len = len / m + (if len % m == 0 then 0 else 1)

part_number_last : (m len : ℕ) → 0 < len → len ≤ m → part_number m len ≡ 1
unfolding part_number
part_number_last m len pos le = elim (Bool-cases (len == m)) [
  | inl whole ↦
      let e : len ≡ m = (==_iff len m).0 whole in
      rw e (rw (div_self {n = m} (rw e at pos), mod_self m) refl)
  | inr part ↦
      let lt : len < m = ground (arith, (==_iff len m).1) in
      rw (div-eq_of_lt lt, mod-eq_of_lt lt) (ground arith)
]

part_number_zero : (m : ℕ) → 0 < m → part_number m 0 ≡ 0
unfolding part_number
part_number_zero m pos = rw (div-eq_of_lt pos, mod-eq_of_lt pos) refl

part_number_more : (m len : ℕ) → 0 < m → m < len → part_number m len ≡ suc (part_number m (len - m))
unfolding part_number
part_number_more m len pos lt =
    rw (div-eq-sub-div {n = len} pos (omega arith), mod-eq-sub-mod {n = len} {m = m} (omega arith))
      (omega arith)

take_front :
    (n k : ℕ) (xs : Bytes) → n ≤ length xs → take n (take n xs ++ replicate k 0) ≡ take n xs
take_front n k xs le =
    let e : length (take n xs) ≡ n = omega (arith, length-take n xs) in
    rw e at (take-length-append (take n xs) (replicate k 0))

length-replicate : (n k : ℕ) → length (replicate {A = ℕ} n k) ≡ n
length-replicate zero k = refl
length-replicate (suc n) k = ap suc (length-replicate n k)

padded :
    (n m : ℕ) (xs : Bytes) → n ≤ length xs → n ≤ m → length (take n xs ++ replicate (m - n) 0) ≡ m
padded n m xs le lm = omega (
  arith,
  length-append (take n xs) (replicate (m - n) 0),
  length-take n xs,
  length-replicate (m - n) 0,
)

module _ (addresser : ℕ) (packettype : PacketType) (packet_size count : ℕ)
    (large : header_size < packet_size) (small : packet_size ≤ max_packet_size) where
  next_packet_index :
      (i : ℕ) (xs : Bytes) → (next_packet addresser packettype packet_size count i xs).partindex ≡ i
  unfolding next_packet
  next_packet_index i xs = refl

  packet_loop_nil :
      (fuel i : ℕ) → packet_loop fuel addresser packettype packet_size count i [] ≡ done []
  unfolding packet_loop
  packet_loop_nil zero i = refl
  packet_loop_nil (suc fuel) i = refl

  next_packet_lem :
      (i : ℕ) (xs : Bytes)
      → 0 < length xs
      → length xs < 2 ^ 31
      → let p = next_packet addresser packettype packet_size count i xs in
        IsPart addresser packettype packet_size count p
        × (content p ≡ take (packet_size - header_size) xs)
        × (drop p.payloadsize xs ≡ drop (packet_size - header_size) xs)
  unfolding next_packet
  next_packet_lem i xs pos lt = elim (Bool-cases (ltb (packet_size - header_size) (length xs))) [
    | inl more ↦
        let m = packet_size - header_size in
        let le : m ≤ length xs = omega (arith, ltb→lt m (length xs)) in
        rw more (
          record {
            type_ok = refl;
            size_ok = refl;
            from_ok = refl;
            count_ok = refl;
            some_payload = omega arith;
            payload_fits = omega arith;
            payload_full = padded m m xs le (omega arith);
          },
          take_front m (m - m) xs le,
          refl,
        )
    | inr last ↦
        let m = packet_size - header_size in
        let n = length xs in
        let le : n ≤ m = ltb→ge m n last in
        let e : n % 2 ^ 16 ≡ n = omega arith in
        rw (last, e)
          (
            record {
              type_ok = refl;
              size_ok = refl;
              from_ok = refl;
              count_ok = refl;
              some_payload = pos;
              payload_fits = le;
              payload_full = padded n m xs (omega arith) le;
            },
            take_front n (m - n) xs (omega arith)
                ∙ take_all n xs (omega arith)
                ∙ sym (take_all m xs le),
            drop_all n xs (omega arith) ∙ sym (drop_all m xs le),
          )
  ]

  packet_loop_step :
      (fuel i x : ℕ) (xs : Bytes) (ps : List Packet)
      → suc i < 2 ^ 32
      → let p = next_packet addresser packettype packet_size count i (x ∷ xs) in
        packet_loop fuel addresser packettype packet_size count
            (suc i)
            (drop p.payloadsize (x ∷ xs))
          ≡ done ps
        → packet_loop (suc fuel) addresser packettype packet_size count i (x ∷ xs) ≡ done (p ∷ ps)
  unfolding packet_loop
  packet_loop_step fuel i x xs ps lt run =
      let next : (i + 1) % 2 ^ 32 ≡ suc i = omega arith in
      let l : ltb header_size packet_size ≡ true = lt→ltb _ _ large in
      let s : leb packet_size max_packet_size ≡ true = ground arith in rw (next, run, l, s) refl

  -- How many packets `len` bytes take.
  abbrev parts_of : ℕ → ℕ
  parts_of len = part_number (packet_size - header_size) len

  parts_of_next :
      (i len : ℕ)
      → 0 < len
      → suc i + parts_of (len - (packet_size - header_size)) ≡ i + parts_of len
  parts_of_next i len pos =
      let m = packet_size - header_size in
      elim (Bool-cases (ltb m len)) [
        | inl more ↦
            let lt : m < len = ltb→lt m len more in
            omega (arith, part_number_more m len (omega arith) lt)
        | inr last ↦
            let le : len ≤ m = ltb→ge m len last in
            let e : len - m ≡ 0 = omega arith in
            rw e (omega (arith, part_number_last m len pos le, part_number_zero m (omega arith)))
      ]

  packet_loop_lem :
      (fuel i : ℕ) (xs : Bytes)
      → length xs ≤ fuel
      → length xs < 2 ^ 31
      → 0 < i
      → i + length xs < 2 ^ 32
      → (ps : List Packet) × (packet_loop fuel addresser packettype packet_size count i xs
          ≡ done ps)
        × All (IsPart addresser packettype packet_size count) ps
        × (contents ps ≡ xs)
        × Numbered i (i + parts_of (length xs) - 1) ps
  packet_loop_lem fuel i [] le lt pos small_i = (
    [],
    packet_loop_nil fuel i,
    tt,
    refl,
    omega (arith, part_number_zero (packet_size - header_size) (omega arith)),
  )
  packet_loop_lem zero i (x ∷ xs) le lt pos small_i = absurd (omega arith)
  packet_loop_lem (suc fuel) i (x ∷ xs) le lt pos small_i =
      let m = packet_size - header_size in
      let (part, front, behind) = next_packet_lem i (x ∷ xs) (omega arith) lt in
      let e : length (drop m (x ∷ xs)) ≡ length (x ∷ xs) - m = length-drop m (x ∷ xs) in
      let (ps, run, parts, c, n) =
        packet_loop_lem fuel (suc i) (drop m (x ∷ xs)) (omega arith) (omega arith) (omega arith)
          (omega arith) in
      let k : suc i + parts_of (length (drop m (x ∷ xs))) ≡ i + parts_of (length (x ∷ xs)) =
        rw e (parts_of_next i (length (x ∷ xs)) (omega arith)) in
      (
        next_packet addresser packettype packet_size count i (x ∷ xs) ∷ ps,
        packet_loop_step fuel i x xs ps (omega arith) (rw behind run),
        (part, parts),
        rw (front, c) (take-append-drop m (x ∷ xs)),
        (next_packet_index i (x ∷ xs), subst (λ j. Numbered (suc i) (j - 1) ps) k n),
      )

part_number-le : (m len : ℕ) → 0 < m → part_number m len ≤ len
unfolding part_number
part_number-le m len pos = elim (Bool-cases (len % m == 0)) [
  | inl whole ↦ rw whole (omega (arith, div-le_self len m))
  | inr part ↦ rw part (
      let some_left : 0 < len % m = ground arith in
      let h : len % m + len / m * m ≡ len = mod-add-div' len m in
      let g : len / m ≤ len / m * m = le-mul (len / m) m pos in omega arith)
]

part_count-number :
    (packet_size len : ℕ)
    → header_size < packet_size
    → len < 2 ^ 31
    → part_count packet_size len ≡ part_number (packet_size - header_size) len
unfolding part_count part_number
part_count-number packet_size len large lt =
    let h : part_number (packet_size - header_size) len ≤ len =
      part_number-le (packet_size - header_size) len (omega arith) in
    omega arith

-- A message of fewer than 2 ^ 31 bytes, for a packet size that leaves some payload and fits the
-- array, is put behind the queue as packets from the addresser, each no larger than the payload
-- of a packet, that together carry exactly its bytes, in order. They are numbered from 1 up to
-- their count, which each of them gives, and an empty message has none.
pub enqueue_packets_lem :
    (q : List Packet) (addresser : ℕ) (packettype : PacketType) (packet_size : ℕ) (xs : Bytes)
    → header_size < packet_size
    → packet_size ≤ max_packet_size
    → length xs < 2 ^ 31
    → (ps : List Packet) × (enqueue_packets q addresser packettype packet_size xs ≡ done (q ++ ps))
      × All (IsPart addresser packettype packet_size (part_count packet_size (length xs))) ps
      × (contents ps ≡ xs)
      × Numbered 1 (part_count packet_size (length xs)) ps
unfolding enqueue_packets
enqueue_packets_lem q addresser packettype packet_size xs large small lt =
    let n = part_count packet_size (length xs) in
    let (ps, run, parts, c, numbered) =
      packet_loop_lem addresser packettype packet_size n large small (length xs) 1 xs (omega arith)
        lt (omega arith) (omega arith) in
    let k : 1 + part_number (packet_size - header_size) (length xs) - 1 ≡ n =
      omega (arith, part_count-number packet_size (length xs) large lt) in
    let other : (packet_size == header_size) ≡ false = ground arith in
    (ps, rw (other, run) refl, parts, c, subst (λ j. Numbered 1 j ps) k numbered)
