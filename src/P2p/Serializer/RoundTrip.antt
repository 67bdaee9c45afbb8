-- ===== src/P2p/Serializer/RoundTrip.antt =====
-- A packet that was written is read back.
use net_lib.P2p.Packet.{Packet, header_size}
use net_lib.P2p.Serializer.{Archive, pack, unpack}
use net_lib.Prelude.{
  ℕ, ◌+◌, ◌-◌, ◌%◌, ◌^◌, ◌≤◌, ◌<◌, ◌≡◌, refl, ◌++◌, append_assoc, arith, length, length-append,
  take, take_all, Bytes,
}

-- The fields fit their types, and the payload fills the packet up to its size.
pub record IsPacked (packet_size : ℕ) (p : Packet) : Type 0 where
  pub type_fits : p.packettype < 256
  pub size_ok : p.packetsize ≡ packet_size
  pub addresser_fits : p.addresser < 256 ^ 16
  pub payloadsize_fits : p.payloadsize < 2 ^ 16
  pub count_fits : p.partcount < 2 ^ 32
  pub index_fits : p.partindex < 2 ^ 32
  pub payload_full : length p.payload ≡ packet_size - header_size

module _ (a : Archive) (packet_size : ℕ) (large : header_size ≤ packet_size)
    (small : packet_size < 2 ^ 16) where
  open a use {put, get, put_chars, get_chars}

  -- A packet whose fields fit their types and whose payload fills it up to the packet size is
  -- read back as it was written, whatever stands behind it.
  pub unpack-pack :
      (p : Packet) (rest : Bytes) → IsPacked packet_size p → unpack a (pack a p ++ rest) ≡ p
  unfolding pack unpack
  unpack-pack p rest ok =
      let whole : take (p.packetsize - header_size) p.payload ≡ p.payload =
        take_all _ p.payload (omega arith) in
      let n : (p.packetsize + 2 ^ 64 - header_size) % 2 ^ 64 ≡ length p.payload = omega arith in
      let n' : (packet_size + 2 ^ 64 - header_size) % 2 ^ 64 ≡ length p.payload = omega arith in
      let t : (r : Bytes) → get 1 (put 1 p.packettype ++ r) ≡ (p.packettype, r) =
        λ r. a.get-put 1 p.packettype r ok.type_fits in
      let s : (r : Bytes) → get 2 (put 2 p.packetsize ++ r) ≡ (p.packetsize, r) =
        λ r. a.get-put 2 p.packetsize r (omega arith) in
      let from : (r : Bytes) → get 16 (put 16 p.addresser ++ r) ≡ (p.addresser, r) =
        λ r. a.get-put 16 p.addresser r ok.addresser_fits in
      let m : (r : Bytes) → get 2 (put 2 p.payloadsize ++ r) ≡ (p.payloadsize, r) =
        λ r. a.get-put 2 p.payloadsize r (omega arith) in
      let count : (r : Bytes) → get 4 (put 4 p.partcount ++ r) ≡ (p.partcount, r) =
        λ r. a.get-put 4 p.partcount r (omega arith) in
      let index : (r : Bytes) → get 4 (put 4 p.partindex ++ r) ≡ (p.partindex, r) =
        λ r. a.get-put 4 p.partindex r (omega arith) in
      simp (append_assoc, whole, t, s, from, m, count, index, n, a.get_chars-put_chars) refl

  pub length-pack : (p : Packet) → IsPacked packet_size p → length (pack a p) ≡ packet_size
  unfolding pack
  length-pack p ok =
      let whole : take (p.packetsize - header_size) p.payload ≡ p.payload =
        take_all _ p.payload (omega arith) in
      rw whole (simp (length-append, a.length-put, a.length-put_chars) (omega arith))
