-- ===== src/P2p/Serializer.antt =====
-- include/pfs/netty/p2p/primal_serializer.hpp: the bytes of a packet. The binary streams that it
-- writes to and reads from are those of common-lib, an argument here.
pub mod LittleEndian
pub mod RoundTrip
mod Tests
use net_lib.P2p.Packet.{Packet, header_size}
use net_lib.Prelude.{ℕ, ◌+◌, ◌-◌, ◌%◌, ◌^◌, ◌<◌, ◌≡◌, [], ◌∷◌, ◌++◌, length, take, Bytes}

-- What binary_ostream and binary_istream promise: a number of `w` bytes takes `w` bytes, one byte stands
-- as it is, and what was written is read back, whatever stands behind it. A string_view is written
-- without its length.
pub record Archive : Type 0 where
  pub put : (w value : ℕ) → Bytes
  pub get : (w : ℕ) → Bytes → ℕ × Bytes
  pub put_chars : Bytes → Bytes
  pub get_chars : ℕ → Bytes → Bytes × Bytes
  pub length-put : (w value : ℕ) → length (put w value) ≡ w
  pub put_byte : (value : ℕ) → value < 256 → put 1 value ≡ value ∷ []
  pub get-put :
      (w value : ℕ) (rest : Bytes) → value < 256 ^ w → get w (put w value ++ rest) ≡ (value, rest)
  pub length-put_chars : (s : Bytes) → length (put_chars s) ≡ length s
  pub get_chars-put_chars :
      (s rest : Bytes) → get_chars (length s) (put_chars s ++ rest) ≡ (s, rest)

module _ (a : Archive) where
  open a use {put, get, put_chars, get_chars}

  unfoldable pub pack : Packet → Bytes
  pack p =
      put 1 p.packettype
      ++ (put 2 p.packetsize
          ++ (put 16 p.addresser
              ++ (put 2 p.payloadsize
                  ++ (put 4 p.partcount
                      ++ (put 4 p.partindex
                          ++ put_chars (take (p.packetsize - header_size) p.payload))))))

  -- The number of chars to read is a std::size_t.
  unfoldable pub unpack : Bytes → Packet
  unpack bytes =
      let t = get 1 bytes in
      let s = get 2 t.1 in
      let from = get 16 s.1 in
      let n = get 2 from.1 in
      let count = get 4 n.1 in
      let index = get 4 count.1 in
      let chars = get_chars ((s.0 + 2 ^ 64 - header_size) % 2 ^ 64) index.1 in
      record {
        packettype = t.0;
        packetsize = s.0;
        addresser = from.0;
        payloadsize = n.0;
        partcount = count.0;
        partindex = index.0;
        payload = chars.0;
      }
