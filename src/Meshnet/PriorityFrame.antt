-- ===== src/Meshnet/PriorityFrame.antt =====
-- include/pfs/netty/patterns/meshnet/priority_frame.hpp: a chunk of a message with its priority and
-- its size. A char is its bit pattern, below 256.
pub mod RoundTrip
use Prim.Native.Nat.{bit_and, bit_or}
use net_lib.Prelude.Bits.{sign_extend}
use net_lib.Prelude.{
  ℕ, zero, suc, ◌+◌, ◌-◌, ◌*◌, ◌/◌, ◌%◌, ◌^◌, List, [], ◌∷◌, ◌++◌, Option, none, some, ltb, leb,
  ◌==◌, if◌then◌else◌, length, take, Bytes, Outcome, done, fails, undefined, unexpected_data,
}

abbrev pub header_size : ℕ
header_size = 3

pub record PriorityFrame : Type 0 where
  pub b0 : ℕ
  -- Frame payload size, a std::uint16_t.
  pub size : ℕ

unfoldable pub with_priority : ℕ → PriorityFrame
with_priority priority = record {
  b0 = bit_or (bit_or 0 (bit_and (5 * 2 ^ 4) 0xF0)) (bit_and priority 0x0F);
  size = 0;
}

unfoldable pub priority : PriorityFrame → ℕ
priority f = bit_and f.b0 0x0F

unfoldable pub payload_size : PriorityFrame → ℕ
payload_size f = f.size

-- `frame_size - header_size()` in std::size_t, kept in a std::uint16_t.
abbrev pub size_field : ℕ → ℕ
size_field frame_size = (frame_size + 2 ^ 64 - header_size) % 2 ^ 64 % 2 ^ 16

-- The bytes of the header.
unfoldable pub header_bytes : PriorityFrame → Bytes
header_bytes f = f.b0 ∷ f.size / 2 ^ 8 ∷ bit_and f.size 0x00FF ∷ []

-- `first` is the data from the pointer on: to read behind its end is undefined.
unfoldable pub serialize : PriorityFrame → Bytes → Bytes → ℕ → Outcome (PriorityFrame × Bytes)
unfolding header_bytes
serialize f out first frame_size =
    let f' : PriorityFrame = record f { size = size_field frame_size } in
    if leb f'.size (length first)
    then done (f', out ++ (header_bytes f' ++ take f'.size first))
    else fails undefined

byte_at : Bytes → ℕ → ℕ
byte_at [] i = 0
byte_at (c ∷ cs) zero = c
byte_at (c ∷ cs) (suc i) = byte_at cs i

-- The two bytes of the size, from network order.
size_of : ℕ → ℕ → ℕ
size_of hi lo = bit_or (bit_and (sign_extend hi * 2 ^ 8) 0xFF00) (bit_and (sign_extend lo) 0x00FF)

magic_of : ℕ → ℕ
magic_of b0 = bit_and (b0 / 2 ^ 4) 0x0F

finish : PriorityFrame → ℕ → Option PriorityFrame
finish f len = if ltb len (header_size + f.size) then none else some f

-- `none` is an incomplete frame; a wrong magic number is thrown.
unfoldable pub parse : Bytes → Outcome (Option PriorityFrame)
unfolding byte_at size_of magic_of finish
parse bytes =
    let len = length bytes in
    let b0 = if ltb 0 len then byte_at bytes 0 else 0 in
    if leb header_size len
    then if magic_of b0 == 5
      then done
          (finish (record { b0 = b0; size = size_of (byte_at bytes 1) (byte_at bytes 2) }) len)
      else fails unexpected_data
    else done (finish (record { b0 = b0; size = 0 }) len)
