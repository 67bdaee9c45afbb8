-- ===== src/Meshnet/PriorityFrame/RoundTrip.antt =====
-- What `serialize` writes, `parse` reads back, with any bytes behind it; a proper prefix is refused
-- as incomplete.
use net_lib.Meshnet.PriorityFrame.{
  PriorityFrame, header_size, with_priority, priority, payload_size, size_field, serialize, size_of,
  magic_of, parse,
}
use net_lib.Prelude.Bits.{and_low4, and_high_byte, and_low_byte, and_low8, or_bytes, magic_byte}
use net_lib.Prelude.{
  ℕ, zero, suc, ◌+◌, ◌-◌, ◌/◌, ◌%◌, ◌^◌, ◌≤◌, ◌<◌, ◌≡◌, refl, sym, ◌∙◌, [], ◌∷◌, ◌++◌, none, some,
  leb, length, take, length-take, length-append, Bytes, done, true, arith, done-injective, subst,
}

-- The layout of a frame: the magic number and the priority, the size in network order, the payload.
abbrev pub encode : ℕ → Bytes → Bytes
encode p payload = (80 + p) ∷ length payload / 256 ∷ length payload % 256 ∷ payload

abbrev pub frame_of : ℕ → Bytes → PriorityFrame
frame_of p payload = record { b0 = 80 + p; size = length payload }

magic_lem : (p : ℕ) → p < 16 → magic_of (80 + p) ≡ 5
unfolding magic_of
magic_lem p h = omega (arith, and_low4 ((80 + p) / 2 ^ 4) (omega arith))

size_lem : (n : ℕ) → n < 65536 → size_of (n / 256) (n % 256) ≡ n
unfolding size_of
size_lem n h =
    rw
      (
        and_high_byte (n / 256) (omega arith),
        and_low_byte (n % 256) (omega arith),
        or_bytes (n / 256) (n % 256) (omega arith) (omega arith),
      )
      (omega arith)

pub priority-frame_of : (p : ℕ) (payload : Bytes) → p < 16 → priority (frame_of p payload) ≡ p
unfolding priority
priority-frame_of p payload h = omega (arith, and_low4 (80 + p) (omega arith))

pub parse_frame :
    (p : ℕ) (payload rest : Bytes)
    → p < 16
    → length payload < 65536
    → parse (encode p payload ++ rest) ≡ done (some (frame_of p payload))
unfolding parse
parse_frame p payload rest h l =
    ground (arith, magic_lem p h, size_lem (length payload) l, length-append payload rest)

-- Anything shorter than a whole frame of a priority below 16 and a payload below 2 ^ 16 bytes is
-- no frame yet, and no error.
pub parse_prefix :
    (p k : ℕ) (payload : Bytes)
    → p < 16
    → length payload < 65536
    → k < header_size + length payload
    → parse (take k (encode p payload)) ≡ done none
unfolding parse
parse_prefix p zero payload h l lt = refl
parse_prefix p (suc zero) payload h l lt = refl
parse_prefix p (suc (suc zero)) payload h l lt = refl
parse_prefix p (suc (suc (suc k))) payload h l lt =
    ground (arith, magic_lem p h, size_lem (length payload) l, length-take k payload)

pub serialize_lem :
    (p frame_size : ℕ) (out bytes : Bytes)
    → p < 16
    → header_size ≤ frame_size
    → frame_size < header_size + 2 ^ 16
    → frame_size ≤ header_size + length bytes
    → let payload = take (frame_size - header_size) bytes in
      serialize (with_priority p) out bytes frame_size
      ≡ done (frame_of p payload, out ++ encode p payload)
unfolding serialize with_priority
serialize_lem p k out bytes h lo hi fits =
    let size : size_field k ≡ k - 3 = omega arith in
    let room : leb (k - 3) (length bytes) ≡ true = ground arith in
    let len : length (take (k - 3) bytes) ≡ k - 3 = omega (arith, length-take (k - 3) bytes) in
    rw (magic_byte p h, size, room, and_low8 (k - 3) (omega arith), len) refl

-- A frame of 3 to 2 ^ 16 + 2 bytes, serialized for a priority below 16 from bytes that fill it,
-- is as long as asked, and is parsed back, whatever stands behind it, with its priority and the
-- size of its payload.
pub parse-serialize :
    (p frame_size : ℕ) (bytes rest : Bytes)
    → p < 16
    → header_size ≤ frame_size
    → frame_size < header_size + 2 ^ 16
    → frame_size ≤ header_size + length bytes
    → (f : PriorityFrame) (out : Bytes)
    → serialize (with_priority p) [] bytes frame_size ≡ done (f, out)
    → (parse (out ++ rest) ≡ done (some f))
      × (priority f ≡ p)
      × (payload_size f ≡ frame_size - header_size)
      × (length out ≡ frame_size)
unfolding payload_size
parse-serialize p k bytes rest h lo hi fits f out e =
    let payload = take (k - header_size) bytes in
    let len : length payload ≡ k - 3 = omega (arith, length-take (k - header_size) bytes) in
    let same : (frame_of p payload, encode p payload)
        ≡ (let r : PriorityFrame × Bytes = (f, out) in r) =
      done-injective (sym (serialize_lem p k [] bytes h lo hi fits) ∙ e) in
    subst
      (λ (r : PriorityFrame × Bytes).
        (parse (r.1 ++ rest) ≡ done (some r.0))
        × (priority r.0 ≡ p)
        × (payload_size r.0 ≡ k - header_size)
        × (length r.1 ≡ k))
      same
      (parse_frame p payload rest h (omega arith), priority-frame_of p payload h, len, omega arith)
