-- ===== src/Prelude/Bits.antt =====
-- Masks and shifts of bytes and 16-bit words, in the arithmetic that `omega` reads.
use Prim.Native.Nat.{ℕ, zero, suc, ◌+◌, ◌*◌, ◌/◌, ◌%◌, ◌<◌, bit_and, bit_or}
use mathlib.Core.Path.{◌≡◌, refl}
use mathlib.Core.Bool.{Bool, true, false}
use mathlib.Core.Logic.{inl, inr}
use Prim.Native.Nat.{◌+◌, ◌*◌, ◌/◌, ◌^◌, bit_or}
use net_lib.Prelude.Tests.{ltb, if◌then◌else◌}
use native.Mathlib.Omega.{arith}
use net_lib.Prelude.Tests.{◌==◌, ==_iff, Bool-cases}

-- Two functions of bytes or words compared at the arguments below `n`, from the last one down.
unfoldable pub agree : ℕ → (ℕ → ℕ) → (ℕ → ℕ) → Bool
agree zero f g = true
agree (suc n) f g = if f n == g n then agree n f g else false

pub table : (n : ℕ) (f g : ℕ → ℕ) → agree n f g ≡ true → (x : ℕ) → x < n → f x ≡ g x
unfolding agree
table zero f g t x lt = absurd (omega arith)
table (suc n) f g t x lt = elim (Bool-cases (f n == g n)) [
  | inr differ ↦ absurd (let e : false ≡ true = rw differ at t in cc)
  | inl same ↦ elim (Bool-cases (x == n)) [
    | inl last ↦ rw ((==_iff x n).0 last) ((==_iff (f n) (g n)).0 same)
    | inr before ↦ table n f g (rw same at t) x (ground (arith, before, (==_iff x n).1))
  ]
]

-- A char as std::uint16_t: the sign is extended.
abbrev pub sign_extend : ℕ → ℕ
sign_extend c = if ltb c 128 then c else c + 0xFF00

pub and_low4 : (x : ℕ) → x < 256 → bit_and x 0x0F ≡ x % 16
unfolding agree
and_low4 = table 256 (λ x. bit_and x 0x0F) (λ x. x % 16) refl

pub and_high_byte : (x : ℕ) → x < 256 → bit_and (sign_extend x * 2 ^ 8) 0xFF00 ≡ x * 256
unfolding agree
and_high_byte = table 256 (λ x. bit_and (sign_extend x * 2 ^ 8) 0xFF00) (λ x. x * 256) refl

pub and_low_byte : (x : ℕ) → x < 256 → bit_and (sign_extend x) 0x00FF ≡ x
unfolding agree
and_low_byte = table 256 (λ x. bit_and (sign_extend x) 0x00FF) (λ x. x) refl

pub and_low8 : (x : ℕ) → x < 65536 → bit_and x 0x00FF ≡ x % 256
unfolding agree
and_low8 = table 65536 (λ x. bit_and x 0x00FF) (λ x. x % 256) refl

or_bytes_table : (x : ℕ) → x < 65536 → bit_or (x / 256 * 256) (x % 256) ≡ x
unfolding agree
or_bytes_table = table 65536 (λ x. bit_or (x / 256 * 256) (x % 256)) (λ x. x) refl

pub or_bytes : (hi lo : ℕ) → hi < 256 → lo < 256 → bit_or (hi * 256) lo ≡ hi * 256 + lo
or_bytes hi lo h l =
    let e : (hi * 256 + lo) / 256 ≡ hi = omega arith in
    let f : (hi * 256 + lo) % 256 ≡ lo = omega arith in
    rw (e, f) at (or_bytes_table (hi * 256 + lo) (omega arith))

-- The first byte of a frame header: the magic number 5 above the priority.
pub magic_byte : (p : ℕ) → p < 16 → bit_or 80 (bit_and p 0x0F) ≡ 80 + p
unfolding agree
magic_byte = table 16 (λ p. bit_or 80 (bit_and p 0x0F)) (λ p. 80 + p) refl
