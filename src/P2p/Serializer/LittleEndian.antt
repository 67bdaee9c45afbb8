-- ===== src/P2p/Serializer/LittleEndian.antt =====
-- A binary stream in little-endian order, which keeps the promises of `Archive`.
use net_lib.P2p.Serializer.{Archive}
use native.Mathlib.Nat.{pow-suc}
use net_lib.Prelude.{
  ℕ, zero, suc, ◌+◌, ◌*◌, ◌/◌, ◌%◌, ◌^◌, ◌<◌, ◌≡◌, refl, ap, arith, [], ◌∷◌, ◌++◌, length, take,
  drop, take-length-append, drop-length-append, Bytes,
}

put : (w value : ℕ) → Bytes
put zero value = []
put (suc w) value = (value % 256) ∷ put w (value / 256)

get : (w : ℕ) → Bytes → ℕ × Bytes
get zero bytes = (0, bytes)
get (suc w) [] = (0, [])
get (suc w) (c ∷ bytes) = let r = get w bytes in (c + 256 * r.0, r.1)

length-put : (w value : ℕ) → length (put w value) ≡ w
unfolding put
length-put zero value = refl
length-put (suc w) value = ap suc (length-put w (value / 256))

put_byte : (value : ℕ) → value < 256 → put 1 value ≡ value ∷ []
unfolding put
put_byte value lt = let e : value % 256 ≡ value = omega arith in ap (λ c. c ∷ []) e

get-put :
    (w value : ℕ) (rest : Bytes) → value < 256 ^ w → get w (put w value ++ rest) ≡ (value, rest)
unfolding put get
get-put zero value rest lt = let e : 0 ≡ value = omega arith in ap (λ c. (c, rest)) e
get-put (suc w) value rest lt =
    let p : 256 ^ suc w ≡ 256 ^ w * 256 = pow-suc 256 w in
    let ih = get-put w (value / 256) rest (omega arith) in
    let e : value % 256 + 256 * (value / 256) ≡ value = omega arith in rw (ih, e) refl

get_chars-append :
    (s rest : Bytes)
    → ◌≡◌ {A = Bytes × Bytes} (take (length s) (s ++ rest), drop (length s) (s ++ rest)) (s, rest)
get_chars-append s rest = rw (take-length-append s rest, drop-length-append s rest) refl

unfoldable pub little_endian : Archive
unfolding put get length-put put_byte get-put get_chars-append
little_endian = record {
  put = put;
  get = get;
  put_chars = λ s. s;
  get_chars = λ n bytes. (take n bytes, drop n bytes);
  length-put = length-put;
  put_byte = put_byte;
  get-put = get-put;
  length-put_chars = λ s. refl;
  get_chars-put_chars = get_chars-append;
}
