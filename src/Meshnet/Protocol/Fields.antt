-- ===== src/Meshnet/Protocol/Fields.antt =====
-- Every field of a header is read back, and the flags do not disturb each other.
use Prim.Native.Nat.{bit_and, bit_or}
use net_lib.Prelude.Bits.{agree, table}
use net_lib.Meshnet.Protocol.{
  PacketEnum, handshake, heartbeat, data_packet, packet_value, Header, new, version, type,
  has_checksum, is_f0, is_f1, is_f2, enable_f0, enable_f1, enable_f2,
}
use net_lib.Prelude.{ℕ, ◌<◌, ◌*◌, ◌/◌, ◌%◌, ◌^◌, ◌≡◌, refl, Bool, true, false, if◌then◌else◌}

abbrev first_byte : ℕ → ℕ → ℕ
first_byte v t = bit_or (bit_or 0 (bit_and (v % 2 ^ 8 * 2 ^ 4) 0xF0)) (bit_and t 0x0F)

version_table :
    (t : PacketEnum) (v : ℕ) → v < 16 → bit_and (first_byte v (packet_value t) / 2 ^ 4) 0x0F ≡ v
unfolding agree
version_table handshake = table 16 (λ v. bit_and (first_byte v 1 / 2 ^ 4) 0x0F) (λ v. v) refl
version_table heartbeat = table 16 (λ v. bit_and (first_byte v 2 / 2 ^ 4) 0x0F) (λ v. v) refl
version_table data_packet = table 16 (λ v. bit_and (first_byte v 15 / 2 ^ 4) 0x0F) (λ v. v) refl

type_table :
    (t : PacketEnum) (v : ℕ)
    → v < 16
    → bit_and (first_byte v (packet_value t)) 0x0F ≡ packet_value t
unfolding agree
type_table handshake = table 16 (λ v. bit_and (first_byte v 1) 0x0F) (λ v. 1) refl
type_table heartbeat = table 16 (λ v. bit_and (first_byte v 2) 0x0F) (λ v. 2) refl
type_table data_packet = table 16 (λ v. bit_and (first_byte v 15) 0x0F) (λ v. 15) refl

-- The flags that were enabled.
abbrev pub enabled : (f0 f1 f2 : Bool) → Header → Header
enabled f0 f1 f2 h =
    let a = (if f0 then enable_f0 h else h) in
    let b = (if f1 then enable_f1 a else a) in if f2 then enable_f2 b else b

abbrev pub Reads : Header → ℕ → ℕ → (checksum f0 f1 f2 : Bool) → Type 0
Reads h v t c f0 f1 f2 =
    (version h ≡ v)
    × (type h ≡ t)
    × (has_checksum h ≡ c)
    × (is_f0 h ≡ f0)
    × (is_f1 h ≡ f1)
    × (is_f2 h ≡ f2)

-- A header made with any packet type, checksum flag and version below 16, on which any of the
-- three free flags are enabled in turn, is read back with that version, type and checksum flag,
-- and with exactly the flags that were enabled.
pub enabled-Reads :
    (t : PacketEnum) (c f0 f1 f2 : Bool) (v : ℕ)
    → v < 16
    → Reads (enabled f0 f1 f2 (new t c v)) v (packet_value t) c f0 f1 f2
unfolding new version type has_checksum is_f0 is_f1 is_f2 enable_f0 enable_f1 enable_f2
enabled-Reads t false false false false v h =
    (version_table t v h, type_table t v h, refl, refl, refl, refl)
enabled-Reads t false false false true v h =
    (version_table t v h, type_table t v h, refl, refl, refl, refl)
enabled-Reads t false false true false v h =
    (version_table t v h, type_table t v h, refl, refl, refl, refl)
enabled-Reads t false false true true v h =
    (version_table t v h, type_table t v h, refl, refl, refl, refl)
enabled-Reads t false true false false v h =
    (version_table t v h, type_table t v h, refl, refl, refl, refl)
enabled-Reads t false true false true v h =
    (version_table t v h, type_table t v h, refl, refl, refl, refl)
enabled-Reads t false true true false v h =
    (version_table t v h, type_table t v h, refl, refl, refl, refl)
enabled-Reads t false true true true v h =
    (version_table t v h, type_table t v h, refl, refl, refl, refl)
enabled-Reads t true false false false v h =
    (version_table t v h, type_table t v h, refl, refl, refl, refl)
enabled-Reads t true false false true v h =
    (version_table t v h, type_table t v h, refl, refl, refl, refl)
enabled-Reads t true false true false v h =
    (version_table t v h, type_table t v h, refl, refl, refl, refl)
enabled-Reads t true false true true v h =
    (version_table t v h, type_table t v h, refl, refl, refl, refl)
enabled-Reads t true true false false v h =
    (version_table t v h, type_table t v h, refl, refl, refl, refl)
enabled-Reads t true true false true v h =
    (version_table t v h, type_table t v h, refl, refl, refl, refl)
enabled-Reads t true true true false v h =
    (version_table t v h, type_table t v h, refl, refl, refl, refl)
enabled-Reads t true true true true v h =
    (version_table t v h, type_table t v h, refl, refl, refl, refl)
