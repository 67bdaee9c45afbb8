-- ===== src/Meshnet/Protocol.antt =====
-- The packet header of include/pfs/netty/patterns/meshnet/protocol.hpp: its two bytes of fields. The
-- optional checksum and length stand behind them.
pub mod Fields
mod Tests
use Prim.Native.Nat.{bit_and, bit_or}
use net_lib.Prelude.{ℕ, ◌*◌, ◌/◌, ◌%◌, ◌^◌, Bool, true, false, not, ◌==◌, if◌then◌else◌}

pub data PacketEnum : Type 0 where
  handshake heartbeat data_packet : PacketEnum

-- The values of the enumerators.
abbrev pub packet_value : PacketEnum → ℕ
packet_value handshake = 1
packet_value heartbeat = 2
packet_value data_packet = 15

pub record Header : Type 0 where
  pub b0 : ℕ
  pub b1 : ℕ
  pub crc32 : ℕ
  pub length : ℕ

unfoldable pub new : PacketEnum → Bool → ℕ → Header
new type has_checksum version = record {
  b0 =
      bit_or (bit_or 0 (bit_and (version % 2 ^ 8 * 2 ^ 4) 0xF0)) (bit_and (packet_value type) 0x0F);
  b1 = bit_or 0 (if has_checksum then 0x01 else 0x00);
  crc32 = 0;
  length = 0;
}

unfoldable pub version : Header → ℕ
version h = bit_and (h.b0 / 2 ^ 4) 0x0F

-- As a number: the cast to the enumeration keeps it.
unfoldable pub type : Header → ℕ
type h = bit_and h.b0 0x0F

unfoldable pub has_checksum : Header → Bool
has_checksum h = not (bit_and h.b1 0x01 == 0)

unfoldable pub is_f0 : Header → Bool
is_f0 h = not (bit_and h.b1 0x02 == 0)

unfoldable pub is_f1 : Header → Bool
is_f1 h = not (bit_and h.b1 0x04 == 0)

unfoldable pub is_f2 : Header → Bool
is_f2 h = not (bit_and h.b1 0x08 == 0)

unfoldable pub enable_f0 : Header → Header
enable_f0 h = record h { b1 = bit_or h.b1 0x02 }

unfoldable pub enable_f1 : Header → Header
enable_f1 h = record h { b1 = bit_or h.b1 0x04 }

unfoldable pub enable_f2 : Header → Header
enable_f2 h = record h { b1 = bit_or h.b1 0x08 }

-- The header of a handshake packet: the first flag is a response, the second a node behind NAT.
unfoldable pub handshake_header : (is_response is_behind_nat : Bool) → Header
handshake_header is_response is_behind_nat =
    let h = new handshake false 0 in
    let way = if is_response then enable_f0 h else h in if is_behind_nat then enable_f1 way else way
