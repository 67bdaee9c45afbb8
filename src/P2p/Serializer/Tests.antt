-- ===== src/P2p/Serializer/Tests.antt =====
-- A packet in little-endian order.
use net_lib.P2p.Packet.{Packet}
use net_lib.Prelude.{[], ◌∷◌}

abbrev packet : Packet
packet = record {
  packettype = 42;
  packetsize = 31;
  addresser = 7;
  payloadsize = 1;
  partcount = 3;
  partindex = 2;
  payload = 5 ∷ 0 ∷ [];
}
