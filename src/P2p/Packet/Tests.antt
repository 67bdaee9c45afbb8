-- ===== src/P2p/Packet/Tests.antt =====
-- Concrete packets and messages.
use net_lib.P2p.Packet.{
  Packet, regular, enqueue_packets, packet_loop, next_packet, part_count, packet_value,
}
use net_lib.P2p.Packet.Parts.{enqueue_packets_lem, IsPart, Numbered, contents}
use net_lib.P2p.Packet.{Packet}
use net_lib.Prelude.{◌≡◌, refl, [], ◌∷◌, done, List, All, ◌++◌, arith}

three_bytes :
    enqueue_packets [] 7 regular 31 (1 ∷ 2 ∷ 3 ∷ [])
    ≡ done (
        record {
          packettype = 42;
          packetsize = 31;
          addresser = 7;
          payloadsize = 2;
          partcount = 2;
          partindex = 1;
          payload = 1 ∷ 2 ∷ [];
        }
        ∷ record {
          packettype = 42;
          packetsize = 31;
          addresser = 7;
          payloadsize = 1;
          partcount = 2;
          partindex = 2;
          payload = 3 ∷ 0 ∷ [];
        }
        ∷ [])
unfolding enqueue_packets packet_loop next_packet part_count packet_value
three_bytes = refl

enqueue_packets_lem_example :
    (ps : List Packet) × (enqueue_packets [] 7 regular 31 (1 ∷ 2 ∷ 3 ∷ []) ≡ done ([] ++ ps))
    × All (IsPart 7 regular 31 (part_count 31 3)) ps
    × (contents ps ≡ 1 ∷ 2 ∷ 3 ∷ [])
    × Numbered 1 (part_count 31 3) ps
enqueue_packets_lem_example =
    enqueue_packets_lem [] 7 regular 31 (1 ∷ 2 ∷ 3 ∷ []) (omega arith) (omega arith) (omega arith)
