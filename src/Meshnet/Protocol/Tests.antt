-- ===== src/Meshnet/Protocol/Tests.antt =====
-- A data packet of version 3 with a checksum.
use net_lib.Meshnet.Protocol.{data_packet, new, enable_f1}
use net_lib.Meshnet.Protocol.Fields.{Reads, enabled-Reads}
use net_lib.Prelude.{true, false, arith}

enabled-Reads_example : Reads (enable_f1 (new data_packet true 3)) 3 15 true false true false
enabled-Reads_example = enabled-Reads data_packet true false true false 3 (omega arith)
