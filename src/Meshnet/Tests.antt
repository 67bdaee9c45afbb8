-- ===== src/Meshnet/Tests.antt =====
-- The theorems on priority frames and priority queues, at concrete inputs.
use net_lib.Meshnet.PriorityFrame.{with_priority, serialize, priority, payload_size, parse}
use net_lib.Meshnet.PriorityFrame.RoundTrip.{frame_of, parse-serialize}
use net_lib.Meshnet.PriorityInput.{
  Account, Deserializer, new_account, packet_loop, process_chunk, read_packets,
}
use net_lib.Meshnet.PriorityInput.Frames.{Frame}
use net_lib.Meshnet.PriorityInput.Reassembly.{process_chunks, reassembly}
use net_lib.Meshnet.PriorityInput.Total.{process_chunk_fuel}
use net_lib.Meshnet.PriorityQueue.{PriorityQueue, fresh, enqueue, frame}
use net_lib.Meshnet.PriorityQueue.Messages.{shift_times, long_message_lost}
use net_lib.Prelude.{
  ℕ, ◌≡◌, ◌≢◌, refl, List, [], ◌∷◌, Bytes, done, fails, undefined, out_of_fuel, none, some, Option,
  Bool, true, false, ◌<◌, arith, length,
}

parse-serialize_example :
    (parse (82 ∷ 0 ∷ 2 ∷ 7 ∷ 8 ∷ 80 ∷ []) ≡ done (some (frame_of 2 (7 ∷ 8 ∷ []))))
    × (priority (frame_of 2 (7 ∷ 8 ∷ [])) ≡ 2)
    × (payload_size (frame_of 2 (7 ∷ 8 ∷ [])) ≡ 2)
    × (length {A = ℕ} (82 ∷ 0 ∷ 2 ∷ 7 ∷ 8 ∷ []) ≡ 5)
unfolding serialize with_priority
parse-serialize_example =
    parse-serialize 2 5 (7 ∷ 8 ∷ 9 ∷ []) (80 ∷ []) (omega arith) (omega arith) (omega arith)
      (omega arith) (frame_of 2 (7 ∷ 8 ∷ [])) (82 ∷ 0 ∷ 2 ∷ 7 ∷ 8 ∷ []) refl

-- A protocol whose packets are pairs of bytes, all of them header; no packet removes the account.
abbrev pair_header : Bytes → Option Bytes × Bytes
pair_header [] = (none, [])
pair_header (x ∷ []) = (none, x ∷ [])
pair_header (x ∷ y ∷ rest) = (some (x ∷ y ∷ []), rest)

pair_shrinks : (b h : Bytes) → (pair_header b).0 ≡ some h → length (pair_header b).1 < length b
pair_shrinks [] h e = cc
pair_shrinks (x ∷ []) h e = cc
pair_shrinks (x ∷ y ∷ rest) h e = omega arith

unfoldable pairs : Deserializer Bytes Bytes
pairs = record {
  read_header = pair_header;
  is_known = λ h. true;
  read_packet = λ h b. (some h, b);
  header-shrinks = pair_shrinks;
  packet-shrinks = λ h b. omega arith;
}

abbrev stays : List Bytes → Bytes → Bool
stays out p = false

abbrev two_messages : List Frame
two_messages = (1, 1 ∷ []) ∷ (0, 3 ∷ 4 ∷ []) ∷ (1, 2 ∷ []) ∷ []

reassembly_example :
    (acc : Account) × (process_chunks pairs stays
        (new_account 2 7)
        ((81 ∷ []) ∷ (0 ∷ 1 ∷ 1 ∷ 80 ∷ 0 ∷ 2 ∷ []) ∷ [] ∷ (3 ∷ 4 ∷ 81 ∷ 0 ∷ 1 ∷ 2 ∷ []) ∷ [])
        []
      ≡ done (acc, (3 ∷ 4 ∷ []) ∷ (1 ∷ 2 ∷ []) ∷ []))
    × (acc.priority_buffers ≡ [] ∷ [] ∷ [])
    × (acc.tmp ≡ [])
unfolding pairs read_packets packet_loop
reassembly_example =
    reassembly pairs stays 2 7 two_messages _ ([] ∷ [] ∷ [], (3 ∷ 4 ∷ []) ∷ (1 ∷ 2 ∷ []) ∷ [])
      ((omega arith, omega arith), ((omega arith, omega arith), ((omega arith, omega arith), tt)))
      refl refl

process_chunk_fuel_example :
    process_chunk pairs stays (new_account 2 7) (81 ∷ 0 ∷ []) [] ≢ fails out_of_fuel
process_chunk_fuel_example = process_chunk_fuel pairs stays (new_account 2 7) (81 ∷ 0 ∷ []) []

-- Two frames of two bytes, of a message of five.
long_message_lost_example :
    (w : PriorityQueue) × (w' : PriorityQueue) × (enqueue
        (fresh (2 ∷ 1 ∷ []))
        0
        (1 ∷ 2 ∷ 3 ∷ 4 ∷ 5 ∷ [])
      ≡ done w)
    × (shift_times 2 5 w ≡ done w')
    × (frame w' 5 ≡ fails undefined)
long_message_lost_example =
    long_message_lost 2 1 2 5 [] (1 ∷ 2 ∷ 3 ∷ 4 ∷ 5 ∷ []) (omega arith) (omega arith) (omega arith)
      (omega arith) (omega arith)
