-- ===== src/Meshnet/PriorityInput.antt =====
-- include/pfs/netty/patterns/meshnet/priority_input_processor.hpp, and the
-- loops of basic_input_processor.hpp. Chunks from a socket are cut into frames, each frame's payload is
-- added to the buffer of its priority, and the packets of that buffer are handed to the node. The
-- deserializer of common-lib is a parameter, and so is what the node does with a packet, as far as it
-- comes back: whether it removes this account, which the loop goes on to use.
pub mod Frames
pub mod Reassembly
pub mod Total
use net_lib.Meshnet.PriorityFrame.{PriorityFrame, header_size, priority, payload_size, parse}
use net_lib.Prelude.Dict.{find, insert, erase}
use net_lib.Prelude.{
  ℕ, zero, suc, ◌+◌, Bool, true, false, List, [], ◌∷◌, ◌++◌, Option, none, some, ◌==◌,
  if◌then◌else◌, length, is_nil, take, drop, get_elem?, set, replicate, Bytes, Outcome, done, fails,
  ◌>>=◌, undefined, terminated, unexpected_data, out_of_fuel, ◌≡◌, ◌<◌, ◌≤◌,
}

pub record Account : Type 0 where
  pub sid : ℕ
  -- Buffers to accumulate raw data, one for each priority.
  pub priority_buffers : List Bytes
  -- `none` is -1.
  pub current_priority : Option ℕ
  -- Intermediate buffer.
  pub tmp : Bytes

abbrev pub new_account : ℕ → ℕ → Account
new_account n sid = record {
  sid = sid;
  priority_buffers = replicate n [];
  current_priority = none;
  tmp = [];
}

unfoldable pub append_chunk : Account → Bytes → Account
append_chunk acc chunk = record acc { tmp = acc.tmp ++ chunk }

-- An index past the end of the std::array is undefined.
abbrev pub buffer_at : List Bytes → ℕ → Outcome Bytes
buffer_at buffers i = elim (get_elem? buffers i) [ none ↦ fails undefined | some b ↦ done b ]

unfoldable pub inpb_ref : Account → Outcome Bytes
inpb_ref acc = elim acc.current_priority [
  | none ↦ fails terminated
  | some i ↦ buffer_at acc.priority_buffers i
]

-- A write through the reference that `inpb_ref` returns.
unfoldable pub set_inpb : Account → Bytes → Account
set_inpb acc b = elim acc.current_priority [
  | none ↦ acc
  | some i ↦ record acc { priority_buffers = set acc.priority_buffers i b }
]

unfoldable pub accept_frame : Account → PriorityFrame → Outcome (Bool × Account)
unfolding inpb_ref set_inpb
accept_frame acc f = do
  let cur : Account = record acc { current_priority = some (priority f) }
  inpb ← inpb_ref cur
  let first = drop header_size acc.tmp
  let filled = set_inpb cur (inpb ++ take (payload_size f) first)
  done (true, record filled { tmp = drop (header_size + payload_size f) acc.tmp })

on_parsed : Account → Option PriorityFrame → Outcome (Bool × Account)
on_parsed acc none = done (false, acc)
on_parsed acc (some f) = accept_frame acc f

-- Attempt to read a frame.
unfoldable pub read_frame : Account → Outcome (Bool × Account)
unfolding accept_frame on_parsed
read_frame acc = do opt_frame ← parse acc.tmp; on_parsed acc opt_frame

-- The deserializer, with its transactions: what is read, if there is enough, and what is available
-- after that. A header is not empty, and a packet puts nothing back before its own start.
pub record Deserializer (H P : Type 0) : Type 0 where
  pub read_header : Bytes → Option H × Bytes
  pub is_known : H → Bool
  pub read_packet : H → Bytes → Option P × Bytes
  pub header-shrinks :
      (b : Bytes) (h : H) → (read_header b).0 ≡ some h → length (read_header b).1 < length b
  pub packet-shrinks : (h : H) (b : Bytes) → length (read_packet h b).1 ≤ length b

-- `closes out p` is whether the node, which was handed the packets `out`, removes the account when it
-- is handed `p`.
module _ {H P : Type 0} (d : Deserializer H P) (closes : List P → P → Bool) where
  -- The loop over packets, on fuel: what is available in the end, and what was handed over.
  unfoldable pub packet_loop : ℕ → List P → Bytes → Outcome (Bytes × List P)
  packet_loop zero out b = fails out_of_fuel
  packet_loop (suc fuel) out [] = done ([], [])
  packet_loop (suc fuel) out (x ∷ b) =
      let h = d.read_header (x ∷ b) in
      elim h.0 [
        | none ↦ done (h.1, [])
        | some header ↦ elim (d.is_known header) [
          | false ↦ fails unexpected_data
          | true ↦
              let p = d.read_packet header h.1 in
              elim p.0 [
                | none ↦ done (p.1, [])
                | some packet ↦ elim (closes out packet) [
                  | true ↦ fails undefined
                  | false ↦
                      packet_loop fuel (out ++ packet ∷ []) p.1 >>= λ r. done (r.0, packet ∷ r.1)
                ]
              ]
        ]
      ]

  unfoldable pub read_packets : List P → Bytes → Outcome (Bytes × List P)
  read_packets out b = packet_loop (suc (length b)) out b

  -- The packets of the current buffer; what they leave is written back.
  unfoldable pub read_buffer : Account → List P → Outcome (Account × List P)
  read_buffer acc out = do
    inpb ← inpb_ref acc
    r ← read_packets out inpb
    done (set_inpb acc r.0, out ++ r.1)

  -- `while (that->read_frame(*pacc))`, on fuel.
  unfoldable pub frame_loop : ℕ → Account → List P → Outcome (Account × List P)
  frame_loop zero acc out = fails out_of_fuel
  frame_loop (suc fuel) acc out = do
    r ← read_frame acc
    elim r.0 [
      | false ↦ done (r.1, out)
      | true ↦ read_buffer r.1 out >>= λ s. frame_loop fuel s.0 s.1
    ]

  -- `out` are the packets that were handed over before.
  unfoldable pub process_chunk : Account → Bytes → List P → Outcome (Account × List P)
  unfolding append_chunk
  process_chunk acc chunk out =
      if is_nil chunk
      then done (acc, out)
      else frame_loop (suc (length (acc.tmp ++ chunk))) (append_chunk acc chunk) out

  -- The accounts are a map from socket identifiers.
  unfoldable pub process_input :
      List (ℕ × Account) → ℕ → Bytes → List P → Outcome (List (ℕ × Account) × List P)
  process_input accounts sid chunk out =
      if is_nil chunk then done (accounts, out) else elim (find sid accounts) [
        | none ↦ fails terminated
        | some acc ↦
            if acc.sid == sid
            then (process_chunk acc chunk out >>= λ r. done (insert sid r.0 accounts, r.1))
            else fails terminated
      ]

-- `add` and `remove`.
unfoldable pub remove : List (ℕ × Account) → ℕ → List (ℕ × Account)
remove accounts sid = erase sid accounts

unfoldable pub add : ℕ → List (ℕ × Account) → ℕ → Outcome (List (ℕ × Account))
unfolding remove
add n accounts sid = elim (find sid accounts) [
  | none ↦ done (insert sid (new_account n sid) accounts)
  | some acc ↦
      if acc.sid == sid
      then done (insert sid (new_account n sid) (remove accounts sid))
      else fails terminated
]
