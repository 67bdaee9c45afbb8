-- ===== src/Meshnet/PriorityInput/Total.antt =====
-- Any input: the frame loop ends, and what a frame of a foreign priority does.
use net_lib.Meshnet.PriorityFrame.{PriorityFrame, header_size, priority, payload_size, parse}
use net_lib.Meshnet.PriorityFrame.RoundTrip.{encode, frame_of, priority-frame_of, parse_frame}
use net_lib.Meshnet.PriorityInput.{
  Deserializer, packet_loop, read_packets, Account, new_account, append_chunk, buffer_at, inpb_ref,
  set_inpb, accept_frame, on_parsed, read_frame, read_buffer, frame_loop, process_chunk,
}
use net_lib.Prelude.{
  Bool, Bool-cases, Option-cases, ℕ, zero, suc, ◌+◌, ◌≤◌, ◌<◌, ◌^◌, ◌≡◌, ◌≢◌, refl, sym, ap, ◌∙◌,
  arith, true, false, List, [], ◌∷◌, ◌++◌, Option, none, some, length, take, drop, get_elem?,
  get_elem?-replicate_ge, Bytes, Outcome, done, fails, ◌>>=◌, >>=-eq-done, fails-injective,
  Outcome-cases, undefined, out_of_fuel, length-drop, inl, inr, append-nil,
}

parse_size :
    (bytes : Bytes) {f : PriorityFrame}
    → parse bytes ≡ done (some f)
    → header_size + f.size ≤ length bytes
unfolding parse
parse_size bytes e = ground arith

accept_frame_shrinks :
    (acc acc' : Account) (f : PriorityFrame)
    → header_size + f.size ≤ length acc.tmp
    → accept_frame acc f ≡ done (true, acc')
    → length acc'.tmp < length acc.tmp
unfolding accept_frame payload_size
accept_frame_shrinks acc acc' f h e = ground (arith, length-drop (header_size + f.size) acc.tmp)

on_parsed_shrinks :
    (acc acc' : Account) (r : Option PriorityFrame)
    → parse acc.tmp ≡ done r
    → on_parsed acc r ≡ done (true, acc')
    → length acc'.tmp < length acc.tmp
unfolding on_parsed
on_parsed_shrinks acc acc' none p q = absurd (cc)
on_parsed_shrinks acc acc' (some f) p q = accept_frame_shrinks acc acc' f (parse_size acc.tmp p) q

read_frame_shrinks :
    (acc acc' : Account) → read_frame acc ≡ done (true, acc') → length acc'.tmp < length acc.tmp
unfolding read_frame
read_frame_shrinks acc acc' e =
    let (r, p, q) = >>=-eq-done (parse acc.tmp) (on_parsed acc) e in
    on_parsed_shrinks acc acc' r p q

parse_fuel : (bytes : Bytes) → parse bytes ≢ fails out_of_fuel
unfolding parse
parse_fuel bytes e = ground arith

accept_frame_fuel : (acc : Account) (f : PriorityFrame) → accept_frame acc f ≢ fails out_of_fuel
unfolding accept_frame
accept_frame_fuel acc f e = ground arith

read_frame_fuel : (acc : Account) → read_frame acc ≢ fails out_of_fuel
unfolding read_frame
read_frame_fuel acc e = ground (arith, parse_fuel acc.tmp, accept_frame_fuel acc)

>>=-fuel :
    {A B : Type 0} (f : A → B) (m : Outcome A)
    → m ≢ fails out_of_fuel
    → (m >>= λ a. done (f a)) ≢ fails out_of_fuel
>>=-fuel f (done a) ne e = cc
>>=-fuel f (fails x) ne e = ne (ap fails (fails-injective e))

module _ {H P : Type 0} (des : Deserializer H P) (closes : List P → P → Bool) where
  packet_loop_fuel :
      (fuel : ℕ) (out : List P) (b : Bytes)
      → length b < fuel
      → packet_loop des closes fuel out b ≢ fails out_of_fuel
  unfolding packet_loop
  packet_loop_fuel zero out b lt = absurd (omega arith)
  packet_loop_fuel (suc fuel) out [] lt = λ e. cc
  packet_loop_fuel (suc fuel) out (x ∷ b) lt = elim (Option-cases (des.read_header (x ∷ b)).0) [
    | inl e ↦ rw (packet_loop, e) (λ f. cc)
    | inr (h, e) ↦
        rw (packet_loop, e)
          (elim (Bool-cases (des.is_known h)) [
            | inr g ↦ rw g (λ f. cc)
            | inl g ↦
                let rest = (des.read_header (x ∷ b)).1 in
                rw g (elim (Option-cases (des.read_packet h rest).0) [
                  | inl i ↦ rw i (λ f. cc)
                  | inr (q, i) ↦ rw i (elim (Bool-cases (closes out q)) [
                    | inl k ↦ rw k (λ f. cc)
                    | inr k ↦ rw k (
                        >>=-fuel _
                          (packet_loop des closes fuel (out ++ q ∷ []) (des.read_packet h rest).1)
                          (packet_loop_fuel fuel (out ++ q ∷ []) (des.read_packet h rest).1 (
                            omega
                              (arith, des.header-shrinks (x ∷ b) h e, des.packet-shrinks h rest))))
                  ])
                ])
          ])
  ]

  read_packets_fuel : (out : List P) (b : Bytes) → read_packets des closes out b ≢ fails out_of_fuel
  unfolding read_packets
  read_packets_fuel out b = packet_loop_fuel (suc (length b)) out b (omega arith)

  read_buffer_tmp :
      (acc : Account) (out : List P) {s : Account × List P}
      → read_buffer des closes acc out ≡ done s
      → s.0.tmp ≡ acc.tmp
  unfolding read_buffer inpb_ref set_inpb
  read_buffer_tmp acc out e = ground arith

  inpb_ref_fuel : (acc : Account) → inpb_ref acc ≢ fails out_of_fuel
  unfolding inpb_ref
  inpb_ref_fuel acc e = ground arith

  read_buffer_fuel :
      (acc : Account) (out : List P) → read_buffer des closes acc out ≢ fails out_of_fuel
  unfolding read_buffer
  read_buffer_fuel acc out = elim (Outcome-cases (inpb_ref acc)) [
    | inr (f, e) ↦ rw e (λ x. inpb_ref_fuel acc (e ∙ ap fails (fails-injective x)))
    | inl (b, e) ↦ rw e (elim (Outcome-cases (read_packets des closes out b)) [
      | inr (f, g) ↦ rw g (λ x. read_packets_fuel out b (g ∙ ap fails (fails-injective x)))
      | inl (q, g) ↦ rw g (λ x. cc)
    ])
  ]

  -- The loop ends of itself: each round takes a header at least from the intermediate buffer.
  pub frame_loop_fuel :
      (fuel : ℕ) (acc : Account) (out : List P)
      → length acc.tmp < fuel
      → frame_loop des closes fuel acc out ≢ fails out_of_fuel
  unfolding frame_loop
  frame_loop_fuel zero acc out h = absurd (omega arith)
  frame_loop_fuel (suc fuel) acc out h = elim (Outcome-cases (read_frame acc)) [
    | inr (f, e) ↦ rw e (λ x. read_frame_fuel acc (e ∙ ap fails (fails-injective x)))
    | inl ((false, acc'), e) ↦ rw e (λ x. cc)
    | inl ((true, acc'), e) ↦ rw e (elim (Outcome-cases (read_buffer des closes acc' out)) [
      | inr (f, g) ↦ rw g (λ x. read_buffer_fuel acc' out (g ∙ ap fails (fails-injective x)))
      | inl (s, g) ↦ rw g (
          frame_loop_fuel fuel s.0 s.1
            (omega (arith, ap length (read_buffer_tmp acc' out g), read_frame_shrinks acc acc' e)))
    ])
  ]

  -- Whatever the account and the chunk, the loops over the frames and over the packets end within
  -- the fuel that they are given.
  pub process_chunk_fuel :
      (acc : Account) (chunk : Bytes) (out : List P)
      → process_chunk des closes acc chunk out ≢ fails out_of_fuel
  unfolding process_chunk
  process_chunk_fuel acc [] out = λ e. cc
  process_chunk_fuel acc (c ∷ cs) out =
      frame_loop_fuel _ (append_chunk acc (c ∷ cs)) out (unfold append_chunk in omega arith)

foreign_frame :
    (acc : Account) (f : PriorityFrame)
    → get_elem? acc.priority_buffers (priority f) ≡ none
    → accept_frame acc f ≡ fails undefined
unfolding accept_frame inpb_ref
foreign_frame acc f e =
    let missing : buffer_at acc.priority_buffers (priority f) ≡ fails undefined =
      ap (λ o. elim o [ none ↦ fails undefined | some b ↦ done b ]) e in
    ap
      (λ r. r >>= λ inpb. done (
        true,
        record (set_inpb (record acc { current_priority = some (priority f) })
            (inpb ++ take (payload_size f) (drop header_size acc.tmp))) {
              tmp = drop (header_size + payload_size f) acc.tmp;
            },
      ))
      missing

module _ {H P : Type 0} (des : Deserializer H P) (closes : List P → P → Bool) where
  -- A whole frame with a payload below 2 ^ 16 bytes whose priority, below 16, is no queue of this
  -- node makes the node index its array of buffers past the end.
  pub process_chunk_foreign_priority :
      (n sid p : ℕ) (payload : Bytes) (out : List P)
      → n ≤ p
      → p < 16
      → length payload < 2 ^ 16
      → process_chunk des closes (new_account n sid) (encode p payload) out ≡ fails undefined
  unfolding process_chunk frame_loop read_frame append_chunk
  process_chunk_foreign_priority n sid p payload out np h l =
      let acc : Account = append_chunk (new_account n sid) (encode p payload) in
      let whole : parse (encode p payload) ≡ done (some (frame_of p payload)) =
        ap parse (sym (append-nil (encode p payload))) ∙ parse_frame p payload [] h l in
      rw
        (
          whole,
          foreign_frame acc (frame_of p payload)
              (rw (priority-frame_of p payload h) (get_elem?-replicate_ge n p [] np)),
        )
        refl
