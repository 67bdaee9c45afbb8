-- ===== src/P2p/ReliableDelivery/Retransmission.antt =====
-- What was not acknowledged is sent again when a channel is established.
use net_lib.P2p.ReliableDelivery.{
  payload, ack, Contents, PersistentStorage, Reliable, header, enqueue_ack, enqueue_payload_again,
  resend, process_data_received, process_channel_established, receive_all,
}
use net_lib.P2p.ReliableDelivery.Deliveries.{Advanced, Advanced-add, Unchanged-Advanced}
use net_lib.P2p.ReliableDelivery.Order.{payload-old}
use net_lib.P2p.Serializer.{Archive}
use net_lib.Prelude.{
  ℕ, zero, suc, ◌+◌, ◌^◌, ◌≤◌, ◌<◌, ◌≡◌, ◌≢◌, refl, sym, ◌∙◌, arith, List, [], ◌∷◌, ◌++◌,
  append_assoc, append-nil, Bool, true, Bytes, inl, inr, Bool-cases, ◌==◌,
}
use net_lib.P2p.ReliableDelivery.Acknowledgement.{Link, send_link, receive_payload, receive_next}

-- The messages of a queue, as they come from a peer.
unfoldable pub arrivals : ℕ → Link → Link
arrivals addresser [] = []
arrivals addresser ((_, bytes) ∷ m) = (addresser, bytes) ∷ arrivals addresser m

-- The payloads from number `lo` on, with their numbers.
unfoldable pub numbered : (ℕ → Bytes) → (lo k : ℕ) → List (ℕ × Bytes)
numbered sent lo zero = []
numbered sent lo (suc k) = (lo, sent lo) ∷ numbered sent (suc lo) k

module _ {S E T : Type 0} (a : Archive) (c : Contents) (send : E → ℕ → Bytes → E × Bool)
    (st : PersistentStorage S) (st' : PersistentStorage T) where
  outgoing : ℕ → List (ℕ × Bytes) → Link
  outgoing them [] = []
  outgoing them ((eid, bytes) ∷ m) =
      (them, header a payload eid ++ c.put_string bytes) ∷ outgoing them m

  resend-outgoing :
      (q : Link) (them : ℕ) (m : List (ℕ × Bytes))
      → resend a c send_link st q them m ≡ q ++ outgoing them m
  unfolding resend outgoing enqueue_payload_again
  resend-outgoing q them [] = sym (append-nil q)
  resend-outgoing q them ((eid, bytes) ∷ m) =
      resend-outgoing (q ++ (them, header a payload eid ++ c.put_string bytes) ∷ []) them m
      ∙ append_assoc q _ (outgoing them m)

  receive_numbered :
      (sent : ℕ → Bytes) (me them lo k n : ℕ) (t : Reliable E T)
      → ((e : E) (bytes : Bytes) → (send e me bytes).1 ≡ true)
      → 0 < lo
      → lo ≤ suc (st'.recent_eid t.storage me)
      → lo + k ≡ suc (st'.recent_eid t.storage me) + n
      → lo + k ≤ 2 ^ 64
      → Advanced st' me sent n t
          (receive_all a c send st' t (arrivals me (outgoing them (numbered sent lo k))))
  unfolding receive_all arrivals outgoing numbered enqueue_ack
  receive_numbered sent me them lo zero n t good positive old e small =
      let none_left : 0 ≡ n = omega arith in
      rw (sym none_left) (Unchanged-Advanced st' me sent t t (omega arith) (refl, refl))
  receive_numbered sent me them lo (suc k) n t good positive old e small =
      let rest = c.put_string (sent lo) in
      let t' = process_data_received a c send st' t me (header a payload lo ++ rest) in
      let m = arrivals me (outgoing them (numbered sent (suc lo) k)) in
      elim (Bool-cases (lo == suc (st'.recent_eid t.storage me))) [
        | inl same ↦
            let at_next : lo ≡ suc (st'.recent_eid t.storage me) = ground arith in
            let step =
              receive_next a c send st' sent t me lo (sent lo) rest
                (good t.engine (header a ack lo)) at_next (omega arith) (c.get-string (sent lo))
                refl in
            let more =
              receive_numbered sent me them (suc lo) k k t' good (omega arith)
                (omega (arith, step.0, at_next)) (omega (arith, step.0, at_next)) (omega arith) in
            let total : 1 + k ≡ n = omega arith in
            rw (sym total)
              (Advanced-add st' me sent 1 k t t' (receive_all a c send st' t' m) step more)
        | inr other ↦
            let ne : lo ≢ suc (st'.recent_eid t.storage me) = ground arith in
            let step : Advanced st' me sent 0 t t' =
              rw
                (receive_payload a c send st' t me lo (sent lo) rest (omega arith)
                  (c.get-string (sent lo)))
                (payload-old a c send st' me sent t (sent lo) lo (omega arith) positive ne) in
            let more =
              receive_numbered sent me them (suc lo) k n t' good (omega arith)
                (omega (arith, step.0)) (omega (arith, step.0)) (omega arith) in
            let total : 0 + n ≡ n = omega arith in
            rw (sym total)
              (Advanced-add st' me sent 0 n t t' (receive_all a c send st' t' m) step more)
      ]

  -- When a channel is established on an empty queue and the storage has the payloads of `k`
  -- positive consecutive numbers that are not acknowledged, up to below 2 ^ 64, and the receiver
  -- has had some first part of them, up to its recent number; when the acknowledgements of the
  -- receiver can be queued: what the sender queues, received in order, gives the user of the
  -- receiver exactly the payloads that it has not had, each once and in order.
  pub channel_established-deliveries :
      (sent : ℕ → Bytes) (me them lo k n : ℕ) (r : Reliable Link S) (t : Reliable E T)
      → ((e : E) (bytes : Bytes) → (send e me bytes).1 ≡ true)
      → r.engine ≡ []
      → st.unacked (st.meet_peer (st.maintain r.storage them) them) them ≡ numbered sent lo k
      → 0 < lo
      → lo ≤ suc (st'.recent_eid t.storage me)
      → lo + k ≡ suc (st'.recent_eid t.storage me) + n
      → lo + k ≤ 2 ^ 64
      → Advanced st' me sent n t (
          receive_all a c send st' t
            (arrivals me (process_channel_established a c send_link st r them).engine))
  unfolding process_channel_established
  channel_established-deliveries sent me them lo k n r t good empty unacked positive old e small =
      rw (unacked, empty, resend-outgoing [] them (numbered sent lo k))
        (receive_numbered sent me them lo k n t good positive old e small)
