-- ===== src/P2p/ReliableDelivery/Order.antt =====
-- Envelopes of a peer are accepted once each, in the order of their numbers.
use net_lib.P2p.ReliableDelivery.Deliveries.{
  Advanced, Advanced-add, ComesFrom, Unchanged, Unchanged-Advanced, deliveries, deliveries-append,
  payloads,
}
use net_lib.P2p.ReliableDelivery.{
  EnvelopeType, payload, ack, nack, again, report, envelope_type, next, Contents, PersistentStorage,
  on_error, data_received, Reliable, Envelope, read_envelope, check_eid_sequence, enqueue_ack,
  process_payload, process_envelope, process_data_received, receive_all,
}
use net_lib.P2p.Serializer.{Archive}
use net_lib.Prelude.{
  ℕ, suc, ◌+◌, ◌^◌, ◌≤◌, ◌<◌, ◌≡◌, ◌≢◌, ◌⊎◌, refl, ◌∙◌, arith, List, [], ◌∷◌, ◌++◌, Bool,
  append-nil, true, false, ◌==◌, Bytes, All, inl, inr, Bool-cases, Option, none, some, leb,
}

module _ {E S : Type 0} (a : Archive) (c : Contents) (send : E → ℕ → Bytes → E × Bool)
    (st : PersistentStorage S) where
  -- An envelope is the next one, or an old one, or one that comes too early.
  pub check-cases :
      (s : S) (p eid : ℕ)
      → let recent = st.recent_eid s p in
        ((check_eid_sequence a c send st s p eid ≡ (ack, eid)) × (eid ≡ next recent))
        ⊎ ((check_eid_sequence a c send st s p eid ≡ (nack, eid))
            × (eid ≢ next recent)
            × (eid ≤ recent))
        ⊎ ((check_eid_sequence a c send st s p eid ≡ (again, recent))
            × (eid ≢ next recent)
            × (recent < eid))
  unfolding check_eid_sequence
  check-cases s p eid = elim (Bool-cases (eid == next (st.recent_eid s p))) [
    | inl now ↦ inl (rw now refl, ground arith)
    | inr later ↦
        let other : eid ≢ next (st.recent_eid s p) = ground arith in
        elim (Bool-cases (leb eid (st.recent_eid s p))) [
          | inl old ↦ inr (inl (rw (later, old) refl, other, ground arith))
          | inr early ↦ inr (inr (rw (later, early) refl, other, ground arith))
        ]
  ]

  -- A payload of another peer.
  payload-other :
      (p q : ℕ) (r : Reliable E S) (bytes : Bytes) (eid : ℕ)
      → q ≢ p
      → Unchanged st p r
          (process_payload a c send st r q bytes (check_eid_sequence a c send st r.storage q eid))
  unfolding process_payload deliveries
  payload-other p q r bytes eid ne =
      let apart : (q == p) ≡ false = ground arith in
      elim (check-cases r.storage q eid) [
        | inl (e, _) ↦ rw e (elim (Bool-cases (enqueue_ack a c send st r.engine q eid).1) [
          | inl ok ↦ rw ok (
            st.recent-set r.storage q eid p ∙ rw apart refl,
            deliveries-append p r.events _ ∙ rw apart (append-nil (deliveries p r.events)),
          )
          | inr failed ↦ rw failed (refl, refl)
        ])
        | inr (inl (e, _, _)) ↦ rw e (refl, refl)
        | inr (inr (e, _, _)) ↦ rw e (refl, refl)
      ]

  -- The next payload is taken, if its acknowledgement goes out.
  pub payload-next :
      (p : ℕ) (sent : ℕ → Bytes) (r : Reliable E S) (bytes : Bytes) (eid : ℕ)
      → (enqueue_ack a c send st r.engine p eid).1 ≡ true
      → eid ≡ suc (st.recent_eid r.storage p)
      → eid < 2 ^ 64
      → bytes ≡ sent eid
      → Advanced st p sent 1 r (process_payload a c send st r p bytes (ack, eid))
  unfolding process_payload deliveries payloads
  payload-next p sent r bytes eid ok e lt same =
      let this : (p == p) ≡ true = ground arith in
      let set : st.recent_eid (st.set_recent_eid r.storage p eid) p ≡ eid =
        st.recent-set r.storage p eid p ∙ rw this refl in
      rw ok (
        omega (arith, set, e),
        omega (arith, set, lt),
        deliveries-append p r.events _ ∙ rw (this, same, e) refl,
      )

  pub payload-old :
      (p : ℕ) (sent : ℕ → Bytes) (r : Reliable E S) (bytes : Bytes) (eid : ℕ)
      → st.recent_eid r.storage p < 2 ^ 64
      → 0 < eid
      → eid ≢ suc (st.recent_eid r.storage p)
      → Advanced st p sent 0 r
          (process_payload a c send st r p bytes (check_eid_sequence a c send st r.storage p eid))
  unfolding process_payload next
  payload-old p sent r bytes eid lt positive ne = elim (check-cases r.storage p eid) [
    | inl (e, now) ↦ absurd (ne (omega (arith, now)))
    | inr (inl (e, _, _)) ↦ rw e (Unchanged-Advanced st p sent r r lt (refl, refl))
    | inr (inr (e, _, _)) ↦ rw e (Unchanged-Advanced st p sent r r lt (refl, refl))
  ]

  payload_step :
      (p : ℕ) (sent : ℕ → Bytes) (r : Reliable E S) (bytes : Bytes) (eid : ℕ)
      → st.recent_eid r.storage p < 2 ^ 64
      → 0 < eid
      → bytes ≡ sent eid
      → (k : ℕ) × Advanced st p sent k r
          (process_payload a c send st r p bytes (check_eid_sequence a c send st r.storage p eid))
  unfolding process_payload next
  payload_step p sent r bytes eid lt positive same = elim (check-cases r.storage p eid) [
    | inl (e, now) ↦ rw e (elim (Bool-cases (enqueue_ack a c send st r.engine p eid).1) [
      | inl ok ↦
          (1, payload-next p sent r bytes eid ok (omega (arith, now)) (omega (arith, now)) same)
      | inr failed ↦ rw failed (0, Unchanged-Advanced st p sent r r lt (refl, refl))
    ])
    | inr (inl (e, _, _)) ↦ rw e (0, Unchanged-Advanced st p sent r r lt (refl, refl))
    | inr (inr (e, _, _)) ↦ rw e (0, Unchanged-Advanced st p sent r r lt (refl, refl))
  ]

  envelope_step :
      (p q : ℕ) (sent : ℕ → Bytes) (r : Reliable E S) (h : Envelope) (t : Option EnvelopeType)
      → st.recent_eid r.storage p < 2 ^ 64
      → (q ≡ p → t ≡ some payload → (0 < h.eid) × (h.contents ≡ sent h.eid))
      → (q ≡ p → t ≢ some report)
      → (k : ℕ) × Advanced st p sent k r (process_envelope a c send st r q h t)
  unfolding process_envelope deliveries
  envelope_step p q sent r h (some payload) lt ok no_report = elim (Bool-cases (q == p)) [
    | inl same ↦
        let e : q ≡ p = ground arith in
        let (positive, contents) = ok e refl in
        rw e (payload_step p sent r h.contents h.eid lt positive contents)
    | inr apart ↦ (
      0,
      Unchanged-Advanced st p sent r (process_envelope a c send st r q h (some payload)) lt
          (payload-other p q r h.contents h.eid (ground arith)),
    )
  ]
  envelope_step p q sent r h (some ack) lt ok no_report = (
    0,
    Unchanged-Advanced st p sent r (process_envelope a c send st r q h (some ack)) lt
        (st.recent-ack r.storage q h.eid p, refl),
  )
  envelope_step p q sent r h (some nack) lt ok no_report = (
    0,
    Unchanged-Advanced st p sent r (process_envelope a c send st r q h (some nack)) lt
        (st.recent-nack r.storage q h.eid p, refl),
  )
  envelope_step p q sent r h (some again) lt ok no_report =
      (0, Unchanged-Advanced st p sent r r lt (refl, refl))
  envelope_step p q sent r h (some report) lt ok no_report = elim (Bool-cases (q == p)) [
    | inl same ↦ absurd (no_report (ground arith) refl)
    | inr apart ↦
        let d : deliveries p (r.events ++ data_received q h.contents ∷ []) ≡ deliveries p r.events =
          deliveries-append p r.events _ ∙ rw apart (append-nil (deliveries p r.events)) in
        (
          0,
          Unchanged-Advanced st p sent r (process_envelope a c send st r q h (some report)) lt
              (refl, d),
        )
  ]
  envelope_step p q sent r h none lt ok no_report =
      let d : deliveries p (r.events ++ on_error ∷ []) ≡ deliveries p r.events =
        deliveries-append p r.events _ ∙ append-nil (deliveries p r.events) in
      (0, Unchanged-Advanced st p sent r (process_envelope a c send st r q h none) lt (refl, d))

  -- For a peer whose recent number is below 2 ^ 64, and any envelopes of any peers in any order,
  -- repeated or missing, of which those of this peer are no reports and its payloads have
  -- positive numbers, each number standing for one payload: the user is given the payloads of the
  -- peer that follow the recent number, consecutively, each once and in the order of their
  -- numbers, and the recent number advances by just as many.
  pub receive_all-deliveries :
      (p : ℕ) (sent : ℕ → Bytes) (r : Reliable E S) (messages : List (ℕ × Bytes))
      → st.recent_eid r.storage p < 2 ^ 64
      → All (ComesFrom a c p sent) messages
      → (k : ℕ) × Advanced st p sent k r (receive_all a c send st r messages)
  unfolding receive_all process_data_received
  receive_all-deliveries p sent r [] lt ok = (0, Unchanged-Advanced st p sent r r lt (refl, refl))
  receive_all-deliveries p sent r ((q, bytes) ∷ m) lt (first, ok) =
      let h = read_envelope a c bytes in
      let (j, step) =
        envelope_step p q sent r h (envelope_type h.etype) lt
          (λ e t. (first e).1 (ground (arith, t))) (λ e t. (first e).0 (ground (arith, t))) in
      let s = process_data_received a c send st r q bytes in
      let (k, rest) = receive_all-deliveries p sent s m step.1 ok in
      (j + k, Advanced-add st p sent j k r s (receive_all a c send st s m) step rest)
