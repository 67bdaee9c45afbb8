-- ===== src/P2p/ReliableDelivery/Acknowledgement.antt =====
-- What is enqueued is acknowledged, and a gap is not asked for: two engines with a queue between them.
use net_lib.P2p.ReliableDelivery.{
  payload, ack, nack, again, report, envelope_value, next, Contents, PersistentStorage, Reliable,
  Envelope, EnvelopeType, header, read_envelope, check_eid_sequence, enqueue, enqueue_ack,
  enqueue_again, process_payload, process_envelope, process_data_received,
}
use net_lib.P2p.ReliableDelivery.Deliveries.{Advanced}
use net_lib.P2p.ReliableDelivery.Order.{payload-next, check-cases}
use net_lib.P2p.Serializer.{Archive}
use net_lib.Prelude.{
  ℕ, suc, ◌^◌, ◌<◌, ◌≡◌, refl, sym, ap, ◌∙◌, arith, List, [], ◌∷◌, ◌++◌, append_assoc, append-nil,
  Bool, true, Bytes, some, inl, inr,
}

abbrev pub Link : Type 0
Link = List (ℕ × Bytes)

-- A queue of messages, by their addressee.
abbrev pub send_link : Link → ℕ → Bytes → Link × Bool
send_link q addressee bytes = (q ++ (addressee, bytes) ∷ [], true)

value_small : (t : EnvelopeType) → envelope_value t < 256
unfolding envelope_value
value_small payload = omega arith
value_small ack = omega arith
value_small nack = omega arith
value_small again = omega arith
value_small report = omega arith

module _ (a : Archive) (c : Contents) where
  pub read-header :
      (t : EnvelopeType) (eid : ℕ) (rest : Bytes)
      → eid < 2 ^ 64
      → ◌≡◌ {A = Envelope}
          (read_envelope a c (header a t eid ++ rest))
          (record { etype = envelope_value t; eid = eid; contents = c.get_vector rest })
  unfolding read_envelope header
  read-header t eid rest lt =
      let small : envelope_value t < 256 ^ 1 = value_small t in
      let type_read : a.get 1 (a.put 1 (envelope_value t) ++ (a.put 8 eid ++ rest))
          ≡ (envelope_value t, a.put 8 eid ++ rest) =
        a.get-put 1 (envelope_value t) (a.put 8 eid ++ rest) small in
      let eid_read : a.get 8 (a.put 8 eid ++ rest) ≡ (eid, rest) =
        a.get-put 8 eid rest (omega arith) in
      rw (append_assoc (a.put 1 (envelope_value t)) (a.put 8 eid) rest, type_read, eid_read) refl

  read-bare :
      (t : EnvelopeType) (eid : ℕ)
      → eid < 2 ^ 64
      → ◌≡◌ {A = Envelope}
          (read_envelope a c (header a t eid))
          (record { etype = envelope_value t; eid = eid; contents = c.get_vector [] })
  read-bare t eid lt =
      ap (read_envelope a c) (sym (append-nil (header a t eid))) ∙ read-header t eid [] lt

module _ {E S : Type 0} (a : Archive) (c : Contents) (send : E → ℕ → Bytes → E × Bool)
    (st : PersistentStorage S) where
  pub receive_payload :
      (r : Reliable E S) (p eid : ℕ) (bytes rest : Bytes)
      → eid < 2 ^ 64
      → c.get_vector rest ≡ bytes
      → process_data_received a c send st r p (header a payload eid ++ rest)
        ≡ process_payload a c send st r p bytes (check_eid_sequence a c send st r.storage p eid)
  unfolding process_data_received process_envelope envelope_value
  receive_payload r p eid bytes rest lt e = rw (read-header a c payload eid rest lt) (rw e refl)

  check-next :
      (s : S) (p eid : ℕ)
      → eid ≡ suc (st.recent_eid s p)
      → eid < 2 ^ 64
      → check_eid_sequence a c send st s p eid ≡ (ack, eid)
  unfolding next
  check-next s p eid e lt = elim (check-cases a c send st s p eid) [
    | inl (f, _) ↦ f
    | inr (inl (_, _, f)) ↦ absurd (omega arith)
    | inr (inr (_, f, _)) ↦ absurd (f (omega arith))
  ]

  pub receive_next :
      (sent : ℕ → Bytes) (r : Reliable E S) (p eid : ℕ) (bytes rest : Bytes)
      → (enqueue_ack a c send st r.engine p eid).1 ≡ true
      → eid ≡ suc (st.recent_eid r.storage p)
      → eid < 2 ^ 64
      → c.get_vector rest ≡ bytes
      → bytes ≡ sent eid
      → Advanced st p sent 1 r
          (process_data_received a c send st r p (header a payload eid ++ rest))
  receive_next sent r p eid bytes rest ok e lt get same =
      rw (receive_payload r p eid bytes rest lt get, check-next r.storage p eid e lt)
        (payload-next a c send st p sent r bytes eid ok e lt same)

  enqueue-saved :
      (r : Reliable E S) (p eid : ℕ) (bytes : Bytes)
      → (st.save r.storage p bytes).1 ≡ some eid
      → (enqueue a c send st r p bytes).0 ≡ record r {
        engine = (send r.engine p (header a payload eid ++ c.put_pair bytes)).0;
        storage = (st.save r.storage p bytes).0;
      }
  unfolding enqueue
  enqueue-saved r p eid bytes e = rw (enqueue, e) refl

module _ {S T : Type 0} (a : Archive) (c : Contents) (st : PersistentStorage S)
    (st' : PersistentStorage T) where
  -- A message that the storage saves under the number after the recent one of its receiver, below
  -- 2 ^ 64, is queued as one envelope; when the receiver gets it, it gives the message to its
  -- user, advances its recent number by one and queues one answer; and when the sender gets that
  -- answer, its storage acknowledges the number.
  pub enqueue-acknowledged :
      (sent : ℕ → Bytes) (r : Reliable Link S) (t : Reliable Link T) (me them : ℕ) (bytes : Bytes)
      (eid : ℕ)
      → (st.save r.storage them bytes).1 ≡ some eid
      → eid ≡ suc (st'.recent_eid t.storage me)
      → eid < 2 ^ 64
      → bytes ≡ sent eid
      → let r' = (enqueue a c send_link st r them bytes).0 in
        (envelope : Bytes) × (answer : Bytes) × (r'.engine ≡ r.engine ++ (them, envelope) ∷ [])
        × (let t' = process_data_received a c send_link st' t me envelope in
            (t'.engine ≡ t.engine ++ (me, answer) ∷ []) × Advanced st' me sent 1 t t')
        × ((process_data_received a c send_link st r' them answer).storage
            ≡ st.on_ack (st.save r.storage them bytes).0 them eid)
  unfolding enqueue_ack process_data_received process_envelope process_payload envelope_value
  enqueue-acknowledged sent r t me them bytes eid saved e lt same =
      let out = enqueue-saved a c send_link st r them eid bytes saved in
      let next_one = check-next a c send_link st' t.storage me eid e lt in
      let got =
        receive_payload a c send_link st' t me eid bytes (c.put_pair bytes) lt (c.get-pair bytes) in
      rw out (
        header a payload eid ++ c.put_pair bytes,
        header a ack eid,
        refl,
        (
          rw (got, next_one) refl,
          receive_next a c send_link st' sent t me eid bytes (c.put_pair bytes) refl e lt
              (c.get-pair bytes) same,
        ),
        rw (read-bare a c ack eid lt) refl,
      )

  -- A payload whose number, below 2 ^ 64, is larger than the next one is not given to the user
  -- and changes no number; the receiver queues one answer, a nack of its recent number; and when
  -- the sender gets that answer, it queues nothing, its user is told nothing, and its storage is
  -- told only that the recent number had come: the missing payloads are not asked for.
  pub gap_lem :
      (r : Reliable Link S) (t : Reliable Link T) (me them eid : ℕ) (bytes : Bytes)
      → suc (st'.recent_eid t.storage me) < eid
      → eid < 2 ^ 64
      → let recent = st'.recent_eid t.storage me in
        (process_data_received a c send_link st' t me (header a payload eid ++ c.put_pair bytes)
          ≡ record t { engine = t.engine ++ (me, header a nack recent) ∷ [] })
        × (process_data_received a c send_link st r them (header a nack recent)
            ≡ record r { storage = st.on_nack r.storage them recent })
  unfolding process_data_received process_envelope process_payload envelope_value enqueue_again next
  gap_lem r t me them eid bytes gap lt =
      let recent = st'.recent_eid t.storage me in
      let first = read-header a c payload eid (c.put_pair bytes) lt in
      let second = read-bare a c nack recent (omega arith) in
      (
        rw first (elim (check-cases a c send_link st' t.storage me eid) [
          | inl (_, now) ↦ absurd (omega (arith, now))
          | inr (inl (_, _, old)) ↦ absurd (omega arith)
          | inr (inr (e, _, _)) ↦ rw e refl
        ]),
        rw second refl,
      )
