-- ===== src/P2p/ReliableDelivery/Tests.antt =====
-- A storage for one addressee, and envelopes that come twice, too early and from others.
use net_lib.P2p.ReliableDelivery.{
  payload, ack, nack, report, process_envelope, read_envelope, process_payload, check_eid_sequence,
  next, enqueue_ack, envelope_value, Contents, PersistentStorage, Reliable, header, EnvelopeType,
  process_channel_established, receive_all, process_data_received, enqueue, data_received,
}
use net_lib.P2p.ReliableDelivery.Deliveries.{Advanced, ComesFrom, deliveries}
use net_lib.P2p.ReliableDelivery.Order.{receive_all-deliveries}
use net_lib.P2p.ReliableDelivery.Acknowledgement.{
  Link, send_link, read-header, enqueue-acknowledged, gap_lem,
}
use net_lib.P2p.ReliableDelivery.Retransmission.{numbered, arrivals, channel_established-deliveries}
use net_lib.P2p.Serializer.LittleEndian.{little_endian}
use net_lib.Prelude.Dict.{find, erase}
use net_lib.Prelude.OrderedMap.{put, find-put}
use net_lib.Prelude.{
  ℕ, ◌+◌, ◌≡◌, ◌<◌, ◌^◌, ◌==◌, if◌then◌else◌, refl, ap, ◌∙◌, arith, List, [], ◌∷◌, ◌++◌, Option,
  none, some, Bytes, Bool-cases, inl, inr,
}

abbrev contents : Contents
contents = record {
  put_pair = λ s. s;
  put_string = λ s. s;
  get_vector = λ s. s;
  get-pair = λ s. refl;
  get-string = λ s. refl;
}

pub record Store : Type 0 where
  pub saved : List (ℕ × Bytes)
  pub last : ℕ
  pub recent : List (ℕ × ℕ)

abbrev or_initial : Option ℕ → ℕ
or_initial none = 0
or_initial (some eid) = eid

recent-set :
    (s : Store) (p eid q : ℕ)
    → or_initial (find q (put p eid s.recent))
      ≡ (if p == q then eid else or_initial (find q s.recent))
recent-set s p eid q =
    ap or_initial (find-put p q eid s.recent)
    ∙ (elim (Bool-cases (p == q)) [ inl same ↦ rw same refl | inr other ↦ rw other refl ])

unfoldable store : PersistentStorage Store
store = record {
  save = λ s p bytes. (
    record s { saved = s.saved ++ (s.last + 1, bytes) ∷ []; last = s.last + 1 },
    some (s.last + 1),
  );
  recent_eid = λ s p. or_initial (find p s.recent);
  set_recent_eid = λ s p eid. record s { recent = put p eid s.recent };
  on_ack = λ s p eid. record s { saved = erase eid s.saved };
  on_nack = λ s p eid. record s { saved = erase eid s.saved };
  on_again = λ s eid p. s.saved;
  unacked = λ s p. s.saved;
  maintain = λ s p. s;
  meet_peer = λ s p. s;
  spend_peer = λ s p. s;
  recent-set = recent-set;
  recent-ack = λ s p eid q. refl;
  recent-nack = λ s p eid q. refl;
}

abbrev sent : ℕ → Bytes
sent eid = eid ∷ 100 ∷ []

abbrev envelope : EnvelopeType → ℕ → Bytes → Bytes
envelope t eid bytes = header little_endian t eid ++ bytes

abbrev nothing_yet : Reliable Link Store
nothing_yet = record {
  engine = [];
  storage = record { saved = []; last = 0; recent = [] };
  events = [];
}

-- From peer 3, number 1, number 3, number 1 again, an acknowledgement, and number 2; a report
-- of peer 4 between.
abbrev messages : Link
messages =
    (3, envelope payload 1 (sent 1))
    ∷ (3, envelope payload 3 (sent 3))
    ∷ (3, envelope payload 1 (sent 1))
    ∷ (3, envelope ack 7 [])
    ∷ (4, envelope report 0 (sent 9))
    ∷ (3, envelope payload 2 (sent 2))
    ∷ []

messages-test :
    deliveries 3 (receive_all little_endian contents send_link store nothing_yet messages).events
    ≡ sent 1 ∷ sent 2 ∷ []
unfolding deliveries receive_all store find put little_endian process_data_received process_envelope
    read_envelope header envelope_value process_payload check_eid_sequence next enqueue_ack
messages-test = refl

payload_comes :
    (eid : ℕ)
    → eid < 2 ^ 64
    → 0 < eid
    → ComesFrom little_endian contents 3 sent (3, envelope payload eid (sent eid))
unfolding envelope_value
payload_comes eid lt positive e =
    rw (read-header little_endian contents payload eid (sent eid) lt)
      ((λ f. absurd (omega arith)), λ f. (positive, refl))

ack_comes :
    (eid : ℕ) → eid < 2 ^ 64 → ComesFrom little_endian contents 3 sent (3, envelope ack eid [])
unfolding envelope_value
ack_comes eid lt e =
    rw (read-header little_endian contents ack eid [] lt)
      ((λ f. absurd (omega arith)), λ f. absurd (omega arith))

receive_all-deliveries_example :
    (k : ℕ) × Advanced store 3 sent k nothing_yet
      (receive_all little_endian contents send_link store nothing_yet messages)
unfolding store find
receive_all-deliveries_example =
    receive_all-deliveries little_endian contents send_link store 3 sent nothing_yet messages
      (omega arith)
      (
        payload_comes 1 (omega arith) (omega arith),
        (
          payload_comes 3 (omega arith) (omega arith),
          (
            payload_comes 1 (omega arith) (omega arith),
            (
              ack_comes 7 (omega arith),
              ((λ e. absurd (omega arith)), (payload_comes 2 (omega arith) (omega arith), tt)),
            ),
          ),
        ),
      )

enqueue-acknowledged_example :
    let r' = (enqueue little_endian contents send_link store nothing_yet 2 (sent 1)).0 in
    (out : Bytes) × (answer : Bytes) × (r'.engine ≡ (2, out) ∷ [])
    × (let t' = process_data_received little_endian contents send_link store nothing_yet 1 out in
        (t'.engine ≡ (1, answer) ∷ []) × Advanced store 1 sent 1 nothing_yet t')
    × ((process_data_received little_endian contents send_link store r' 2 answer).storage
        ≡ store.on_ack (store.save nothing_yet.storage 2 (sent 1)).0 2 1)
unfolding store find
enqueue-acknowledged_example =
    enqueue-acknowledged little_endian contents store store sent nothing_yet nothing_yet 1 2
      (sent 1) 1 refl refl (omega arith) refl

gap_lem_example :
    (process_data_received little_endian contents send_link store nothing_yet 1
        (header little_endian payload 3 ++ sent 3)
      ≡ record nothing_yet { engine = (1, header little_endian nack 0) ∷ [] })
    × (process_data_received little_endian contents send_link store nothing_yet 2
          (header little_endian nack 0)
        ≡ record nothing_yet { storage = store.on_nack nothing_yet.storage 2 0 })
unfolding store find
gap_lem_example =
    gap_lem little_endian contents store store nothing_yet nothing_yet 1 2 3 (sent 3) (omega arith)
      (omega arith)

-- Three envelopes wait, of which the receiver had the first.
abbrev waiting : Reliable Link Store
waiting = record {
  engine = [];
  storage = record { saved = numbered sent 1 3; last = 3; recent = [] };
  events = [];
}

abbrev had_one : Reliable Link Store
had_one = record {
  engine = [];
  storage = record { saved = []; last = 0; recent = (1, 1) ∷ [] };
  events = data_received 1 (sent 1) ∷ [];
}

channel_established-deliveries_example : Advanced store 1 sent 2 had_one (
    receive_all little_endian contents send_link store had_one (
      arrivals 1
        (process_channel_established little_endian contents send_link store waiting 2).engine))
unfolding store find
channel_established-deliveries_example =
    channel_established-deliveries little_endian contents send_link store store sent 1 2 1 3 2
      waiting had_one (λ e bytes. refl) refl refl (omega arith) (omega arith) (omega arith)
      (omega arith)
