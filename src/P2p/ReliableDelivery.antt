-- ===== src/P2p/ReliableDelivery.antt =====
-- include/pfs/netty/p2p/reliable_delivery_engine.hpp and simple_envelope.hpp: envelopes are numbered,
-- kept until they are acknowledged, and accepted in order. The storage, the engine below and the way
-- a vector or a string is written are arguments. Callbacks are logged, oldest first; they do
-- not call the engine back. Writing an envelope does not throw, nor does the storage, but for `save`.
pub mod Deliveries
pub mod Order
pub mod Acknowledgement
pub mod Retransmission
mod Tests
use net_lib.P2p.Serializer.{Archive}
use net_lib.Prelude.{
  ℕ, ◌+◌, ◌%◌, ◌^◌, ◌≡◌, List, [], ◌∷◌, ◌++◌, Option, none, some, Bool, true, false, leb, ◌==◌,
  if◌then◌else◌, Bytes,
}

pub data EnvelopeType : Type 0 where
  payload ack nack again report : EnvelopeType

unfoldable pub envelope_value : EnvelopeType → ℕ
envelope_value payload = 0
envelope_value ack = 1
envelope_value nack = 2
envelope_value again = 3
envelope_value report = 4

abbrev pub envelope_type : ℕ → Option EnvelopeType
envelope_type t =
    if t == 0
    then some payload
    else if t == 1
    then some ack
    else if t == 2
    then some nack
    else if t == 3
    then some again
    else if t == 4
    then some report
    else none

unfoldable pub next : ℕ → ℕ
next x = (x + 1) % 2 ^ 64

-- How the contents of an envelope are written: a pair of a pointer and a length, or a string; both are
-- read back as a vector.
pub record Contents : Type 0 where
  pub put_pair : Bytes → Bytes
  pub put_string : Bytes → Bytes
  pub get_vector : Bytes → Bytes
  pub get-pair : (s : Bytes) → get_vector (put_pair s) ≡ s
  pub get-string : (s : Bytes) → get_vector (put_string s) ≡ s

-- What the engine asks of its storage. `save` gives no identifier where it throws; `again` and `unacked`
-- give the envelopes in the order of the callback's calls. An identifier that is set is the recent
-- one of that peer, and acknowledgements do not change it.
pub record PersistentStorage (S : Type 0) : Type 0 where
  pub save : S → ℕ → Bytes → S × Option ℕ
  pub recent_eid : S → ℕ → ℕ
  pub set_recent_eid : S → (addresser eid : ℕ) → S
  pub on_ack : S → (addressee eid : ℕ) → S
  pub on_nack : S → (addressee eid : ℕ) → S
  pub on_again : S → (eid addressee : ℕ) → List (ℕ × Bytes)
  pub unacked : S → ℕ → List (ℕ × Bytes)
  pub maintain : S → ℕ → S
  pub meet_peer : S → ℕ → S
  pub spend_peer : S → ℕ → S
  pub recent-set :
      (s : S) (p eid q : ℕ)
      → recent_eid (set_recent_eid s p eid) q ≡ (if p == q then eid else recent_eid s q)
  pub recent-ack : (s : S) (p eid q : ℕ) → recent_eid (on_ack s p eid) q ≡ recent_eid s q
  pub recent-nack : (s : S) (p eid q : ℕ) → recent_eid (on_nack s p eid) q ≡ recent_eid s q

pub data Notice : Type 0 where
  on_failure on_error : Notice
  data_received : ℕ → Bytes → Notice
  channel_established channel_closed : ℕ → Notice

pub record Reliable (E S : Type 0) : Type 0 where
  pub engine : E
  pub storage : S
  pub events : List Notice

pub record Envelope : Type 0 where
  pub etype : ℕ
  pub eid : ℕ
  pub contents : Bytes

module _ (a : Archive) where
  -- The bytes of a header.
  unfoldable pub header : EnvelopeType → ℕ → Bytes
  header t eid = a.put 1 (envelope_value t) ++ a.put 8 eid

module _ (a : Archive) (c : Contents) where
  unfoldable pub read_envelope : Bytes → Envelope
  read_envelope bytes =
      let t = a.get 1 bytes in
      let i = a.get 8 t.1 in record { etype = t.0; eid = i.0; contents = c.get_vector i.1 }

module _ {E S : Type 0} (a : Archive) (c : Contents) (send : E → ℕ → Bytes → E × Bool)
    (st : PersistentStorage S) where
  unfoldable pub check_eid_sequence : S → (addresser eid : ℕ) → EnvelopeType × ℕ
  check_eid_sequence s addresser eid =
      let recent = st.recent_eid s addresser in
      if eid == next recent
      then (ack, eid)
      else if leb eid recent
      then (nack, eid)
      else (again, recent)

  unfoldable pub enqueue : Reliable E S → ℕ → Bytes → Reliable E S × Bool
  enqueue r addressee bytes =
      let saved = st.save r.storage addressee bytes in
      elim saved.1 [
        | none ↦ (record r { storage = saved.0; events = r.events ++ on_failure ∷ [] }, false)
        | some eid ↦
            let s = send r.engine addressee (header a payload eid ++ c.put_pair bytes) in
            (record r { engine = s.0; storage = saved.0 }, s.1)
      ]

  unfoldable pub enqueue_report : Reliable E S → ℕ → Bytes → Reliable E S × Bool
  enqueue_report r addressee bytes =
      let s = send r.engine addressee (header a report 0 ++ c.put_pair bytes) in
      (record r { engine = s.0 }, s.1)

  unfoldable pub enqueue_ack : E → ℕ → ℕ → E × Bool
  enqueue_ack e addressee eid = send e addressee (header a ack eid)

  unfoldable pub enqueue_nack : E → ℕ → ℕ → E × Bool
  enqueue_nack e addressee eid = send e addressee (header a nack eid)

  -- The type of the envelope is nack, as it stands in the code.
  unfoldable pub enqueue_again : E → ℕ → ℕ → E × Bool
  enqueue_again e addressee eid = send e addressee (header a nack eid)

  unfoldable pub enqueue_payload_again : E → ℕ → ℕ → Bytes → E × Bool
  enqueue_payload_again e addressee eid bytes =
      send e addressee (header a payload eid ++ c.put_string bytes)

  -- The callback's calls; what enqueue_payload_again returns is not read.
  unfoldable pub resend : E → ℕ → List (ℕ × Bytes) → E
  resend e addressee [] = e
  resend e addressee ((eid, bytes) ∷ m) =
      resend (enqueue_payload_again e addressee eid bytes).0 addressee m

  -- A payload, by what check_eid_sequence says of it.
  unfoldable pub process_payload :
      Reliable E S → (addresser : ℕ) → Bytes → EnvelopeType × ℕ → Reliable E S
  process_payload r addresser bytes (ack, eid) =
      let s = enqueue_ack r.engine addresser eid in
      if s.1
      then record {
        engine = s.0;
        storage = st.set_recent_eid r.storage addresser eid;
        events = r.events ++ data_received addresser bytes ∷ [];
      }
      else record r { engine = s.0 }
  process_payload r addresser bytes (nack, eid) = record r {
    engine = (enqueue_nack r.engine addresser eid).0;
  }
  process_payload r addresser bytes (again, eid) = record r {
    engine = (enqueue_again r.engine addresser eid).0;
  }
  process_payload r addresser bytes (_, eid) = r

  unfoldable pub process_envelope : Reliable E S → ℕ → Envelope → Option EnvelopeType → Reliable E S
  process_envelope r addresser h (some payload) =
      process_payload r addresser h.contents (check_eid_sequence r.storage addresser h.eid)
  process_envelope r addresser h (some ack) = record r {
    storage = st.on_ack r.storage addresser h.eid;
  }
  process_envelope r addresser h (some nack) = record r {
    storage = st.on_nack r.storage addresser h.eid;
  }
  process_envelope r addresser h (some again) = record r {
    engine = resend r.engine addresser (st.on_again r.storage h.eid addresser);
  }
  process_envelope r addresser h (some report) = record r {
    events = r.events ++ data_received addresser h.contents ∷ [];
  }
  process_envelope r addresser h none = record r { events = r.events ++ on_error ∷ [] }

  unfoldable pub process_data_received : Reliable E S → ℕ → Bytes → Reliable E S
  process_data_received r addresser bytes =
      let h = read_envelope a c bytes in process_envelope r addresser h (envelope_type h.etype)

  unfoldable pub process_channel_established : Reliable E S → ℕ → Reliable E S
  process_channel_established r addressee =
      let s = st.meet_peer (st.maintain r.storage addressee) addressee in
      record {
        engine = resend r.engine addressee (st.unacked s addressee);
        storage = s;
        events = r.events ++ channel_established addressee ∷ [];
      }

  unfoldable pub process_channel_closed : Reliable E S → ℕ → Reliable E S
  process_channel_closed r peerid = record r {
    storage = st.spend_peer (st.maintain r.storage peerid) peerid;
    events = r.events ++ channel_closed peerid ∷ [];
  }

  -- The engine below gives its messages one by one.
  unfoldable pub receive_all : Reliable E S → List (ℕ × Bytes) → Reliable E S
  receive_all r [] = r
  receive_all r ((addresser, bytes) ∷ m) = receive_all (process_data_received r addresser bytes) m
