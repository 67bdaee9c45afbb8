-- ===== src/P2p/Delivery/Input/Messages.antt =====
-- The packets of a message deliver the message.
use net_lib.P2p.Delivery.{Engine, Reader}
use net_lib.P2p.Delivery.Input.{type_of, deliver, complete}
use net_lib.P2p.Delivery.Input.Stream.{IsInput, appended, accepted, feed}
use net_lib.P2p.Packet.{
  PacketType, Packet, packet_value, is_valid, regular, hello, file_credentials, file_request,
  file_stop, file_begin, file_chunk, file_end, file_state,
}
use net_lib.P2p.Packet.Parts.{content, contents, IsPart, Numbered}
use net_lib.P2p.Serializer.{Archive}
use net_lib.Prelude.{
  ℕ, suc, ◌^◌, ◌≤◌, ◌<◌, ◌≡◌, ◌≢◌, refl, sym, ap, ◌∙◌, arith, List, [], ◌∷◌, ◌++◌, append_assoc,
  append-nil, true, false, some, ◌==◌, if◌then◌else◌, Bytes, All,
}

type_of-packet_value : (t : PacketType) → type_of (packet_value t) ≡ some t
unfolding packet_value
type_of-packet_value regular = refl
type_of-packet_value hello = refl
type_of-packet_value file_credentials = refl
type_of-packet_value file_request = refl
type_of-packet_value file_stop = refl
type_of-packet_value file_begin = refl
type_of-packet_value file_chunk = refl
type_of-packet_value file_end = refl
type_of-packet_value file_state = refl

Numbered-lt : (i n : ℕ) (p : Packet) (ps : List Packet) → Numbered i n (p ∷ ps) → i ≤ n
Numbered-lt i n p [] (e, f) = omega arith
Numbered-lt i n p (q ∷ qs) (e, f) = omega (arith, Numbered-lt (suc i) n q qs f)

module _ (a : Archive) (packet_size : ℕ) (e : Engine) (socket from : ℕ) (t : PacketType)
    (n : ℕ) where
  abbrev begun : ℕ → Reader → Bytes
  begun i r = if i == 1 then [] else r.b

  complete_lem :
      (r : Reader) (p : Packet)
      → type_of p.packettype ≡ some t
      → complete a packet_size e socket r p ≡ deliver a packet_size e socket r t p.addresser
  unfolding complete
  complete_lem r p h = rw (h, complete) refl

  accepted_last :
      (i : ℕ) (p : Packet) (r : Reader)
      → IsPart from t packet_size n p
      → p.partindex ≡ i
      → i ≡ n
      → accepted a packet_size e socket r p
        ≡ deliver a packet_size e socket (record r { b = begun i r ++ content p }) t from
  accepted_last i p r part index last =
      let whole : (p.partindex == p.partcount) ≡ true = ground (arith, part.count_ok) in
      let known : type_of p.packettype ≡ some t = rw part.type_ok (type_of-packet_value t) in
      let b : appended a packet_size r p ≡ record r { b = begun i r ++ content p } =
        ap (λ j. record r { b = (if j == 1 then [] else r.b) ++ content p }) index in
      rw whole (
        complete_lem (appended a packet_size r p) p known
        ∙ ap (λ f. deliver a packet_size e socket (appended a packet_size r p) t f) part.from_ok
        ∙ ap (λ x. deliver a packet_size e socket x t from) b)

  accepted_part :
      (i : ℕ) (p : Packet) (r : Reader)
      → IsPart from t packet_size n p
      → p.partindex ≡ i
      → i < n
      → accepted a packet_size e socket r p ≡ (record r { b = begun i r ++ content p }, [])
  accepted_part i p r part index lt =
      let open_part : (p.partindex == p.partcount) ≡ false = ground (arith, part.count_ok) in
      rw (open_part, index) refl

  feed_part :
      (r r' : Reader) (p : Packet) (ps : List Packet)
      → accepted a packet_size e socket r p ≡ (r', [])
      → feed a packet_size e socket r (p ∷ ps) ≡ feed a packet_size e socket r' ps
  feed_part r r' p ps h = rw h refl

  feed_from :
      (i : ℕ) (p : Packet) (ps : List Packet) (r : Reader)
      → All (IsPart from t packet_size n) (p ∷ ps)
      → Numbered i n (p ∷ ps)
      → 0 < i
      → feed a packet_size e socket r (p ∷ ps)
        ≡ deliver a packet_size e socket (record r { b = begun i r ++ contents (p ∷ ps) }) t from
  feed_from i p [] r (part, _) (index, last) pos =
      let s = accepted a packet_size e socket r p in
      ap (λ l. (s.0, l)) (append-nil s.1)
      ∙ accepted_last i p r part index (omega arith)
      ∙ ap (λ c. deliver a packet_size e socket (record r { b = begun i r ++ c }) t from)
          (sym (append-nil (content p)))
  feed_from i p (q ∷ qs) r (part, parts) (index, later) pos =
      let lt : suc i ≤ n = Numbered-lt (suc i) n q qs later in
      let next : (suc i == 1) ≡ false = ground arith in
      let r' : Reader = record r { b = begun i r ++ content p } in
      let h = feed_from (suc i) q qs r' parts later (omega arith) in
      feed_part r r' p (q ∷ qs) (accepted_part i p r part index lt)
      ∙ h
      ∙ rw next (
          ap (λ c. deliver a packet_size e socket (record r { b = c }) t from)
            (append_assoc (begun i r) (content p) (contents (q ∷ qs))))

  -- The packets of a message that is not empty are taken as the message, whatever the reader had
  -- collected before.
  pub feed_message :
      (ps : List Packet) (xs : Bytes) (r : Reader)
      → All (IsPart from t packet_size n) ps
      → Numbered 1 n ps
      → contents ps ≡ xs
      → xs ≢ []
      → feed a packet_size e socket r ps
        ≡ deliver a packet_size e socket (record r { b = xs }) t from
  feed_message [] xs r parts numbered c ne = absurd (ne (sym c))
  feed_message (p ∷ ps) xs r parts numbered c ne =
      rw c at (feed_from 1 p ps r parts numbered (omega arith))

valid_type : (t : PacketType) → is_valid (packet_value t) ≡ true
unfolding is_valid packet_value
valid_type regular = refl
valid_type hello = refl
valid_type file_credentials = refl
valid_type file_request = refl
valid_type file_stop = refl
valid_type file_begin = refl
valid_type file_chunk = refl
valid_type file_end = refl
valid_type file_state = refl

small_type : (t : PacketType) → packet_value t < 256
unfolding packet_value
small_type regular = omega arith
small_type hello = omega arith
small_type file_credentials = omega arith
small_type file_request = omega arith
small_type file_stop = omega arith
small_type file_begin = omega arith
small_type file_chunk = omega arith
small_type file_end = omega arith
small_type file_state = omega arith

-- The packets of a message are input, when its sender's identifier fits.
pub IsPart-IsInput :
    (a : Archive) (packet_size from : ℕ) (t : PacketType) (i n : ℕ) (ps : List Packet)
    → from < 256 ^ 16
    → n < 2 ^ 32
    → packet_size < 2 ^ 16
    → All (IsPart from t packet_size n) ps
    → Numbered i n ps
    → All (IsInput a packet_size) ps
IsPart-IsInput a packet_size from t i n [] fits count small parts numbered = tt
IsPart-IsInput a packet_size from t i n (p ∷ ps) fits count small (part, parts) numbered =
    let le : i ≤ n = Numbered-lt i n p ps numbered in
    (
      record {
        packed = record {
          type_fits = rw part.type_ok (small_type t);
          size_ok = part.size_ok;
          addresser_fits = rw part.from_ok fits;
          payloadsize_fits = omega (arith, part.payload_fits);
          count_fits = rw part.count_ok count;
          index_fits = rw numbered.0 (omega arith);
          payload_full = part.payload_full;
        };
        valid = rw part.type_ok (valid_type t);
        payload_fits = part.payload_fits;
      },
      IsPart-IsInput a packet_size from t (suc i) n ps fits count small parts numbered.1,
    )
