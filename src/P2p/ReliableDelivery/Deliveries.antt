-- ===== src/P2p/ReliableDelivery/Deliveries.antt =====
-- What the user is given, by peer, and what two states of the engine have between them.
use net_lib.P2p.ReliableDelivery.{
  Contents, PersistentStorage, Notice, on_failure, on_error, data_received, channel_established,
  channel_closed, Reliable, Envelope, read_envelope,
}
use net_lib.P2p.Serializer.{Archive}
use net_lib.Prelude.{
  ℕ, zero, suc, ◌+◌, ◌^◌, ◌<◌, ◌≡◌, ◌≢◌, refl, sym, ap, ◌∙◌, arith, List, [], ◌∷◌, ◌++◌,
  append_assoc, append-nil, ◌==◌, if◌then◌else◌, Bytes,
}

abbrev pub received_from : ℕ → Notice → List Bytes
received_from p on_failure = []
received_from p on_error = []
received_from p (data_received q bytes) = if q == p then bytes ∷ [] else []
received_from p (channel_established q) = []
received_from p (channel_closed q) = []

-- What the user of the engine is given from a peer, oldest first.
unfoldable pub deliveries : ℕ → List Notice → List Bytes
deliveries p [] = []
deliveries p (n ∷ m) = received_from p n ++ deliveries p m

-- The payloads from number `lo` on.
unfoldable pub payloads : (ℕ → Bytes) → (lo k : ℕ) → List Bytes
payloads sent lo zero = []
payloads sent lo (suc k) = sent lo ∷ payloads sent (suc lo) k

-- An envelope of a peer whose payloads are `sent`, by number; it is no report.
abbrev IsFrom : (ℕ → Bytes) → Envelope → Type 0
IsFrom sent h = (h.etype ≢ 4) × (h.etype ≡ 0 → (0 < h.eid) × (h.contents ≡ sent h.eid))

pub deliveries-append :
    (p : ℕ) (m n : List Notice) → deliveries p (m ++ n) ≡ deliveries p m ++ deliveries p n
unfolding deliveries
deliveries-append p [] n = refl
deliveries-append p (x ∷ m) n =
    ap (λ d. received_from p x ++ d) (deliveries-append p m n)
    ∙ sym (append_assoc (received_from p x) (deliveries p m) (deliveries p n))

pub payloads-add :
    (sent : ℕ → Bytes) (lo j k : ℕ)
    → payloads sent lo j ++ payloads sent (lo + j) k ≡ payloads sent lo (j + k)
unfolding payloads
payloads-add sent lo zero k =
    let e : lo + 0 ≡ lo = omega arith in let f : 0 + k ≡ k = omega arith in rw (e, f) refl
payloads-add sent lo (suc j) k =
    let e : lo + suc j ≡ suc lo + j = omega arith in
    let f : suc j + k ≡ suc (j + k) = omega arith in
    rw (e, f) (ap (λ m. sent lo ∷ m) (payloads-add sent (suc lo) j k))

-- A message that is such an envelope, if it is of the peer.
abbrev pub ComesFrom : Archive → Contents → ℕ → (ℕ → Bytes) → ℕ × Bytes → Type 0
ComesFrom a c p sent m = m.0 ≡ p → IsFrom sent (read_envelope a c m.1)

module _ {E S : Type 0} (st : PersistentStorage S) where
  -- Between two states, `k` payloads more of a peer have come.
  abbrev pub Advanced : (p : ℕ) (sent : ℕ → Bytes) (k : ℕ) (r t : Reliable E S) → Type 0
  Advanced p sent k r t =
      (st.recent_eid t.storage p ≡ st.recent_eid r.storage p + k)
      × (st.recent_eid t.storage p < 2 ^ 64)
      × (deliveries p t.events
          ≡ deliveries p r.events ++ payloads sent (suc (st.recent_eid r.storage p)) k)

  abbrev pub Unchanged : (p : ℕ) (r t : Reliable E S) → Type 0
  Unchanged p r t =
      (st.recent_eid t.storage p ≡ st.recent_eid r.storage p)
      × (deliveries p t.events ≡ deliveries p r.events)

  pub Unchanged-Advanced :
      (p : ℕ) (sent : ℕ → Bytes) (r t : Reliable E S)
      → st.recent_eid r.storage p < 2 ^ 64
      → Unchanged p r t
      → Advanced p sent 0 r t
  unfolding payloads
  Unchanged-Advanced p sent r t lt (e, d) =
      (omega (arith, e), omega (arith, e), d ∙ sym (append-nil (deliveries p r.events)))

  pub Advanced-add :
      (p : ℕ) (sent : ℕ → Bytes) (j k : ℕ) (r s t : Reliable E S)
      → Advanced p sent j r s
      → Advanced p sent k s t
      → Advanced p sent (j + k) r t
  Advanced-add p sent j k r s t (e, lt, d) (e', lt', d') =
      let start : suc (st.recent_eid s.storage p) ≡ suc (st.recent_eid r.storage p) + j =
        omega (arith, e) in
      (
        omega (arith, e, e'),
        lt',
        d'
            ∙ rw (d, start)
                (append_assoc (deliveries p r.events) _ _
                  ∙ ap (λ m. deliveries p r.events ++ m) (payloads-add sent _ j k)),
      )
