-- ===== src/Meshnet/Handshake/Expiry.antt =====
-- Which handshakes a step takes as expired.
use net_lib.Meshnet.Handshake.{
  Event, sent, expired, failed, completed, Handshake, expire, check_expired, step,
}
use net_lib.Prelude.Dict.{find, Distinct}
use net_lib.Prelude.{
  ℕ, ◌≡◌, refl, sym, ◌∙◌, arith, mem, ==_iff, Bool, false, List, [], ◌∷◌, ◌++◌, Option, none, some,
  leb, ◌==◌, if◌then◌else◌, inl, inr, Bool-cases,
}

-- The sockets that the events report as expired.
unfoldable pub expired_sockets : List Event → List ℕ
expired_sockets [] = []
expired_sockets (expired sid ∷ es) = sid ∷ expired_sockets es
expired_sockets (sent sid pkt ∷ es) = expired_sockets es
expired_sockets (failed sid ∷ es) = expired_sockets es
expired_sockets (completed id sid r ∷ es) = expired_sockets es

-- Whether a time that the cache gives has come.
abbrev pub is_due : ℕ → Option ℕ → Bool
is_due now none = false
is_due now (some t) = leb t now

expire-find :
    (now j : ℕ) (m : List (ℕ × ℕ))
    → Distinct m
    → (find j (expire now m).0 ≡ (if is_due now (find j m) then none else find j m))
      × (mem j (expired_sockets (expire now m).1) ≡ is_due now (find j m))
unfolding expire find expired_sockets
expire-find now j [] d = (refl, refl)
expire-find now j ((sid, t) ∷ m) (f, d) =
    let (x, y) = expire-find now j m d in
    elim (Bool-cases (sid == j)) [
      | inr n ↦ elim (Bool-cases (leb t now)) [
        | inl due ↦ rw (due, n) (x, ground (arith, y, n))
        | inr more ↦ rw (more, n) (x, y)
      ]
      | inl e ↦
          let same : sid ≡ j = (==_iff sid j).0 e in
          let none_left : find j m ≡ none = rw (sym same) f in
          elim (Bool-cases (leb t now)) [
            | inl due ↦ rw (due, e, due) (x ∙ rw none_left refl, ground (arith, e))
            | inr more ↦ rw (more, e, more) (refl, y ∙ rw none_left refl)
          ]
    ]

expire-Distinct : (now : ℕ) (m : List (ℕ × ℕ)) → Distinct m → Distinct (expire now m).0
unfolding expire
expire-Distinct now [] d = tt
expire-Distinct now ((sid, t) ∷ m) (f, d) = elim (Bool-cases (leb t now)) [
  | inl due ↦ rw due (expire-Distinct now m d)
  | inr more ↦ rw more ((expire-find now sid m d).0 ∙ rw f refl, expire-Distinct now m d)
]

-- With no socket twice in the cache, a step drops exactly the sockets whose time has come,
-- reports exactly these as expired, keeps the times of the others, and leaves no socket twice.
pub expired_sockets-step :
    (h : Handshake) (now : ℕ)
    → Distinct h.cache
    → let h' = step h now in
      Distinct h'.cache
      × ((j : ℕ) → find j h'.cache ≡ (if is_due now (find j h.cache) then none else find j h.cache))
      × (es : List Event) × (h'.log ≡ h.log ++ es)
      × ((j : ℕ) → mem j (expired_sockets es) ≡ is_due now (find j h.cache))
unfolding step check_expired
expired_sockets-step h now d = (
  expire-Distinct now h.cache d,
  λ j. (expire-find now j h.cache d).0,
  (expire now h.cache).1,
  refl,
  λ j. (expire-find now j h.cache d).1,
)
