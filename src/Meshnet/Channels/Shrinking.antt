-- ===== src/Meshnet/Channels/Shrinking.antt =====
-- Maps of readers and writers without one neighbour.
use net_lib.Meshnet.Channels.{Event, Node, find_value}
use net_lib.Meshnet.Channels.Lookup.{find_value-none, IsValid, disconnected}
use net_lib.Prelude.Dict.{find, erase, Distinct, find-erase}
use net_lib.Prelude.{
  ℕ, ◌≡◌, ◌≢◌, refl, sym, ap, ◌∙◌, arith, false, List, [], ◌∷◌, ◌++◌, Option, none, some, ◌==◌,
  ==_iff, ==_self, if◌then◌else◌, inl, inr, Bool-cases, Option-cases,
}

-- What is left of a neighbour in a map when the neighbour `id` goes.
abbrev pub without : ℕ → Option ℕ → Option ℕ
without id none = none
without id (some i) = if i == id then none else some i

-- The neighbour is reported if it had a reader and a writer.
abbrev pub lost : ℕ → Option ℕ → Option ℕ → List ℕ
lost id (some r) (some w) = id ∷ []
lost id none w = []
lost id (some r) none = []

pub without-some : (id : ℕ) (o : Option ℕ) {i : ℕ} → without id o ≡ some i → (o ≡ some i) × (i ≢ id)
without-some id none e = absurd (cc)
without-some id (some j) {i} e = elim (Bool-cases (j == id)) [
  | inl t ↦ absurd (let x : none ≡ some i = rw t at e in cc)
  | inr n ↦
      let x : some j ≡ some i = rw n at e in let z : j ≡ i = cc in (x, λ y. ground (arith, y, z))
]

-- From `n` to `n'` the neighbour `id` lost its channel.
pub record Closed (n n' : Node) (id : ℕ) : Type 0 where
  pub valid : IsValid n'
  pub readers : (s : ℕ) → find s n'.readers ≡ without id (find s n.readers)
  pub writers : (i : ℕ) → find i n'.writers ≡ (if id == i then none else find i n.writers)
  pub es : List Event
  pub logged : n'.log ≡ n.log ++ es
  pub reported : disconnected es ≡ lost id (find_value id n.readers) (find id n.writers)

pub erase_reader :
    (n : Node) (r id : ℕ)
    → IsValid n
    → find r n.readers ≡ some id
    → (s : ℕ) → find s (erase r n.readers) ≡ without id (find s n.readers)
erase_reader n r id v e s = elim (Bool-cases (r == s)) [
  | inl t ↦
      let x : find s n.readers ≡ some id = rw (sym ((==_iff r s).0 t)) e in
      find-erase r s n.readers ∙ rw (t, x, ==_self id) refl
  | inr o ↦ elim (Option-cases (find s n.readers)) [
    | inl x ↦ find-erase r s n.readers ∙ rw (o, x) refl
    | inr (i, x) ↦
        let other : (i == id) ≡ false = elim (Bool-cases (i == id)) [
          | inr f ↦ f
          | inl t ↦
              let y : find s n.readers ≡ some id = x ∙ ap some ((==_iff i id).0 t) in
              let z : r ≡ s = v.one_reader r s id e y in absurd (ground (arith, z))
        ] in
        find-erase r s n.readers ∙ rw (o, x, other) refl
  ]
]

pub keep_readers :
    (n : Node) (id : ℕ)
    → find_value id n.readers ≡ none
    → (s : ℕ) → find s n.readers ≡ without id (find s n.readers)
keep_readers n id e s = elim (Option-cases (find s n.readers)) [
  | inl x ↦ rw x refl
  | inr (i, x) ↦ elim (Bool-cases (i == id)) [
    | inl t ↦ absurd (find_value-none id s n.readers e (x ∙ ap some ((==_iff i id).0 t)))
    | inr o ↦ rw (x, o) refl
  ]
]

pub keep_writers :
    (m : List (ℕ × ℕ)) (id : ℕ)
    → find id m ≡ none
    → (i : ℕ) → find i m ≡ (if id == i then none else find i m)
keep_writers m id e i = elim (Bool-cases (id == i)) [
  | inl t ↦ rw t (rw (sym ((==_iff id i).0 t)) e)
  | inr o ↦ rw o refl
]

pub writers_some :
    (id i : ℕ) (o : Option ℕ) {s : ℕ} → (if id == i then none else o) ≡ some s → o ≡ some s
writers_some id i o {s} e = elim (Bool-cases (id == i)) [
  | inl t ↦ absurd (let x : none ≡ some s = rw t at e in cc)
  | inr n ↦ rw n at e
]

-- Maps that shrink stay well formed.
pub shrunk-IsValid :
    (n n' : Node) (id : ℕ)
    → IsValid n
    → Distinct n'.readers
    → Distinct n'.writers
    → ((s : ℕ) → find s n'.readers ≡ without id (find s n.readers))
    → ((i : ℕ) → find i n'.writers ≡ (if id == i then none else find i n.writers))
    → IsValid n'
shrunk-IsValid n n' id v dr dw r w = record {
  reader_keys = dr;
  writer_keys = dw;
  one_reader = λ s t i e f. v.one_reader s t i (read s i e) (read t i f);
  one_writer = λ s i j e f. v.one_writer s i j (write i s e) (write j s f);
  agree = λ s i j e f. v.agree s i j (read s i e) (write j s f);
}
  where
    read : (s i : ℕ) → find s n'.readers ≡ some i → find s n.readers ≡ some i
    read s i e = (without-some id (find s n.readers) (sym (r s) ∙ e)).0

    write : (i s : ℕ) → find i n'.writers ≡ some s → find i n.writers ≡ some s
    write i s e = writers_some id i (find i n.writers) (sym (w i) ∙ e)

pub reader_known :
    (n : Node) (sid id : ℕ)
    → find sid n.readers ≡ some id
    → (r : ℕ) × (find_value id n.readers ≡ some r)
reader_known n sid id e = elim (Option-cases (find_value id n.readers)) [
  | inl x ↦ absurd (find_value-none id sid n.readers x e)
  | inr found ↦ found
]
