-- ===== src/Prelude/Dict.antt =====
-- Association lists keyed by socket identifiers, which are numbers.
use net_lib.Prelude.Tests.{◌==◌, if◌then◌else◌, Bool-cases}
use Prim.Native.Nat.{ℕ}
use mathlib.Core.Path.{◌≡◌, refl, ◌∙◌}
use mathlib.Core.Logic.{inl, inr}
use mathlib.Core.Bool.{false}
use mathlib.Core.List.{List, [], ◌∷◌}
use mathlib.Core.Option.{Option, none, some}
use native.Mathlib.Omega.{arith}

module _ {ℓ} {V : Type ℓ} where
  unfoldable pub find : ℕ → List (ℕ × V) → Option V
  find k [] = none
  find k ((j, v) ∷ m) = if j == k then some v else find k m

  -- Overwrites the entry, or adds one at the end.
  unfoldable pub insert : ℕ → V → List (ℕ × V) → List (ℕ × V)
  insert k v [] = (k, v) ∷ []
  insert k v ((j, w) ∷ m) = if j == k then (j, v) ∷ m else (j, w) ∷ insert k v m

  unfoldable pub erase : ℕ → List (ℕ × V) → List (ℕ × V)
  erase k [] = []
  erase k ((j, w) ∷ m) = if j == k then erase k m else (j, w) ∷ erase k m

  pub find-insert :
      (k j : ℕ) (v : V) (m : List (ℕ × V))
      → find j (insert k v m) ≡ (if k == j then some v else find j m)
  unfolding find insert
  find-insert k j v [] = refl
  find-insert k j v ((i, w) ∷ m) = ground (arith, find-insert k j v m)

  pub find-erase :
      (k j : ℕ) (m : List (ℕ × V)) → find j (erase k m) ≡ (if k == j then none else find j m)
  unfolding find erase
  find-erase k j [] = ground arith
  find-erase k j ((i, w) ∷ m) = ground (arith, find-erase k j m)

  find-nil : (k : ℕ) → find k [] ≡ none
  unfolding find
  find-nil k = refl

  -- No key stands twice.
  abbrev pub Distinct : List (ℕ × V) → Type ℓ
  Distinct [] = Unit
  Distinct ((k, v) ∷ m) = (find k m ≡ none) × Distinct m

  pub insert-Distinct : (k : ℕ) (v : V) (m : List (ℕ × V)) → Distinct m → Distinct (insert k v m)
  unfolding insert
  insert-Distinct k v [] d = (find-nil k, tt)
  insert-Distinct k v ((j, w) ∷ m) (f, d) = elim (Bool-cases (j == k)) [
    | inl e ↦ rw e (f, d)
    | inr e ↦
        let other : (k == j) ≡ false = ground arith in
        rw e (find-insert k j v m ∙ rw other f, insert-Distinct k v m d)
  ]

  pub erase-Distinct : (k : ℕ) (m : List (ℕ × V)) → Distinct m → Distinct (erase k m)
  unfolding erase
  erase-Distinct k [] d = tt
  erase-Distinct k ((j, w) ∷ m) (f, d) = elim (Bool-cases (j == k)) [
    | inl e ↦ rw e (erase-Distinct k m d)
    | inr e ↦
        let other : (k == j) ≡ false = ground arith in
        rw e (find-erase k j m ∙ rw other f, erase-Distinct k m d)
  ]
