-- ===== src/Prelude/TimeSet.antt =====
-- A std::set of items that are ordered by their time alone, as an ascending list of times and values:
-- two items of one time are the same to it.
use net_lib.Prelude.Tests.{ltb, ◌==◌, ==_iff, ==_self, if◌then◌else◌, Bool-cases}
use net_lib.Prelude.Lists.{All}
use net_lib.Prelude.Dict.{find}
use Prim.Native.Nat.{ℕ, ◌≤◌, ◌<◌}
use mathlib.Core.Path.{◌≡◌, refl}
use mathlib.Core.Logic.{inl, inr}
use mathlib.Core.Bool.{false}
use mathlib.Core.List.{List, [], ◌∷◌}
use mathlib.Core.Option.{Option, none, some}
use native.Mathlib.Omega.{arith}

-- `insert` into the std::set: an item of the same time stays.
unfoldable pub insert_at : ℕ × ℕ → List (ℕ × ℕ) → List (ℕ × ℕ)
insert_at (t, saddr) [] = (t, saddr) ∷ []
insert_at (t, saddr) ((u, x) ∷ ds) =
    if ltb t u
    then (t, saddr) ∷ (u, x) ∷ ds
    else if t == u
    then (u, x) ∷ ds
    else (u, x) ∷ insert_at (t, saddr) ds

abbrev pub Ascending : List (ℕ × ℕ) → Type 0
Ascending [] = Unit
Ascending ((t, saddr) ∷ ds) = All (λ d. t < d.0) ds × Ascending ds

-- What stands at a time once an address was inserted there.
abbrev pub first_come : Option ℕ → ℕ → ℕ
first_come none saddr = saddr
first_come (some x) saddr = x

find_early : (t u : ℕ) (ds : List (ℕ × ℕ)) → u ≤ t → All (λ d. t < d.0) ds → find u ds ≡ none
unfolding find
find_early t u [] le a = refl
find_early t u ((v, x) ∷ ds) le (lt, a) = ground (arith, find_early t u ds le a)

pub insert_at-find :
    (t saddr u : ℕ) (ds : List (ℕ × ℕ))
    → Ascending ds
    → find u (insert_at (t, saddr) ds)
      ≡ (if t == u then some (first_come (find t ds) saddr) else find u ds)
unfolding insert_at find
insert_at-find t saddr u [] a = refl
insert_at-find t saddr u ((v, x) ∷ ds) (h, a) = elim (Bool-cases (ltb t v)) [
  | inl e ↦
      let apart : (v == t) ≡ false = ground arith in
      let early : find t ds ≡ none = find_early v t ds (ground arith) h in rw (e, apart, early) refl
  | inr e ↦ rw e (elim (Bool-cases (t == v)) [
    | inl f ↦
        let same : t ≡ v = (==_iff t v).0 f in
        rw (f, same, ==_self v)
          (elim (Bool-cases (v == u)) [ inl g ↦ rw g refl | inr g ↦ rw g refl ])
    | inr f ↦
        let apart : (v == t) ≡ false = ground arith in
        rw (f, apart)
          (elim (Bool-cases (v == u)) [
            | inl g ↦ let other : (t == u) ≡ false = ground arith in rw (g, other) refl
            | inr g ↦ rw g (insert_at-find t saddr u ds a)
          ])
  ])
]
