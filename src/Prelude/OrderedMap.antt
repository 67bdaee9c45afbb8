-- ===== src/Prelude/OrderedMap.antt =====
-- A std::map keyed by numbers: an association list in the order of its keys. `find` and `erase` are
-- those of `Dict`.
use net_lib.Prelude.Dict.{find}
use net_lib.Prelude.Tests.{◌==◌, ltb, if◌then◌else◌}
use Prim.Native.Nat.{ℕ}
use mathlib.Core.Path.{◌≡◌, refl}
use mathlib.Core.List.{List, [], ◌∷◌}
use mathlib.Core.Option.{some}
use native.Mathlib.Omega.{arith}

module _ {ℓ} {V : Type ℓ} where
  -- Overwrites the entry, or adds one where its key belongs.
  unfoldable pub put : ℕ → V → List (ℕ × V) → List (ℕ × V)
  put k v [] = (k, v) ∷ []
  put k v ((j, w) ∷ m) =
      let rest = put k v m in
      if ltb k j then (k, v) ∷ (j, w) ∷ m else if j == k then (k, v) ∷ m else (j, w) ∷ rest

  pub find-put :
      (k j : ℕ) (v : V) (m : List (ℕ × V))
      → find j (put k v m) ≡ (if k == j then some v else find j m)
  unfolding find put
  find-put k j v [] = refl
  find-put k j v ((i, w) ∷ m) = ground (arith, find-put k j v m)

  pub put-put : (k : ℕ) (v w : V) (m : List (ℕ × V)) → put k v (put k w m) ≡ put k v m
  unfolding put
  put-put k v w [] = ground arith
  put-put k v w ((i, u) ∷ m) = ground (arith, put-put k v w m)
