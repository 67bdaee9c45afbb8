-- ===== src/Meshnet/Handshake/Tests.antt =====
-- Handshakes between the nodes 3 and 5, whose identifiers are written as one byte.
use net_lib.Meshnet.Handshake.{
  unusable, request, response, Event, sent, completed, Handshake, step, packet,
}
use net_lib.Meshnet.Handshake.Exchange.{both_ways, exchange, exchange_lem, exclusive_lem}
use net_lib.Meshnet.Handshake.Expiry.{expired_sockets, is_due, expired_sockets-step}
use net_lib.Prelude.Dict.{find, Distinct}
use net_lib.Prelude.{
  ℕ, ◌≡◌, refl, arith, Bool, true, false, List, [], ◌∷◌, ◌++◌, Option, none, some, mem,
  if◌then◌else◌, Bytes,
}

abbrev stringify : ℕ → Bytes
stringify id = id ∷ []

abbrev parse : Bytes → Option ℕ
parse [] = none
parse (c ∷ cs) = some c

abbrev node : ℕ → Bool → Handshake
node id nat = record { node_id = id; behind_nat = nat; cache = []; log = [] }

exchange_lem_example :
    let r = exchange stringify parse (node 3 false) (node 5 true) 0 1 10 20 in
    (r.0.log ≡ sent 10 (packet stringify parse (node 3 false) request) ∷ both_ways 5 10)
    × (r.1.log ≡ sent 20 (packet stringify parse (node 5 true) response) ∷ both_ways 3 20)
    × (find 10 r.0.cache ≡ none)
    × (r.1.cache ≡ [])
unfolding find
exchange_lem_example =
    exchange_lem stringify parse (λ id. refl) (node 3 false) (node 5 true) 0 1 10 20 refl

exclusive_lem_example :
    let r = exchange stringify parse (node 3 false) (node 5 false) 0 1 10 20 in
    let q = exchange stringify parse r.1 r.0 2 3 21 11 in
    (q.1.log
      ≡ (sent 10 (packet stringify parse (node 3 false) request) ∷ both_ways 5 10)
        ++ (sent 11 (packet stringify parse (node 3 false) response) ∷ []))
    × (q.0.log
        ≡ (sent 20 (packet stringify parse (node 5 false) response) ∷ both_ways 3 20)
          ++ (sent 21 (packet stringify parse (node 5 false) request)
              ∷ completed 3 21 unusable
              ∷ []))
unfolding find
exclusive_lem_example =
    exclusive_lem stringify parse (λ id. refl) (node 3 false) (node 5 false) 0 1 2 3 10 20 21 11
      refl refl (omega arith) refl refl

abbrev waiting : Handshake
waiting = record { node_id = 3; behind_nat = false; cache = (10, 100) ∷ (11, 200) ∷ []; log = [] }

expired_sockets-step_example :
    Distinct (step waiting 150).cache
    × ((j : ℕ)
        → find j (step waiting 150).cache
          ≡ (if is_due 150 (find j waiting.cache) then none else find j waiting.cache))
    × (es : List Event) × ((step waiting 150).log ≡ es)
    × ((j : ℕ) → mem j (expired_sockets es) ≡ is_due 150 (find j waiting.cache))
unfolding find
expired_sockets-step_example = expired_sockets-step waiting 150 (refl, (refl, tt))
