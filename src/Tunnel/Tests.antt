-- ===== src/Tunnel/Tests.antt =====
-- A short address through the tunnel, and a bridge in one interleaving.
use http_broker.Base.{◌≡◌, List, [], ◌∷◌, Bytes, codes, arith}
use http_broker.Tunnel.Bridge.{
  bridge_conns, Turn, a_to_b, b_to_a, turns_to_a, turns_to_b, open_copy, delivered,
  bridge_conns_delivers,
}

abbrev target : Bytes
target = codes "web:80"

abbrev turns : List Turn
turns = a_to_b 1 ∷ b_to_a 0 ∷ a_to_b 0 ∷ b_to_a 3 ∷ a_to_b 0 ∷ []

bridge_conns_delivers_example :
    bridge_conns (record { to_a = open_copy (codes "x"); to_b = open_copy (codes "ab") }) turns
    ≡ record { to_a = delivered (codes "x"); to_b = delivered (codes "ab") }
unfolding turns_to_a turns_to_b
bridge_conns_delivers_example =
    bridge_conns_delivers turns (codes "ab") (codes "x") (omega arith) (omega arith)
