-- ===== src/Tests/Nodes.antt =====
-- The laws of src/pkg/node/nodeid.go at sample nodes.
use failure_detector.Prelude.{ℕ, ◌<◌, ◌≡◌, ◌↔◌, refl, List, [], ◌∷◌, ◌++◌, some, arith}
use failure_detector.Prelude.Int.{pos, negsuc}
use failure_detector.Go.Text.{codes}
use failure_detector.Node.{endpoint_to_string, id_to_string, compare_id}
use failure_detector.Node.Binary.{
  marshal_binary, unmarshal_binary, bytes, unmarshal_binary-marshal_binary,
}
use failure_detector.Node.Key.{endpoint_to_string-injective}
use failure_detector.Node.Order.{compare_id_iff}
use failure_detector.Tests.Samples.{host, node_a, node_b}

node_a_text : id_to_string node_a ≡ codes "10.0.0.1:5000@1000"
unfolding id_to_string endpoint_to_string failure_detector.Go.Netip.addr_to_string
    failure_detector.Go.Netip.dotted failure_detector.Go.Text.decimal
node_a_text = refl

unmarshal_binary-marshal_binary_example :
    (buf : List ℕ) × (marshal_binary node_a ≡ bytes buf)
    × (unmarshal_binary (buf ++ (7 ∷ [])) ≡ some node_a)
unmarshal_binary-marshal_binary_example =
    unmarshal_binary-marshal_binary 10 0 0 1 5000 1000 (7 ∷ []) (omega arith) (omega arith)

same_text_same_endpoint : host 1 ≡ host 1
same_text_same_endpoint =
    endpoint_to_string-injective (host 1) (host 1) (omega arith) (omega arith) (omega arith)
      (omega arith) refl

compared :
    ((compare_id node_a node_b ≡ negsuc 0) ↔ (1000 < 2000))
    × ((compare_id node_a node_b ≡ pos 0) ↔ ◌≡◌ {A = ℕ} 1000 2000)
    × ((compare_id node_a node_b ≡ pos 1) ↔ (2000 < 1000))
compared = compare_id_iff node_a node_b
