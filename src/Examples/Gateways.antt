-- ===== src/Examples/Gateways.antt =====
-- The theorems on the gateway and its hop, at concrete inputs.
use pqcbridge_legacy_edge_cl.Base.{
  ◌≡◌, ◌≢◌, ◌↔◌, ◌⊎◌, true, false, some, [], ◌∷◌, Bytes, codes, all, ltb,
}
use pqcbridge_legacy_edge_cl.Result.{Exn, ok, err}
use pqcbridge_legacy_edge_cl.Protocol.Fields.{cap_mlkem_768, cap_chacha20_poly1305}
use pqcbridge_legacy_edge_cl.Crypto.Kem.{public_key_fingerprint}
use pqcbridge_legacy_edge_cl.Crypto.Tags.{verify_hello_auth}
use pqcbridge_legacy_edge_cl.Gateway.Processing.{
  allow_fallback, evaluate_hello, claims, hello_capabilities, verify_cloud_public_key,
}
use pqcbridge_legacy_edge_cl.Gateway.Processing.Policy.{allow_fallback_iff}
use pqcbridge_legacy_edge_cl.Gateway.Processing.Pin.{verify_cloud_public_key_iff}
use pqcbridge_legacy_edge_cl.Gateway.Server.{Link, handle_reading, serve_one, serve_legacy}
use pqcbridge_legacy_edge_cl.Gateway.Server.Readings.{
  Untouched, Fresh, handle_reading_guarded, serve_legacy_ends,
}
use pqcbridge_legacy_edge_cl.Gateway.Channel.Sending.{send_reading}
use pqcbridge_legacy_edge_cl.Gateway.Channel.Outcomes.{Outcome, send_reading-Outcome}
use pqcbridge_legacy_edge_cl.Gateway.State.{Gateway, established}
use pqcbridge_legacy_edge_cl.Examples.Toy.{toy}
use pqcbridge_legacy_edge_cl.Examples.Sample.{
  sample_key, sample_device, sample_host, sample_text, sample_sock, forged_message, sample_gateway,
  device_link,
}

handle_reading_guarded_example :
    Untouched sample_host sample_gateway
      (handle_reading sample_host sample_device sample_key forged_message sample_gateway).1
    ⊎ Fresh sample_host sample_device sample_key forged_message sample_gateway
        (handle_reading sample_host sample_device sample_key forged_message sample_gateway).1
handle_reading_guarded_example =
    handle_reading_guarded sample_host sample_device sample_key forged_message sample_gateway

serve_legacy_ends_example :
    (t : Link) × (x : Exn) × (t' : Link) × (serve_one sample_host sample_device sample_key t
      ≡ (err x, t'))
    × (serve_legacy sample_host sample_device sample_key device_link ≡ (err x, t'))
serve_legacy_ends_example = serve_legacy_ends sample_host sample_device sample_key device_link

allow_fallback_iff_example :
    (evaluate_hello toy forged_message (some sample_key) ≡ ok allow_fallback) ↔ (
      (key : Bytes) × (some sample_key ≡ some key)
      × (verify_hello_auth toy key forged_message ≡ ok tt)
      × (claims (hello_capabilities forged_message) cap_chacha20_poly1305 ≡ true)
      × (claims (hello_capabilities forged_message) cap_mlkem_768 ≡ false))
allow_fallback_iff_example = allow_fallback_iff toy forged_message (some sample_key)

verify_cloud_public_key_iff_example :
    (verify_cloud_public_key toy (18 ∷ 52 ∷ []) (codes "1234") ≡ ok tt) ↔ (
      (codes "1234" ≢ [])
      × (public_key_fingerprint toy (18 ∷ 52 ∷ []) ≡ codes "1234")
      × (all (λ c. ltb c 128) (codes "1234") ≡ true))
verify_cloud_public_key_iff_example = verify_cloud_public_key_iff toy (18 ∷ 52 ∷ []) (codes "1234")

abbrev connected : Gateway
connected = record sample_gateway {
  channel = record sample_gateway.channel {
    state = established;
    session_id = some (codes "s1");
    session_key = some sample_key;
    sock = some sample_sock;
  };
}

send_reading-Outcome_example :
    Outcome sample_host sample_text connected (send_reading sample_host sample_text connected)
send_reading-Outcome_example = send_reading-Outcome sample_host sample_text connected
