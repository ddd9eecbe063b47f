-- ===== src/Gateway/Processing/Policy.antt =====
-- The fallback policy: which hellos are let in.
use pqcbridge_legacy_edge_cl.Base.{◌≡◌, ◌↔◌, refl, true, false, Option, none, some, arith, Bytes}
use pqcbridge_legacy_edge_cl.Result.{Result, ok, err}
use pqcbridge_legacy_edge_cl.Json.{Message, Items}
use pqcbridge_legacy_edge_cl.Protocol.Fields.{cap_mlkem_768, cap_chacha20_poly1305}
use pqcbridge_legacy_edge_cl.Crypto.Library.{Library}
use pqcbridge_legacy_edge_cl.Crypto.Tags.{verify_hello_auth}
use pqcbridge_legacy_edge_cl.Gateway.Processing.{
  allow_fallback, claims, determine_path, evaluate_hello, verdict, hello_capabilities,
}

verdict-allow_iff :
    (lib : Library) (r : Result (Unit {0})) (vs : Items)
    → (verdict lib r vs ≡ ok allow_fallback)
      ↔ ((r ≡ ok tt) × (claims vs cap_chacha20_poly1305 ≡ true) × (claims vs cap_mlkem_768 ≡ false))
unfolding verdict determine_path
verdict-allow_iff lib (ok u) vs = ground arith
verdict-allow_iff lib (err e) vs = ground arith

-- The gateway falls back exactly for a device with a known key, a hello whose tag verifies under
-- that key, and a claim of the legacy capability without the modern one.
pub allow_fallback_iff :
    (lib : Library) (hello : Message) (device_key : Option Bytes)
    → (evaluate_hello lib hello device_key ≡ ok allow_fallback) ↔ (
        (key : Bytes) × (device_key ≡ some key)
        × (verify_hello_auth lib key hello ≡ ok tt)
        × (claims (hello_capabilities hello) cap_chacha20_poly1305 ≡ true)
        × (claims (hello_capabilities hello) cap_mlkem_768 ≡ false))
unfolding evaluate_hello
allow_fallback_iff lib hello none = (λ h. cc, λ h. cc (h.1))
allow_fallback_iff lib hello (some key) =
    let (to, from) =
      verdict-allow_iff lib (verify_hello_auth lib key hello) (hello_capabilities hello) in
    (λ h. let (a, b, c) = to h in (key, refl, a, b, c), λ (k, e, a, b, c). ground (arith, from))
