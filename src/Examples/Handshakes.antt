-- ===== src/Examples/Handshakes.antt =====
-- A handshake at concrete inputs.
use pqcbridge_legacy_edge_cl.Base.{
  ◌<◌, ◌≡◌, refl, arith, true, false, none, some, [], ◌∷◌, ◌++◌, All, length, Bytes, AreBytes, Text,
  codes, Eq_text, Eq_nat, text_eq,
}
use pqcbridge_legacy_edge_cl.Result.{ok}
use pqcbridge_legacy_edge_cl.Dict.{get, put}
use pqcbridge_legacy_edge_cl.Encoding.Base64.{b64encode}
use pqcbridge_legacy_edge_cl.Encoding.Hex.{hex, from_hex}
use pqcbridge_legacy_edge_cl.Json.{str}
use pqcbridge_legacy_edge_cl.Json.Dumps.{dumps}
use pqcbridge_legacy_edge_cl.Json.Loads.{loads}
use pqcbridge_legacy_edge_cl.Json.RoundTrip.Printable.{shown-IsScalar}
use pqcbridge_legacy_edge_cl.Protocol.Aad.{gateway_auth_claims_bytes}
use pqcbridge_legacy_edge_cl.Protocol.Fields.{b64e, encode_message}
use pqcbridge_legacy_edge_cl.Protocol.Stream.Framing.{arriving}
use pqcbridge_legacy_edge_cl.Crypto.Library.{nonce_length, mlkem768_public_key_bytes}
use pqcbridge_legacy_edge_cl.Crypto.Kem.{
  public_key_fingerprint, mlkem_encapsulate, derive_session_key,
}
use pqcbridge_legacy_edge_cl.Config.{
  Host, gateway_key, gateway_keys, keys_from_env_or_file, load_keys_json, cloud_public_key_sha256,
}
use pqcbridge_legacy_edge_cl.Gateway.Processing.{verify_cloud_public_key, compare_digest}
use pqcbridge_legacy_edge_cl.Gateway.State.{Gateway, new_gateway, new_channel, established}
use pqcbridge_legacy_edge_cl.Gateway.Channel.{Attempt, connect_and_establish, encaps_message}
use pqcbridge_legacy_edge_cl.Cloud.Sessions
use pqcbridge_legacy_edge_cl.Cloud.Server.{Cloud, establish_session}
use pqcbridge_legacy_edge_cl.Bridge.Handshake.Messages.{
  request_message, offer_message, confirmation_message,
}
use pqcbridge_legacy_edge_cl.Bridge.Handshake.GatewaySide.{open_sock}
use pqcbridge_legacy_edge_cl.Bridge.Handshake.{Fits, handshake_agrees}
use pqcbridge_legacy_edge_cl.Examples.Agreements.{cloud_key, telling, telling-Laws, pinned_host}
use pqcbridge_legacy_edge_cl.Examples.Clouds.{empty_cloud}
use pqcbridge_legacy_edge_cl.Examples.Sample.{sample_key}
use pqcbridge_legacy_edge_cl.Examples.Toy.{toy_encrypt, sized, context, unary, mark, repeat}

-- A gateway with a short id, and a cloud that has its key in the environment.
abbrev small_gateway : Gateway
small_gateway = new_gateway (new_channel (codes "g") sample_key true)

abbrev registry_host : Host
registry_host = record pinned_host {
  environ = (codes "GATEWAY_KEYS_JSON", codes "{\"g\":\"" ++ hex sample_key ++ codes "\"}") ∷ [];
}

abbrev keyed_cloud : Cloud
keyed_cloud = record empty_cloud { private_key = cloud_key; public_key_raw = cloud_key }

abbrev nonce : Bytes
nonce = repeat 12 0

abbrev proof : Bytes
proof = context sample_key nonce (some (gateway_auth_claims_bytes (str (codes "g")))) ++ unary []

proof_sealed :
    toy_encrypt sample_key nonce [] (some (gateway_auth_claims_bytes (str (codes "g")))) ≡ ok proof
unfolding toy_encrypt sized repeat
proof_sealed = refl

key_registered : gateway_key registry_host (codes "g") ≡ ok sample_key
unfolding gateway_key gateway_keys keys_from_env_or_file load_keys_json loads from_hex hex get put
    text_eq repeat
key_registered = refl

pin_accepts :
    verify_cloud_public_key telling cloud_key (cloud_public_key_sha256 pinned_host) ≡ ok tt
unfolding verify_cloud_public_key compare_digest public_key_fingerprint cloud_public_key_sha256 hex
    get text_eq repeat
pin_accepts = refl

abbrev session_id : Text
session_id = hex (repeat 8 0)

All-fit : All Fits (
    request_message (codes "g") nonce proof
    ∷ offer_message (codes "cloud-01") cloud_key
    ∷ encaps_message (codes "g") session_id (repeat 1088 0)
    ∷ confirmation_message session_id
    ∷ [])
unfolding encode_message dumps b64e b64encode repeat unary mark context gateway_auth_claims_bytes
    hex encaps_message
All-fit = (omega arith, (omega arith, (omega arith, (omega arith, tt))))

cloud_key-length : length cloud_key ≡ mlkem768_public_key_bytes
unfolding repeat
cloud_key-length = refl

small_bytes : AreBytes (repeat 12 0) × AreBytes (repeat 8 0)
unfolding repeat
small_bytes = (ground arith, ground arith)

small_lengths : (length (repeat 12 0) ≡ nonce_length) × (0 < length (repeat 8 0))
unfolding repeat
small_lengths = (refl, omega arith)

proof-length : 0 < length proof
unfolding context unary mark repeat
proof-length = omega arith

cloud_key_bytes : AreBytes cloud_key
unfolding repeat
cloud_key_bytes = ground arith

abbrev attempt : Attempt
attempt = record {
  reachable = true;
  incoming =
      arriving (offer_message (codes "cloud-01") cloud_key)
        (encode_message (confirmation_message session_id) ++ []) true;
  faults = [];
  session_draw = repeat 8 0;
  kem_draw = [];
}

handshake_agrees_example :
    let (r, g') = connect_and_establish pinned_host none (attempt ∷ []) small_gateway in
    let (s, l) = establish_session registry_host (record {
      cloud = keyed_cloud;
      sock = open_sock [];
      stream =
          arriving
            (request_message (codes "g") nonce proof)
            (encode_message (encaps_message (codes "g") session_id (repeat 1088 0)) ++ [])
            false;
    }) in
    let session_key = derive_session_key telling [] in
    (r ≡ ok true)
    × (g'.channel ≡ record small_gateway.channel {
      state = established;
      session_id = some session_id;
      session_key = some session_key;
      sock = some (
          open_sock (
            encode_message (request_message (codes "g") nonce proof)
            ∷ encode_message (encaps_message (codes "g") session_id (repeat 1088 0))
            ∷ []));
    })
    × (s ≡ ok (session_id, session_key))
    × (l.sock.sent
        ≡ encode_message (offer_message (codes "cloud-01") cloud_key)
          ∷ encode_message (confirmation_message session_id)
          ∷ [])
    × (l.cloud.registry ≡ Sessions.add session_id session_key (codes "g") keyed_cloud.registry)
unfolding new_gateway new_channel mlkem_encapsulate
handshake_agrees_example =
    handshake_agrees pinned_host registry_host refl telling-Laws (omega arith) (omega arith)
      small_gateway keyed_cloud (repeat 8 0) [] proof [] [] true false none [] refl cloud_key-length
      cloud_key_bytes pin_accepts key_registered proof_sealed proof-length small_lengths.0
      small_bytes.0 small_lengths.1 small_bytes.1 (shown-IsScalar (codes "g") refl) (ground arith)
      (shown-IsScalar (codes "cloud-01") refl) (ground arith) All-fit
