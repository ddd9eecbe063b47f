-- ===== src/Examples/Agreements.antt =====
-- The theorems on the agreement of the gateway and the cloud, at concrete inputs.
use pqcbridge_legacy_edge_cl.Base.{
  some, arith, ◌≡◌, refl, true, false, none, List, [], ◌∷◌, ◌++◌, if◌then◌else◌, Bytes, codes,
  text_eq, text_eq_iff, Eq_text, pos, ◌≤ℤ◌, Eq_nat, Bool-cases, inl, inr,
}
use pqcbridge_legacy_edge_cl.Gateway.State.{Gateway, new_gateway, new_channel}
use pqcbridge_legacy_edge_cl.Result.{ok}
use pqcbridge_legacy_edge_cl.Dict.{get, put}
use pqcbridge_legacy_edge_cl.Encoding.Hex.{hex, from_hex}
use pqcbridge_legacy_edge_cl.Encoding.Base64.{b64decode}
use pqcbridge_legacy_edge_cl.Encoding.Utf8.{utf8_decode}
use pqcbridge_legacy_edge_cl.Json.{str}
use pqcbridge_legacy_edge_cl.Json.Loads.{loads}
use pqcbridge_legacy_edge_cl.Protocol.Fields.{require_str, field_is, b64d}
use pqcbridge_legacy_edge_cl.Protocol.Stream.{
  read_message, readline, accept_line, parse_line, take_line, ends_with_newline,
}
use pqcbridge_legacy_edge_cl.Protocol.Socket.{sendall}
use pqcbridge_legacy_edge_cl.Crypto.Library.{Library, Laws}
use pqcbridge_legacy_edge_cl.Crypto.Tags.{build_gateway_auth}
use pqcbridge_legacy_edge_cl.Crypto.Kem.{public_key_fingerprint, load_public_key, mlkem_encapsulate}
use pqcbridge_legacy_edge_cl.Config.{Host, local_gateway_key, cloud_public_key_sha256}
use pqcbridge_legacy_edge_cl.Replay.{Key, key_eq, Eq_key, last_seen, check_and_update}
use pqcbridge_legacy_edge_cl.Health.{health_body}
use pqcbridge_legacy_edge_cl.Health.Status.{gateway_status}
use pqcbridge_legacy_edge_cl.Gateway.Processing.{
  parse_mlkem_pubkey_reply, parse_mlkem_established_reply, verify_cloud_public_key, compare_digest,
}
use pqcbridge_legacy_edge_cl.Gateway.Channel.{
  Attempt, announce, check_offer, accept_offer, exchange, handshake, establish_once, try_establish,
  connect_and_establish, set_state, next_draw,
}
use pqcbridge_legacy_edge_cl.Gateway.Channel.Agreement.{Stands, connect_and_establish-Stands}
use pqcbridge_legacy_edge_cl.Gateway.Main.{Args, start, serve_all}
use pqcbridge_legacy_edge_cl.Gateway.Main.Ready.{start_ready, serve_all_refuses}
use pqcbridge_legacy_edge_cl.Examples.Toy.{toy, toy-Laws, toy_encrypt, sized, repeat}
use pqcbridge_legacy_edge_cl.Examples.Sample.{sample_gateway, sample_stream}

abbrev pub cloud_key : Bytes
cloud_key = repeat 1184 0

-- The toy library with a hash that tells the key of the cloud from all else.
abbrev pub telling : Library
telling = record toy { sha256 = λ plain. if text_eq plain cloud_key then 1 ∷ [] else [] }

pub telling-Laws : Laws telling
telling-Laws = record {
  encrypts = toy-Laws.encrypts;
  decrypt-encrypt = toy-Laws.decrypt-encrypt;
  encrypts_bytes = toy-Laws.encrypts_bytes;
  encrypt-decrypt = toy-Laws.encrypt-decrypt;
  decrypt_fails = toy-Laws.decrypt_fails;
  decapsulate-encapsulate = toy-Laws.decapsulate-encapsulate;
  ciphertext_length = toy-Laws.ciphertext_length;
  ciphertext_bytes = toy-Laws.ciphertext_bytes;
  public_key_round_trip = toy-Laws.public_key_round_trip;
  seed_round_trip = toy-Laws.seed_round_trip;
  derived_length = toy-Laws.derived_length;
}

abbrev pub pinned_host : Host
pinned_host = record {
  library = telling;
  nesting = 100;
  urandom = λ n. repeat 12 n;
  elapsed = λ n. n;
  environ = (codes "CLOUD_PUBLIC_KEY_SHA256", codes "01") ∷ [];
  files = λ path. none;
}

only_cloud_key :
    (raw : Bytes)
    → public_key_fingerprint telling raw ≡ cloud_public_key_sha256 pinned_host
    → raw ≡ telling.public_key cloud_key
unfolding public_key_fingerprint cloud_public_key_sha256 get text_eq hex
only_cloud_key raw h = elim (Bool-cases (text_eq raw cloud_key)) [
  | inl same ↦ (text_eq_iff raw cloud_key).0 same
  | inr other ↦ absurd (cc (rw other at h))
]

-- 1184 bytes are 1579 characters and the padding.
abbrev offer_line : Bytes
offer_line =
    codes "{\"type\":\"mlkem_pubkey\",\"cloud_id\":\"cloud-01\",\"public_key\":\""
    ++ repeat 1579 65
    ++ codes "=\"}"
    ++ 10 ∷ []

abbrev confirmation_line : Bytes
confirmation_line =
    codes "{\"type\":\"mlkem_established\",\"session_id\":\"0000000000000000\",\"status\":\"ok\"}"
    ++ 10 ∷ []

abbrev good_attempt : Attempt
good_attempt = record {
  reachable = true;
  incoming = record { buffer = offer_line ++ confirmation_line; stalls = false };
  faults = [];
  session_draw = repeat 8 0;
  kem_draw = [];
}

-- The first attempt finds nobody.
abbrev two_attempts : List Attempt
two_attempts = record good_attempt { reachable = false } ∷ good_attempt ∷ []

connects : (connect_and_establish pinned_host none two_attempts sample_gateway).0 ≡ ok true
unfolding connect_and_establish try_establish establish_once handshake announce accept_offer
    check_offer exchange set_state read_message readline accept_line parse_line loads take_line
    ends_with_newline utf8_decode parse_mlkem_pubkey_reply parse_mlkem_established_reply
    verify_cloud_public_key compare_digest public_key_fingerprint cloud_public_key_sha256
    load_public_key build_gateway_auth toy_encrypt sized mlkem_encapsulate require_str field_is
    text_eq get put b64d b64decode hex repeat sendall next_draw new_gateway new_channel
connects = refl

connect_and_establish-Stands_example :
    Stands pinned_host telling-Laws cloud_key only_cloud_key
      (connect_and_establish pinned_host none two_attempts sample_gateway).1.channel
connect_and_establish-Stands_example =
    connect_and_establish-Stands pinned_host telling-Laws cloud_key only_cloud_key none two_attempts
      sample_gateway connects

-- A gateway whose key is in the environment.
abbrev keyed_host : Host
keyed_host = record pinned_host {
  environ =
      (codes "CLOUD_PUBLIC_KEY_SHA256", codes "01")
      ∷ (codes "GATEWAY_KEY_HEX", repeat 64 b'5')
      ∷ [];
}

abbrev gateway_args : Args
gateway_args = record {
  gateway_id = codes "gw-01";
  listen_host = codes "0.0.0.0";
  listen_port = pos 5001;
  cloud_host = codes "127.0.0.1";
  cloud_port = pos 5002;
  health_port = pos 8001;
}

abbrev up : Gateway
up =
    (connect_and_establish keyed_host none two_attempts
      (new_gateway (new_channel (codes "gw-01") (repeat 32 85) true))).1

starts : start keyed_host gateway_args two_attempts ≡ ok up
unfolding start local_gateway_key connect_and_establish try_establish establish_once handshake
    announce accept_offer check_offer exchange set_state read_message readline accept_line
    parse_line loads take_line ends_with_newline utf8_decode parse_mlkem_pubkey_reply
    parse_mlkem_established_reply verify_cloud_public_key compare_digest public_key_fingerprint
    cloud_public_key_sha256 load_public_key build_gateway_auth toy_encrypt sized mlkem_encapsulate
    require_str field_is text_eq get put b64d b64decode hex from_hex repeat sendall next_draw
    new_gateway new_channel
starts = refl

only_that_key :
    (raw : Bytes)
    → public_key_fingerprint telling raw ≡ cloud_public_key_sha256 keyed_host
    → raw ≡ telling.public_key cloud_key
unfolding cloud_public_key_sha256 get text_eq
only_that_key raw h = only_cloud_key raw h

start_ready_example :
    Stands keyed_host telling-Laws cloud_key only_that_key up.channel
    × (get
          (health_body
            (λ e. codes "Error")
            (codes "gateway")
            (ok (gateway_status (λ unit field n. codes "0.0") up)))
          (codes "status")
        ≡ some (str (codes "ok")))
start_ready_example =
    start_ready keyed_host telling-Laws cloud_key only_that_key gateway_args two_attempts up
      (λ e. codes "Error") (λ unit field n. codes "0.0") starts

-- A gateway that has accepted the sequence 7 of a device, and then gets two connections.
abbrev after_seven : Gateway
after_seven = record sample_gateway {
  replay = record { last_sequence = (Key.text (codes "dev-01"), pos 7) ∷ [] };
}

seven_seen : pos 7 ≤ℤ last_seen after_seven.replay (Key.text (codes "dev-01"))
unfolding last_seen get key_eq text_eq
seven_seen = omega arith

serve_all_refuses_example :
    (check_and_update
      (Key.text (codes "dev-01"))
      (pos 7)
      (serve_all keyed_host (sample_stream ∷ sample_stream ∷ []) after_seven).replay).0
    ≡ false
serve_all_refuses_example =
    serve_all_refuses keyed_host (sample_stream ∷ sample_stream ∷ []) after_seven (codes "dev-01")
      (pos 7) seven_seen
