-- ===== src/Bridge/Session.antt =====
-- The session key at both ends.
use pqcbridge_legacy_edge_cl.Base.{◌≡◌, ◌⊎◌, inl, inr, [], ◌∷◌, Bytes, Text, codes, Eq_text}
use pqcbridge_legacy_edge_cl.Result.{ok, err, os_error}
use pqcbridge_legacy_edge_cl.Json.{Message, str}
use pqcbridge_legacy_edge_cl.Protocol.Fields.{
  encode_message, b64e, msg_mlkem_pubkey, msg_mlkem_established,
}
use pqcbridge_legacy_edge_cl.Protocol.Stream.{Stream, read_message}
use pqcbridge_legacy_edge_cl.Protocol.Socket.{sendall-cases}
use pqcbridge_legacy_edge_cl.Crypto.Kem.{mlkem_decapsulate, derive_session_key}
use pqcbridge_legacy_edge_cl.Config.{Host}
use pqcbridge_legacy_edge_cl.Cloud.Processing.{parse_mlkem_encaps}
use pqcbridge_legacy_edge_cl.Cloud.Server.{Link, on_cloud, on_sock, on_stream, agree}

module _ (host : Host) (gateway_id : Text) (l : Link) (message : Message) (session_id : Text)
    (ciphertext secret : Bytes) (stream : Stream)
    (arrives : read_message host.nesting l.stream ≡ (ok message, stream))
    (parsed : parse_mlkem_encaps message ≡ ok (session_id, ciphertext))
    (opened : mlkem_decapsulate host.library l.cloud.private_key ciphertext ≡ ok secret) where
  -- If the next message on the connection of a gateway carries a session id and a ciphertext that
  -- decapsulates to a secret, then the second half of the cloud's handshake returns that session
  -- id and the key that derive_session_key gives for the secret, or it raises OSError.
  pub agree_derives :
      ((agree host gateway_id l).0 ≡ ok (session_id, derive_session_key host.library secret))
      ⊎ ((agree host gateway_id l).0 ≡ err os_error)
  unfolding agree on_cloud on_sock on_stream
  agree_derives =
      let (sock, offered) =
        sendall-cases
          (encode_message (
            (codes "type", str msg_mlkem_pubkey)
            ∷ (codes "cloud_id", str l.cloud.cloud_id)
            ∷ (codes "public_key", str (b64e l.cloud.public_key_raw))
            ∷ []))
          l.sock in
      let (sock', confirmed) =
        sendall-cases
          (encode_message (
            (codes "type", str msg_mlkem_established)
            ∷ (codes "session_id", str session_id)
            ∷ (codes "status", str (codes "ok"))
            ∷ []))
          sock in
      elim offered [
        | inr (e, same) ↦ inr (rw e)
        | inl (e, grown) ↦ elim confirmed [
          | inl (k, more) ↦ inl (rw (e, arrives, parsed, opened, k))
          | inr (k, same) ↦ inr (rw (e, arrives, parsed, opened, k))
        ]
      ]
