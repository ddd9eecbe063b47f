-- ===== src/Examples/Common.antt =====
-- The theorems on the parts that the servers share, at concrete inputs.
use pqcbridge_legacy_edge_cl.Base.{
  ◌+◌, ◌≤◌, ◌≡◌, refl, true, List, [], ◌∷◌, length, text_eq, Eq_text, Eq_nat, ℤ, pos,
}
use pqcbridge_legacy_edge_cl.Result.{err, protocol_error}
use pqcbridge_legacy_edge_cl.Dict.{get, put}
use pqcbridge_legacy_edge_cl.Json.Loads.{loads}
use pqcbridge_legacy_edge_cl.Encoding.Utf8.{utf8_decode}
use pqcbridge_legacy_edge_cl.Protocol.Fields.{max_message_bytes}
use pqcbridge_legacy_edge_cl.Protocol.Stream.{
  read_message, readline, accept_line, parse_line, take_line, ends_with_newline,
}
use pqcbridge_legacy_edge_cl.Protocol.Stream.Bounds.{
  read_message_takes, read_message-errors, is_read_error,
}
use pqcbridge_legacy_edge_cl.Replay.{Key, key_eq, check_and_update, last_seen, new_guard}
use pqcbridge_legacy_edge_cl.Replay.Sequences.{accepted, AscendByDevice, accepted-AscendByDevice}
use pqcbridge_legacy_edge_cl.Cloud.Store.{keep_last}
use pqcbridge_legacy_edge_cl.Cloud.Store.Retention.{add_all, readings-add_all}
use pqcbridge_legacy_edge_cl.Examples.Sample.{
  sample_device, sample_reading, sample_stream, small_store,
}

read_message_takes_example :
    (length sample_stream.buffer
      ≤ length (read_message 9 sample_stream).1.buffer + (max_message_bytes + 1))
    × (length (read_message 9 sample_stream).1.buffer ≤ length sample_stream.buffer)
read_message_takes_example = read_message_takes 9 sample_stream

refuses_line : (read_message 9 sample_stream).0 ≡ err protocol_error
unfolding read_message readline accept_line parse_line loads take_line ends_with_newline utf8_decode
refuses_line = refl

read_message-errors_example : is_read_error protocol_error ≡ true
read_message-errors_example = read_message-errors 9 sample_stream protocol_error refuses_line

abbrev calls : List (Key × ℤ)
calls =
    (Key.text sample_device, pos 1)
    ∷ (Key.nothing, pos 4)
    ∷ (Key.text sample_device, pos 1)
    ∷ (Key.text sample_device, pos 3)
    ∷ []

accepted-AscendByDevice_example : AscendByDevice (accepted new_guard calls)
accepted-AscendByDevice_example = accepted-AscendByDevice new_guard calls

accepted-calls :
    accepted new_guard calls
    ≡ (Key.text sample_device, pos 1) ∷ (Key.nothing, pos 4) ∷ (Key.text sample_device, pos 3) ∷ []
unfolding accepted check_and_update last_seen get put key_eq text_eq
accepted-calls = refl

readings-add_all_example :
    (add_all (sample_reading ∷ sample_reading ∷ []) small_store).readings
    ≡ keep_last 2 (sample_reading ∷ sample_reading ∷ sample_reading ∷ [])
unfolding keep_last
readings-add_all_example = readings-add_all (sample_reading ∷ sample_reading ∷ []) small_store refl
