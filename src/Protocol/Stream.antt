-- ===== src/Protocol/Stream.antt =====
-- common/protocol.py, `read_message`, over a buffered socket stream. `buffer` is what the peer sends
-- from here on; behind it the peer has closed the connection, or (`stalls`) it stays open and silent
-- and the read ends by the socket's timeout. `nesting` is the interpreter's recursion limit.
pub mod Bounds
pub mod Framing
use pqcbridge_legacy_edge_cl.Base.{
  ℕ, zero, suc, ◌+◌, Bool, true, false, ◌||◌, Option, none, some, List, [], ◌∷◌, ltb, ◌==◌, Eq_nat,
  if◌then◌else◌, length, Bytes, Text,
}
use pqcbridge_legacy_edge_cl.Result.{
  Exn, Result, ok, err, protocol_error, connection_closed, os_error, value_error, or_raise, rescue,
  ◌>>=◌,
}
use pqcbridge_legacy_edge_cl.Exec.{Exec, lift, raise}
use pqcbridge_legacy_edge_cl.Exec
use pqcbridge_legacy_edge_cl.Encoding.Utf8.{utf8_decode}
use pqcbridge_legacy_edge_cl.Json.{Json, null, bool, int, float, str, arr, obj, Message, entries}
use pqcbridge_legacy_edge_cl.Json.Loads.{loads}
use pqcbridge_legacy_edge_cl.Protocol.Fields.{max_message_bytes}

pub record Stream : Type 0 where
  pub buffer : Bytes
  pub stalls : Bool

-- What `readline(limit)` takes from the buffer, and what it leaves.
unfoldable pub take_line : ℕ → Bytes → Bytes × Bytes
take_line zero s = ([], s)
take_line (suc n) [] = ([], [])
take_line (suc n) (b ∷ s) =
    let (line, rest) = take_line n s in if b == 10 then (b ∷ [], s) else (b ∷ line, rest)

unfoldable pub ends_with_newline : Bytes → Bool
ends_with_newline [] = false
ends_with_newline (b ∷ []) = b == 10
ends_with_newline (b ∷ c ∷ s) = ends_with_newline (c ∷ s)

-- stream.readline(limit)
unfoldable pub readline : ℕ → Exec Stream Bytes
unfolding take_line ends_with_newline
readline limit s =
    let (line, rest) = take_line limit s.buffer in
    if ends_with_newline line || length line == limit
    then (ok line, record s { buffer = rest })
    else if s.stalls
    then (err os_error, record s { buffer = rest })
    else (ok line, record s { buffer = rest })

as_object : Json → Result Message
as_object (obj fs) = ok (entries fs)
as_object _ = err protocol_error

abbrev not_json : Exn → Exn
not_json value_error = protocol_error
not_json e = e

json_line : ℕ → Bytes → Result Json
json_line nesting line = do text ← or_raise (utf8_decode line) value_error; loads nesting text

unfoldable pub parse_line : ℕ → Bytes → Result Message
unfolding json_line as_object
parse_line nesting line = do message ← rescue (json_line nesting line) not_json; as_object message

-- The checks of `read_message` on the line that was read.
unfoldable pub accept_line : ℕ → Bytes → Result Message
accept_line nesting [] = err connection_closed
accept_line nesting (b ∷ s) =
    if ltb max_message_bytes (length (b ∷ s))
    then err protocol_error
    else if ends_with_newline (b ∷ s)
    then parse_line nesting (b ∷ s)
    else err protocol_error

unfoldable pub read_message : ℕ → Exec Stream Message
read_message nesting =
    Exec.◌>>=◌ (readline (max_message_bytes + 1)) (λ line. lift (accept_line nesting line))
