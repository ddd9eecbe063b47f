-- ===== src/Protocol/Stream/Bounds.antt =====
-- What one call of `read_message` takes from the stream, and how it can fail.
use pqcbridge_legacy_edge_cl.Base.{
  ℕ, zero, suc, ◌+◌, ◌≤◌, ◌<◌, ◌≡◌, ◌⊎◌, inl, inr, refl, arith, Bool, true, false, [], ◌∷◌, ◌++◌,
  length, length-append, Option-cases, Bytes, ap, sym, ◌∙◌, Bool-cases, ◌==◌, Eq_nat,
}
use pqcbridge_legacy_edge_cl.Result.{
  Exn, ok, err, protocol_error, connection_closed, os_error, recursion_error, Result-cases,
}
use mathlib.Core.Path.{subst}
use pqcbridge_legacy_edge_cl.Json.{Json, Message, obj}
use pqcbridge_legacy_edge_cl.Json.Loads.Errors.{Tame, Tame-error, IsLoadError, loads-Tame}
use pqcbridge_legacy_edge_cl.Encoding.Utf8.{utf8_decode}
use pqcbridge_legacy_edge_cl.Protocol.Fields.{max_message_bytes}
use pqcbridge_legacy_edge_cl.Protocol.Stream.{
  Stream, take_line, readline, parse_line, accept_line, read_message, as_object, json_line,
}

-- The line and the rest are the buffer, and the line is within the limit.
pub take_line-parts :
    (n : ℕ) (s : Bytes)
    → ((take_line n s).0 ++ (take_line n s).1 ≡ s) × (length (take_line n s).0 ≤ n)
unfolding take_line
take_line-parts zero s = (refl, omega arith)
take_line-parts (suc n) [] = (refl, omega arith)
take_line-parts (suc n) (b ∷ s) =
    let (parts, short) = take_line-parts n s in
    elim (Bool-cases (b == 10)) [
      | inl newline ↦ rw newline (refl, omega arith)
      | inr other ↦ rw other (ap (λ (t : Bytes). b ∷ t) parts, omega arith)
    ]

length_of_parts :
    (n : ℕ) (s : Bytes) → length (take_line n s).0 + length (take_line n s).1 ≡ length s
length_of_parts n s =
    sym (length-append (take_line n s).0 (take_line n s).1)
    ∙ ap (λ (t : Bytes). length t) (take_line-parts n s).0

-- The stream behind a line.
abbrev behind_line : ℕ → Stream → Stream
behind_line limit s = record s { buffer = (take_line limit s.buffer).1 }

-- A line is returned, or the read stalls; either way the line is taken from the buffer.
readline-cases :
    (limit : ℕ) (s : Stream)
    → (readline limit s ≡ (ok (take_line limit s.buffer).0, behind_line limit s))
      ⊎ (readline limit s ≡ (err os_error, behind_line limit s))
unfolding readline
readline-cases limit s = ground arith

-- One call of read_message takes at most one byte more than the largest message from the stream,
-- and puts none back.
pub read_message_takes :
    (nesting : ℕ) (s : Stream)
    → (length s.buffer ≤ length (read_message nesting s).1.buffer + (max_message_bytes + 1))
      × (length (read_message nesting s).1.buffer ≤ length s.buffer)
unfolding read_message
read_message_takes nesting s =
    let total = length_of_parts (max_message_bytes + 1) s.buffer in
    let short = (take_line-parts (max_message_bytes + 1) s.buffer).1 in
    elim (readline-cases (max_message_bytes + 1) s) [
      | inl e ↦ rw e (omega arith, omega arith)
      | inr e ↦ rw e (omega arith, omega arith)
    ]

-- The exceptions of `read_message`: a clean end, a broken rule of the protocol, a socket error, and
-- RecursionError for JSON that is nested too deep.
abbrev pub is_read_error : Exn → Bool
is_read_error connection_closed = true
is_read_error protocol_error = true
is_read_error os_error = true
is_read_error recursion_error = true
is_read_error _ = false

as_object-errors : (v : Json) (e : Exn) → as_object v ≡ err e → is_read_error e ≡ true
unfolding as_object
as_object-errors (obj fs) e h = cc
as_object-errors v e h = ground arith

json_line-errors :
    (nesting : ℕ) (line : Bytes) (e : Exn) → json_line nesting line ≡ err e → IsLoadError e
unfolding json_line
json_line-errors nesting line e h = elim (Option-cases (utf8_decode line)) [
  | inl broken ↦ inl (ground arith)
  | inr (text, decoded) ↦
      Tame-error {A = Json} (subst Tame (rw decoded at h) (loads-Tame nesting text))
]

parse_line-errors :
    (nesting : ℕ) (line : Bytes) (e : Exn)
    → parse_line nesting line ≡ err e
    → is_read_error e ≡ true
unfolding parse_line
parse_line-errors nesting line e h = elim (Result-cases (json_line nesting line)) [
  | inl (v, parsed) ↦ as_object-errors v e (rw parsed at h)
  | inr (x, failed) ↦ ground (arith, json_line-errors nesting line x)
]

accept_line-errors :
    (nesting : ℕ) (line : Bytes) (e : Exn)
    → accept_line nesting line ≡ err e
    → is_read_error e ≡ true
unfolding accept_line
accept_line-errors nesting [] e h = ground arith
accept_line-errors nesting (b ∷ s) e h = ground (arith, parse_line-errors nesting (b ∷ s) e)

-- Every failure of read_message is a closed connection, a protocol error, a socket error or a
-- RecursionError.
pub read_message-errors :
    (nesting : ℕ) (s : Stream) (e : Exn)
    → (read_message nesting s).0 ≡ err e
    → is_read_error e ≡ true
unfolding read_message
read_message-errors nesting s e h = elim (readline-cases (max_message_bytes + 1) s) [
  | inl read ↦
      accept_line-errors nesting (take_line (max_message_bytes + 1) s.buffer).0 e (rw read at h)
  | inr failed ↦ ground (arith, (rw failed at h))
]

accept_line-nonempty :
    (nesting : ℕ) (line : Bytes) (m : Message) → accept_line nesting line ≡ ok m → 0 < length line
unfolding accept_line
accept_line-nonempty nesting [] m h = cc
accept_line-nonempty nesting (b ∷ s) m h = omega arith

-- A call of read_message that returns a message leaves a shorter buffer.
pub read_message-consumes :
    (nesting : ℕ) (s : Stream) (m : Message)
    → (read_message nesting s).0 ≡ ok m
    → length (read_message nesting s).1.buffer < length s.buffer
unfolding read_message
read_message-consumes nesting s m h =
    let total = length_of_parts (max_message_bytes + 1) s.buffer in
    elim (readline-cases (max_message_bytes + 1) s) [
      | inl read ↦ rw read (
          omega (
            arith,
            accept_line-nonempty nesting (take_line (max_message_bytes + 1) s.buffer).0 m
                (rw read at h),
          ))
      | inr failed ↦ absurd (ground (arith, (rw failed at h)))
    ]
