-- ===== src/Protocol/Stream/Framing.antt =====
-- A message that `encode_message` writes is the message that `read_message` reads.
use pqcbridge_legacy_edge_cl.Base.{
  ℕ, zero, suc, ◌+◌, ◌<◌, ◌≤◌, ◌≡◌, refl, ◌∙◌, arith, Bool, true, false, [], ◌∷◌, ◌++◌,
  append_assoc, all, ltb, ◌==◌, Eq_nat, length, length-append, Bytes, Text,
}
use pqcbridge_legacy_edge_cl.Result.{ok}
use pqcbridge_legacy_edge_cl.Encoding.Utf8.Ascii.{is_ascii, is_shown, utf8_decode-ascii}
use pqcbridge_legacy_edge_cl.Json.{obj, Message, of_entries, entries-of_entries}
use pqcbridge_legacy_edge_cl.Json.Dumps.{dumps}
use pqcbridge_legacy_edge_cl.Json.RoundTrip.{loads-dumps}
use pqcbridge_legacy_edge_cl.Json.RoundTrip.Printable.{IsPrintable, dumps_shown}
use pqcbridge_legacy_edge_cl.Protocol.Fields.{max_message_bytes, encode_message}
use pqcbridge_legacy_edge_cl.Protocol.Stream.{
  Stream, take_line, ends_with_newline, readline, json_line, as_object, parse_line, accept_line,
  read_message,
}

take_line-shown :
    (n : ℕ) (t rest : Bytes)
    → all is_shown t ≡ true
    → length t < n
    → take_line n (t ++ 10 ∷ rest) ≡ (t ++ 10 ∷ [], rest)
unfolding take_line
take_line-shown zero t rest h k = absurd (omega arith)
take_line-shown (suc n) [] rest h k = refl
take_line-shown (suc n) (b ∷ t) rest h k =
    let plain : (b == 10) ≡ false = ground arith in
    rw (take_line-shown n t rest (ground arith) (omega arith), plain)

ends_newline : (t : Bytes) → ends_with_newline (t ++ 10 ∷ []) ≡ true
unfolding ends_with_newline
ends_newline [] = refl
ends_newline (b ∷ []) = refl
ends_newline (b ∷ c ∷ t) = ends_newline (c ∷ t)

line_ascii : (t : Text) → all is_shown t ≡ true → all is_ascii (t ++ 10 ∷ []) ≡ true
line_ascii [] h = refl
line_ascii (c ∷ t) h = ground (arith, line_ascii t)

accept_nonempty :
    (nesting : ℕ) (t : Bytes)
    → length (t ++ 10 ∷ []) ≤ max_message_bytes
    → accept_line nesting (t ++ 10 ∷ []) ≡ parse_line nesting (t ++ 10 ∷ [])
unfolding accept_line
accept_nonempty nesting [] h = rw (ends_newline []) refl
accept_nonempty nesting (b ∷ t) h =
    let fits : ltb max_message_bytes (length (b ∷ (t ++ 10 ∷ []))) ≡ false = ground arith in
    rw (fits, ends_newline (b ∷ t))

-- The message is an object that `json.dumps` writes, within the nesting.
abbrev pub IsSendable : ℕ → Message → Type 0
IsSendable nesting message = IsPrintable nesting (obj (of_entries message))

parse_line-encode_message :
    (nesting : ℕ) (m : Message)
    → IsSendable nesting m
    → parse_line nesting (encode_message m) ≡ ok m
unfolding parse_line json_line as_object encode_message
parse_line-encode_message nesting m h =
    let text = dumps (obj (of_entries m)) in
    rw (
      utf8_decode-ascii (text ++ 10 ∷ [])
          (line_ascii text (dumps_shown nesting (obj (of_entries m)) h)),
      loads-dumps nesting (obj (of_entries m)) (10 ∷ []) h refl,
      entries-of_entries m,
    )

-- The next line on a stream is a message, and `rest` stands behind it.
abbrev pub arriving : Message → Bytes → Bool → Stream
arriving message rest stalls = record { buffer = encode_message message ++ rest; stalls = stalls }

readline-encode_message :
    (m : Message) (rest : Bytes) (stalls : Bool) (nesting : ℕ)
    → IsSendable nesting m
    → length (encode_message m) ≤ max_message_bytes
    → readline (max_message_bytes + 1) (arriving m rest stalls)
      ≡ (ok (encode_message m), record { buffer = rest; stalls = stalls })
unfolding readline encode_message
readline-encode_message m rest stalls nesting h k =
    let text = dumps (obj (of_entries m)) in
    rw (
      append_assoc text (10 ∷ []) rest,
      take_line-shown (max_message_bytes + 1) text rest (dumps_shown nesting (obj (of_entries m)) h)
          (omega (arith, length-append text (10 ∷ []))),
      ends_newline text,
    )

accept_line-encode_message :
    (nesting : ℕ) (m : Message)
    → IsSendable nesting m
    → length (encode_message m) ≤ max_message_bytes
    → accept_line nesting (encode_message m) ≡ ok m
unfolding encode_message
accept_line-encode_message nesting m h k =
    accept_nonempty nesting (dumps (obj (of_entries m))) k ∙ parse_line-encode_message nesting m h

-- For a message that JSON can hold within the nesting of the reader, with different keys, texts
-- without surrogates, integers of at most 4300 digits and floats written with a fraction and
-- without an exponent, and whose line is within the largest size, read_message returns the message
-- from the bytes of encode_message, and leaves on the stream what follows them.
pub read_message-encode_message :
    (nesting : ℕ) (m : Message) (rest : Bytes) (stalls : Bool)
    → IsSendable nesting m
    → length (encode_message m) ≤ max_message_bytes
    → read_message nesting (arriving m rest stalls)
      ≡ (ok m, record { buffer = rest; stalls = stalls })
unfolding read_message
read_message-encode_message nesting m rest stalls h k =
    rw (readline-encode_message m rest stalls nesting h k, accept_line-encode_message nesting m h k)
