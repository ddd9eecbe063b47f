-- ===== src/Bootstrap.antt =====
-- scripts/docker_bootstrap.py: the pin of the cloud's key is read from the cloud's logs and written
-- to .env before the gateway is started. What docker, the network and the clock answer is a record;
-- the state is what the script leaves behind.
pub mod Search
pub mod Pin
use pqcbridge_legacy_edge_cl.Base.{
  ℕ, zero, suc, ◌+◌, Bool, true, false, ◌&&◌, ◌||◌, Option, none, some, List, [], ◌∷◌, ◌++◌,
  if◌then◌else◌, leb, ◌==◌, Eq_nat, Eq_text, length, take, all, map, Bytes, Text, codes, ℤ, pos,
  leb_ℤ,
}
use pqcbridge_legacy_edge_cl.Result.{
  Exn, Result, ok, err, system_exit, called_process_error, value_error, os_error, type_error,
  attribute_error, or_raise, ◌>>=◌ as bind,
}
use pqcbridge_legacy_edge_cl.Exec.{Exec, lift, pure, raise, modify, ◌>>=◌, ◌>>◌}
use pqcbridge_legacy_edge_cl.Dict.{get}
use pqcbridge_legacy_edge_cl.Encoding.Utf8.{utf8_decode}
use pqcbridge_legacy_edge_cl.Json.{Json, null, bool, int, float, str, arr, obj, entries}
use pqcbridge_legacy_edge_cl.Json.Loads.{loads, after_word}
use pqcbridge_legacy_edge_cl.Encoding.Integer.{int_of_text}

abbrev is_some {ℓ} : {A : Type ℓ} → Option A → Bool
is_some none = false
is_some (some a) = true

-- what follows the last place where the word stands
unfoldable pub after_last : Text → Text → Option Text
after_last w [] = after_word w []
after_last w (c ∷ s) = elim (after_last w s) [ some rest ↦ some rest | none ↦ after_word w (c ∷ s) ]

-- s.rsplit(w, 1)[-1]
unfoldable pub rsplit_last : Text → Text → Text
rsplit_last w s = elim (after_last w s) [ none ↦ s | some rest ↦ rest ]

-- [0-9a-f]
abbrev pub is_hex : ℕ → Bool
is_hex c = (leb b'0' c && leb c b'9') || (leb b'a' c && leb c b'f')

abbrev pub fingerprint_length : ℕ
fingerprint_length = 64

unfoldable pub starts_run : Text → Bool
starts_run s =
    length (take fingerprint_length s) == fingerprint_length
    && all is_hex (take fingerprint_length s)

-- FINGERPRINT_RE.search
unfoldable pub search_run : Text → Option Text
search_run [] = none
search_run (c ∷ s) =
    let later = search_run s in
    if starts_run (c ∷ s) then some (take fingerprint_length (c ∷ s)) else later

abbrev pub label : Text
label = codes "ML-KEM public key SHA-256 fingerprint"

unfoldable pub extract_fingerprint : Text → Result Text
extract_fingerprint logs = or_raise (search_run (rsplit_last label logs)) system_exit

-- what `wait_until` polls before its deadline: the outcomes of the condition
unfoldable pub wait_until : List (Result Bool) → Result (Unit {0})
wait_until [] = err system_exit
wait_until (ok true ∷ polls) = ok tt
wait_until (ok false ∷ polls) = wait_until polls
wait_until (err e ∷ polls) = err e

-- The status that the health endpoint answers with, or the exception of `urlopen`.
abbrev pub cloud_health_ok : Result ℕ → Result Bool
cloud_health_ok (ok status) = ok (status == 200)
cloud_health_ok (err os_error) = ok false
cloud_health_ok (err e) = err e

module _ (truncate : Text → Result ℤ) (nesting : ℕ) where
  -- int(value), where `truncate` reads the text of a float
  int_of : Json → Result ℤ
  int_of (int n) = ok n
  int_of (bool b) = ok (if b then pos 1 else pos 0)
  int_of (float t) = truncate t
  int_of (str s) = or_raise (int_of_text s) value_error
  int_of _ = err type_error

  stored_in : Json → Result ℤ
  unfolding int_of
  stored_in (obj fs) = elim (get (entries fs) (codes "stored_readings")) [
    | none ↦ ok (pos 0)
    | some v ↦ int_of v
  ]
  stored_in _ = err attribute_error

  count_in : Result Bytes → Result ℤ
  unfolding stored_in
  count_in response = bind response λ raw.
      bind (or_raise (utf8_decode raw) value_error) λ text. bind (loads nesting text) stored_in

  -- except (OSError, ValueError)
  abbrev or_zero : Result ℤ → Result ℤ
  or_zero (ok n) = ok n
  or_zero (err os_error) = ok (pos 0)
  or_zero (err value_error) = ok (pos 0)
  or_zero (err e) = err e

  unfoldable pub cloud_readings_count : Result Bytes → Result ℤ
  unfolding count_in
  cloud_readings_count response = or_zero (count_in response)

  unfoldable pub has_readings : Result Bytes → Result Bool
  has_readings response = bind (cloud_readings_count response) λ n. ok (leb_ℤ (pos 1) n)

-- needle in text
unfoldable pub contains : Text → Text → Bool
contains needle [] = is_some (after_word needle [])
contains needle (c ∷ s) = is_some (after_word needle (c ∷ s)) || contains needle s

-- The answers of the surroundings, in the order in which the script asks: whether a command
-- succeeds, the polls of each wait, and the logs.
pub record Answers : Type 0 where
  pub cloud_starts : Bool
  pub health_polls : List (Result ℕ)
  pub cloud_logs : Result Text
  pub env_writable : Bool
  pub all_start : Bool
  pub log_polls : List (Result Text)
  pub reading_polls : List (Result Bytes)
  pub truncate : Text → Result ℤ
  pub nesting : ℕ

pub record Deployment : Type 0 where
  pub env_file : Option Text
  pub commands : List (List Text)

-- The command is issued, and may fail.
unfoldable pub run_compose : Bool → List Text → Exec Deployment (Unit {0})
run_compose succeeds args d = (
  if succeeds then ok tt else err called_process_error,
  record d { commands = d.commands ++ args ∷ [] },
)

abbrev pub start_cloud : List Text
start_cloud = codes "up" ∷ codes "-d" ∷ codes "cloud" ∷ []

abbrev pub start_all : List Text
start_all = codes "up" ∷ codes "-d" ∷ []

abbrev pub pin_line : Text → Text
pin_line fingerprint = codes "CLOUD_PUBLIC_KEY_SHA256=" ++ (fingerprint ++ 10 ∷ [])

unfoldable pub write_pin : Bool → Text → Exec Deployment (Unit {0})
write_pin writable fingerprint d =
    if writable
    then (ok tt, record d { env_file = some (pin_line fingerprint) })
    else (err os_error, d)

session_logged : Result Text → Result Bool
unfolding contains
session_logged logs = bind logs λ text. ok (contains (codes "ML-KEM-768 session") text)

-- The first half of `main`, up to the pin, and the second half.
unfoldable pub provision : Answers → Exec Deployment (Unit {0})
provision a = do
  run_compose a.cloud_starts start_cloud
  lift (wait_until (map cloud_health_ok a.health_polls))
  logs ← lift a.cloud_logs
  fingerprint ← lift (extract_fingerprint logs)
  write_pin a.env_writable fingerprint

unfoldable pub start_services : Answers → Exec Deployment (Unit {0})
unfolding session_logged
start_services a = do
  run_compose a.all_start start_all
  lift (wait_until (map session_logged a.log_polls))
  lift (wait_until (map (has_readings a.truncate a.nesting) a.reading_polls))

unfoldable pub main : Answers → Exec Deployment (Unit {0})
main a = do provision a; start_services a
