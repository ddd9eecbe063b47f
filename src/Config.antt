-- ===== src/Config.antt =====
-- common/config.py: what a process takes from its surroundings, and the registries of keys.
pub mod Keys
pub mod Settings
use pqcbridge_legacy_edge_cl.Base.{
  ℕ, Option, none, some, [], ◌∷◌, ◌==◌, Eq_nat, Eq_text, length, Bytes, Text, codes,
}
use pqcbridge_legacy_edge_cl.Result.{
  Result, ok, err, os_error, key_error, type_error, value_error, attribute_error, or_raise, check,
  ◌>>=◌, ◌>>◌,
}
use pqcbridge_legacy_edge_cl.Dict.{Dict, get, put}
use pqcbridge_legacy_edge_cl.Encoding.Hex.{from_hex}
use pqcbridge_legacy_edge_cl.Json.{Json, str, obj, Message, entries}
use pqcbridge_legacy_edge_cl.Json.Loads.{loads}
use pqcbridge_legacy_edge_cl.Crypto.Library.{Library, key_length}

-- The surroundings of a process: the third-party library, the interpreter's recursion limit, the
-- draws of `os.urandom` and `secrets` in their order, the durations that `time.perf_counter` shows
-- (in millionths of a second), the environment variables, and the texts of the files that can be
-- read.
pub record Host : Type 0 where
  pub library : Library
  pub nesting : ℕ
  pub urandom : ℕ → Bytes
  pub elapsed : ℕ → ℕ
  pub environ : Dict Text Text
  pub files : Text → Option Text

abbrev demo_device_keys_file : Text
demo_device_keys_file = codes "common/demo_device_keys.json"

abbrev demo_gateway_keys_file : Text
demo_gateway_keys_file = codes "common/demo_gateway_keys.json"

-- bytes.fromhex(key_hex)
fromhex : Json → Result Bytes
unfolding from_hex
fromhex (str s) = or_raise (from_hex s) value_error
fromhex _ = err type_error

-- the loop of `_load_keys_json`
load_entries : Dict Text Bytes → Message → Result (Dict Text Bytes)
unfolding fromhex
load_entries registry [] = ok registry
load_entries registry ((key_id, key_hex) ∷ rest) = do
  key ← fromhex key_hex
  check (length key == key_length) value_error
  load_entries (put registry key_id key) rest

-- json.loads(raw_json).items()
items_of : Json → Result Message
items_of (obj fs) = ok (entries fs)
items_of _ = err attribute_error

unfoldable pub load_keys_json : ℕ → Text → Result (Dict Text Bytes)
unfolding load_entries items_of
load_keys_json nesting raw_json = do
  document ← loads nesting raw_json
  items ← items_of document
  load_entries [] items

-- Path(…).read_text()
abbrev read_text : Host → Text → Result Text
read_text host path = or_raise (host.files path) os_error

from_file : Host → Option Text → Text → Result Text
from_file host none demo_path = read_text host demo_path
from_file host (some path) demo_path = read_text host path

-- The document that `_keys_from_env_or_file` picks.
keys_document : Host → Option Text → Option Text → Text → Result Text
unfolding from_file
keys_document host none file demo_path = from_file host file demo_path
keys_document host (some inline) file demo_path = ok inline

unfoldable pub keys_from_env_or_file : Host → Text → Text → Text → Result (Dict Text Bytes)
unfolding keys_document
keys_from_env_or_file host inline_env file_env demo_path = do
  document ← keys_document host (get host.environ inline_env) (get host.environ file_env) demo_path
  load_keys_json host.nesting document

module _ (host : Host) where
  unfoldable pub device_keys : Result (Dict Text Bytes)
  device_keys =
      keys_from_env_or_file host (codes "DEVICE_KEYS_JSON") (codes "DEVICE_KEYS_FILE")
        demo_device_keys_file

  unfoldable pub device_key : Text → Result Bytes
  device_key device_id = do keys ← device_keys; or_raise (get keys device_id) key_error

  unfoldable pub gateway_keys : Result (Dict Text Bytes)
  gateway_keys =
      keys_from_env_or_file host (codes "GATEWAY_KEYS_JSON") (codes "GATEWAY_KEYS_FILE")
        demo_gateway_keys_file

  unfoldable pub gateway_key : Text → Result Bytes
  gateway_key gateway_id = do keys ← gateway_keys; or_raise (get keys gateway_id) key_error

  -- a key of this process: the variable's, whatever its length, or the demo one
  own_key : Option Text → Result (Dict Text Bytes) → Text → Result Bytes
  own_key none registry id = do keys ← registry; or_raise (get keys id) key_error
  own_key (some raw) registry id = or_raise (from_hex raw) value_error

  unfoldable pub local_device_key : Result Bytes
  unfolding own_key
  local_device_key =
      own_key (get host.environ (codes "DEVICE_KEY_HEX")) device_keys (codes "dev-01")

  unfoldable pub local_gateway_key : Result Bytes
  unfolding own_key
  local_gateway_key =
      own_key (get host.environ (codes "GATEWAY_KEY_HEX")) gateway_keys (codes "gw-01")

  unfoldable pub cloud_public_key_sha256 : Text
  cloud_public_key_sha256 = elim (get host.environ (codes "CLOUD_PUBLIC_KEY_SHA256")) [
    | none ↦ []
    | some pin ↦ pin
  ]
