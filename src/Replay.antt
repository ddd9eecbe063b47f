-- ===== src/Replay.antt =====
-- common/replay.py: the highest accepted sequence of each device. A method runs under the object's
-- lock, so it is one step.
pub mod Sequences
pub mod Once
use pqcbridge_legacy_edge_cl.Base.{
  Bool, true, false, ◌&&◌, ◌≡◌, ◌↔◌, Option, none, some, [], arith, if◌then◌else◌, Text, text_eq,
  text_eq_iff, Eq, ℤ, pos, leb_ℤ, int_eq, int_eq_iff,
}
use pqcbridge_legacy_edge_cl.Result.{Result, ok, err, type_error}
use pqcbridge_legacy_edge_cl.Dict.{Dict, get, put}
use pqcbridge_legacy_edge_cl.Json.{Json, null, bool, int, float, str, arr, obj}

-- What a `dict` of the program is keyed by: a value of a message that Python can hash. `True` and 1
-- are one key in Python, and so are `False` and 0. A float stands by the text of its number: Python
-- also identifies floats of one value, with each other and with integers, which is not modelled.
pub data Key : Type 0 where
  text number : Text → Key
  whole : ℤ → Key
  nothing : Key

unfoldable pub hash_key : Json → Result Key
hash_key (str s) = ok (text s)
hash_key (int n) = ok (whole n)
hash_key (bool b) = ok (whole (if b then pos 1 else pos 0))
hash_key (float t) = ok (number t)
hash_key null = ok nothing
hash_key _ = err type_error

unfoldable pub key_eq : Key → Key → Bool
key_eq (text s) (text t) = text_eq s t
key_eq (number s) (number t) = text_eq s t
key_eq (whole m) (whole n) = int_eq m n
key_eq nothing nothing = true
key_eq _ _ = false

pub key_eq_iff : (a b : Key) → (key_eq a b ≡ true) ↔ (a ≡ b)
unfolding key_eq
key_eq_iff (text s) (text t) = ground (arith, text_eq_iff s t)
key_eq_iff (number s) (number t) = ground (arith, text_eq_iff s t)
key_eq_iff (whole m) (whole n) = ground (arith, int_eq_iff m n)
key_eq_iff a b = ground arith

instance abbrev pub Eq_key : Eq Key
Eq_key = record { beq = key_eq; beq_iff = key_eq_iff }

pub record ReplayGuard : Type 0 where
  pub last_sequence : Dict Key ℤ

abbrev pub new_guard : ReplayGuard
new_guard = record { last_sequence = [] }

-- self._last_sequence.get(device_id, 0)
unfoldable pub last_seen : ReplayGuard → Key → ℤ
last_seen g device_id = elim (get g.last_sequence device_id) [ none ↦ pos 0 | some n ↦ n ]

-- The result, and the guard after the call.
unfoldable pub check_and_update : Key → ℤ → ReplayGuard → Bool × ReplayGuard
check_and_update device_id sequence g =
    if leb_ℤ sequence (last_seen g device_id)
    then (false, g)
    else (true, record { last_sequence = put g.last_sequence device_id sequence })
