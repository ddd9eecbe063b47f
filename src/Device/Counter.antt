-- ===== src/Device/Counter.antt =====
-- device/state.py: the sequence counter in a file. The text is none where the file is missing or
-- cannot be read.
pub mod Saving
pub mod RoundTrip
use pqcbridge_legacy_edge_cl.Base.{Option, none, some, List, [], ◌∷◌, Text, ℤ, pos}
use pqcbridge_legacy_edge_cl.Result.{ok, err, os_error}
use pqcbridge_legacy_edge_cl.Exec.{Exec, lift, ◌>>=◌}
use pqcbridge_legacy_edge_cl.Encoding.Integer.{int_of_text, str_int}

-- The file, and how the next writes of it go: `none` is a write that works, and `some left` one that
-- raises OSError and leaves `left`, which is anything, as the write is not atomic. Behind the end of
-- the list every write works.
pub record Disk : Type 0 where
  pub file : Option Text
  pub writes : List (Option (Option Text))

abbrev or_zero : Option ℤ → ℤ
or_zero none = pos 0
or_zero (some n) = n

unfoldable pub load_sequence : Option Text → ℤ
unfolding int_of_text
load_sequence none = pos 0
load_sequence (some text) = or_zero (int_of_text text)

-- path.parent.mkdir(parents=True, exist_ok=True) and path.write_text(text)
unfoldable pub write_with : List (Option (Option Text)) → Text → Exec Disk (Unit {0})
write_with [] text d = (ok tt, record d { file = some text })
write_with (none ∷ later) text d = (ok tt, record { file = some text; writes = later })
write_with (some left ∷ later) text d = (err os_error, record { file = left; writes = later })

unfoldable pub save_sequence : ℤ → Exec Disk (Unit {0})
unfolding write_with str_int
save_sequence sequence = do text ← lift (str_int sequence); λ d. write_with d.writes text d
