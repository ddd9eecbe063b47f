-- ===== src/Device/Counter/RoundTrip.antt =====
-- What `save_sequence` writes is what `load_sequence` reads.
use pqcbridge_legacy_edge_cl.Base.{ℕ, ◌≤◌, ◌≡◌, refl, [], length, pos}
use pqcbridge_legacy_edge_cl.Result.{ok}
use pqcbridge_legacy_edge_cl.Encoding.Decimal.{show_nat, show_int}
use pqcbridge_legacy_edge_cl.Encoding.Integer.{max_digits}
use pqcbridge_legacy_edge_cl.Encoding.Integer.RoundTrip.{int_of_text-show_nat}
use pqcbridge_legacy_edge_cl.Device.Counter.{Disk, load_sequence, save_sequence}
use pqcbridge_legacy_edge_cl.Device.Counter.Saving.{save_sequence_works}

-- On a disk on which no write fails, save_sequence of a natural number of at most 4300 decimal
-- digits returns, and load_sequence then reads that number.
pub load_sequence-save_sequence :
    (n : ℕ) (disk : Disk)
    → length (show_nat n) ≤ max_digits
    → disk.writes ≡ []
    → let (r, disk') = save_sequence (pos n) disk in
      (r ≡ ok tt) × (load_sequence disk'.file ≡ pos n)
unfolding load_sequence show_int
load_sequence-save_sequence n disk h works =
    rw (save_sequence_works (pos n) disk h works) (refl, rw (int_of_text-show_nat n h))
