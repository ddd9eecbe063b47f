-- ===== src/Examples/Devices.antt =====
-- The theorems on the device, at concrete inputs.
use pqcbridge_legacy_edge_cl.Base.{
  ℕ, suc, zero, ◌+◌, ◌≤◌, ◌≡◌, refl, ap, arith, none, some, List, [], ◌∷◌, All, length, Text, codes,
  pos,
}
use pqcbridge_legacy_edge_cl.Result.{ok, err, keyboard_interrupt}
use pqcbridge_legacy_edge_cl.Encoding.Decimal.{show_nat, low_digits, reversed_onto}
use pqcbridge_legacy_edge_cl.Encoding.Integer.{max_digits}
use pqcbridge_legacy_edge_cl.Encoding.Utf8.{utf8_encode}
use pqcbridge_legacy_edge_cl.Json.RoundTrip.Printable.{IsShort}
use pqcbridge_legacy_edge_cl.Device.Counter.{Disk, load_sequence, save_sequence}
use pqcbridge_legacy_edge_cl.Device.Counter.RoundTrip.{load_sequence-save_sequence}
use pqcbridge_legacy_edge_cl.Device.Client.{Device, send_all}
use pqcbridge_legacy_edge_cl.Device.Client.Sending.{Progress, send_all-Progress}
use pqcbridge_legacy_edge_cl.Device.Client.Delivery.{sequences, send_all_delivers}
use pqcbridge_legacy_edge_cl.Examples.Toy.{toy-Laws, repeat}
use pqcbridge_legacy_edge_cl.Examples.Sample.{sample_host, sample_key, sample_device}

short : length (show_nat 41) ≤ max_digits
unfolding show_nat low_digits reversed_onto
short = omega arith

abbrev blank : Disk
blank = record { file = none; writes = [] }

load_sequence-save_sequence_example :
    let (r, disk') = save_sequence (pos 41) blank in
    (r ≡ ok tt) × (load_sequence disk'.file ≡ pos 41)
load_sequence-save_sequence_example = load_sequence-save_sequence 41 blank short refl

abbrev resumed : Device
resumed = record {
  device_id = sample_device;
  key = sample_key;
  sequence = pos 41;
  disk = record { file = some (codes "41"); writes = none ∷ some none ∷ [] };
  sock = record { sent = []; faults = [] };
  drawn = 0;
}

abbrev two_rounds : List (Text × Text)
two_rounds =
    (codes "2026-01-01T00:00:00+00:00", codes "21.5")
    ∷ (codes "2026-01-01T00:00:05+00:00", codes "21.6")
    ∷ []

send_all-Progress_example :
    Progress sample_host two_rounds resumed (send_all sample_host two_rounds resumed)
send_all-Progress_example = send_all-Progress sample_host two_rounds resumed

drawn_length : (n c : ℕ) → length (repeat n c) ≡ n
unfolding repeat
drawn_length zero c = refl
drawn_length (suc n) c = ap suc (drawn_length n c)

device_encodes : utf8_encode sample_device ≡ some sample_device
unfolding utf8_encode
device_encodes = refl

-- The same device on a disk whose writes work.
abbrev steady : Device
steady = record resumed { disk = blank }

two-All-IsShort : All IsShort (sequences (pos 41) two_rounds)
unfolding show_nat low_digits reversed_onto
two-All-IsShort = (omega arith, (omega arith, tt))

send_all_delivers_example :
    ((send_all sample_host two_rounds steady).0 ≡ err keyboard_interrupt)
    × (length (send_all sample_host two_rounds steady).1.sock.sent ≡ 0 + 2)
send_all_delivers_example =
    send_all_delivers sample_host toy-Laws sample_device (drawn_length 12) two_rounds steady
      device_encodes (drawn_length 32 5) refl refl two-All-IsShort
