-- ===== src/Metrics.antt =====
-- common/metrics.py: counters and observations. A method runs under the object's lock, so it is one
-- step. An observed value is a whole number of millionths of its unit, and `minimum` is None where
-- the code has infinity.
use pqcbridge_legacy_edge_cl.Base.{
  ℕ, ◌+◌, ◌*◌, ◌/◌, ◌%◌, Option, none, some, [], ◌∷◌, ltb, if◌then◌else◌, ◌==◌, Eq_nat, Eq_text,
  Text, text_eq,
}
use pqcbridge_legacy_edge_cl.Dict.{Dict, get, put}

pub record Stats : Type 0 where
  pub count : ℕ
  pub total : ℕ
  pub minimum : Option ℕ
  pub maximum : ℕ
  pub unit : Text

unfoldable pub new_stats : Text → Stats
new_stats unit = record { count = 0; total = 0; minimum = none; maximum = 0; unit = unit }

abbrev lower : Option ℕ → ℕ → ℕ
lower none value = value
lower (some m) value = if ltb value m then value else m

unfoldable pub add : Stats → ℕ → Stats
add s value = record s {
  count = s.count + 1;
  total = s.total + value;
  minimum = some (lower s.minimum value);
  maximum = if ltb s.maximum value then value else s.maximum;
}

pub record Metrics : Type 0 where
  pub counters : Dict Text ℕ
  pub stats : Dict Text Stats

abbrev pub new_metrics : Metrics
new_metrics = record { counters = []; stats = [] }

-- self._counters.get(name, 0)
unfoldable pub counter : Metrics → Text → ℕ
counter m name = elim (get m.counters name) [ none ↦ 0 | some n ↦ n ]

unfoldable pub inc : Text → ℕ → Metrics → Metrics
inc name amount m = record m { counters = put m.counters name (counter m name + amount) }

-- The statistics that an observation goes to: new ones for a new name or another unit.
unfoldable pub stats_for : Option Stats → Text → Stats
unfolding new_stats
stats_for none unit = new_stats unit
stats_for (some s) unit = if text_eq s.unit unit then s else new_stats unit

unfoldable pub observe : Text → ℕ → Text → Metrics → Metrics
observe name value unit m = record m {
  stats = put m.stats name (add (stats_for (get m.stats name) unit) value);
}

pub record Summary : Type 0 where
  pub count : ℕ
  pub average : Option ℕ
  pub minimum : Option ℕ
  pub maximum : Option ℕ
  pub unit : Text

-- The mean in millionths, rounded to the nearest one and from the middle to the even one.
unfoldable pub mean : ℕ → ℕ → ℕ
mean total count =
    let low = total / count in
    let rest = total % count * 2 in
    if ltb rest count
    then low
    else if ltb count rest
    then low + 1
    else if low % 2 == 0
    then low
    else low + 1

unfoldable pub summary : Stats → Summary
summary s =
    if s.count == 0
    then record { count = 0; average = none; minimum = none; maximum = none; unit = s.unit }
    else record {
      count = s.count;
      average = some (mean s.total s.count);
      minimum = s.minimum;
      maximum = some s.maximum;
      unit = s.unit;
    }

abbrev summarise : Dict Text Stats → Dict Text Summary
summarise [] = []
summarise ((name, s) ∷ rest) = (name, summary s) ∷ summarise rest

pub record Snapshot : Type 0 where
  pub counters : Dict Text ℕ
  pub timings : Dict Text Summary

unfoldable pub snapshot : Metrics → Snapshot
unfolding summary
snapshot m = record { counters = m.counters; timings = summarise m.stats }
