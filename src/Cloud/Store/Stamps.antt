-- ===== src/Cloud/Store/Stamps.antt =====
-- The devices and sequences of the stored readings, and what stays of their order.
use pqcbridge_legacy_edge_cl.Base.{
  ℕ, zero, suc, ◌≡◌, refl, Option, none, some, List, [], ◌∷◌, ◌++◌, All, All-append, drop, Eq_text,
  codes, ℤ,
}
use pqcbridge_legacy_edge_cl.Result.{Result, ok, err}
use pqcbridge_legacy_edge_cl.Dict.{get}
use pqcbridge_legacy_edge_cl.Json.{Json, int, Message}
use pqcbridge_legacy_edge_cl.Replay.{Key, hash_key}
use pqcbridge_legacy_edge_cl.Replay.Sequences.{Later, AscendByDevice}

abbrev numbered : Key → Option Json → Option (Key × ℤ)
numbered k (some (int n)) = some (k, n)
numbered k v = none

abbrev keyed : Result Key → Option Json → Option (Key × ℤ)
keyed (ok k) v = numbered k v
keyed (err e) v = none

abbrev of_fields : Option Json → Option Json → Option (Key × ℤ)
of_fields none v = none
of_fields (some device) v = keyed (hash_key device) v

-- The device and the sequence that a reading holds, if it holds both.
unfoldable pub stamp : Message → Option (Key × ℤ)
stamp reading = of_fields (get reading (codes "device_id")) (get reading (codes "sequence"))

abbrev pub with_stamp : Option (Key × ℤ) → List (Key × ℤ) → List (Key × ℤ)
with_stamp none l = l
with_stamp (some p) l = p ∷ l

abbrev pub stamps : List Message → List (Key × ℤ)
stamps [] = []
stamps (r ∷ rs) = with_stamp (stamp r) (stamps rs)

pub stamp-eq-some :
    (reading : Message) (device : Json) (k : Key) (n : ℤ)
    → get reading (codes "device_id") ≡ some device
    → hash_key device ≡ ok k
    → get reading (codes "sequence") ≡ some (int n)
    → stamp reading ≡ some (k, n)
unfolding stamp
stamp-eq-some reading device k n a b c = rw (a, b, c)

with_stamp_rest :
    (o : Option (Key × ℤ)) (l : List (Key × ℤ)) → AscendByDevice (with_stamp o l) → AscendByDevice l
with_stamp_rest none l h = h
with_stamp_rest (some p) l h = h.1

with_stamp-All :
    (P : Key × ℤ → Type 0) (o : Option (Key × ℤ)) (l : List (Key × ℤ))
    → All P (with_stamp o l)
    → All P l
with_stamp-All P none l h = h
with_stamp-All P (some p) l h = h.1

-- What is left of an ascending store is ascending.
pub drop-AscendByDevice :
    (n : ℕ) (rs : List Message) → AscendByDevice (stamps rs) → AscendByDevice (stamps (drop n rs))
drop-AscendByDevice zero rs h = h
drop-AscendByDevice (suc n) [] h = h
drop-AscendByDevice (suc n) (r ∷ rs) h =
    drop-AscendByDevice n rs (with_stamp_rest (stamp r) (stamps rs) h)

pub stamps-drop-All :
    (P : Key × ℤ → Type 0) (n : ℕ) (rs : List Message)
    → All P (stamps rs)
    → All P (stamps (drop n rs))
stamps-drop-All P zero rs h = h
stamps-drop-All P (suc n) [] h = h
stamps-drop-All P (suc n) (r ∷ rs) h =
    stamps-drop-All P n rs (with_stamp-All P (stamp r) (stamps rs) h)

with_stamp-append :
    (o : Option (Key × ℤ)) (l l' : List (Key × ℤ)) → with_stamp o (l ++ l') ≡ with_stamp o l ++ l'
with_stamp-append none l l' = refl
with_stamp-append (some p) l l' = refl

pub stamps-append :
    (rs : List Message) (r : Message) (p : Key × ℤ)
    → stamp r ≡ some p
    → stamps (rs ++ r ∷ []) ≡ stamps rs ++ p ∷ []
stamps-append [] r p h = rw h
stamps-append (x ∷ rs) r p h =
    rw (stamps-append rs r p h) (with_stamp-append (stamp x) (stamps rs) (p ∷ []))

-- A stamp behind an ascending list that is later than all of it.
pub append-AscendByDevice :
    (l : List (Key × ℤ)) (p : Key × ℤ)
    → AscendByDevice l
    → All (λ q. Later q.0 q.1 p) l
    → AscendByDevice (l ++ p ∷ [])
append-AscendByDevice [] p h k = (tt, tt)
append-AscendByDevice (q ∷ l) p h k =
    (All-append (Later q.0 q.1) l (p ∷ []) h.0 (k.0, tt), append-AscendByDevice l p h.1 k.1)
