-- ===== src/Json.antt =====
-- JSON values as Python's `json` module has them. A float is kept as the text of its number: the
-- program never computes with a float that it receives. An object's fields stand in the order of
-- the `dict`.
pub mod Dumps
pub mod Spaced
pub mod Loads
pub mod Strings
pub mod Injective
pub mod RoundTrip
mod Tests
use pqcbridge_legacy_edge_cl.Base.{Bool, List, [], ◌∷◌, ◌≡◌, refl, ap, Text, ℤ}
use pqcbridge_legacy_edge_cl.Dict.{Dict}

mutual
  pub data Json : Type 0 where
    null : Json
    bool : Bool → Json
    int : ℤ → Json
    float : Text → Json
    str : Text → Json
    arr : Items → Json
    obj : Fields → Json

  pub data Items : Type 0 where
    nil : Items
    cons : Json → Items → Items

  pub data Fields : Type 0 where
    end : Fields
    field : Text → Json → Fields → Fields

-- A message is the `dict` of an object.
abbrev pub Message : Type 0
Message = Dict Text Json

abbrev pub entries : Fields → Message
entries end = []
entries (field k v fs) = (k, v) ∷ entries fs

abbrev pub of_entries : Message → Fields
of_entries [] = end
of_entries ((k, v) ∷ d) = field k v (of_entries d)

abbrev pub elems : Items → List Json
elems nil = []
elems (cons v vs) = v ∷ elems vs

abbrev pub of_elems : List Json → Items
of_elems [] = nil
of_elems (v ∷ vs) = cons v (of_elems vs)

pub entries-of_entries : (d : Message) → entries (of_entries d) ≡ d
entries-of_entries [] = refl
entries-of_entries ((k, v) ∷ d) = ap (λ (r : Message). (k, v) ∷ r) (entries-of_entries d)

pub elems-of_elems : (l : List Json) → elems (of_elems l) ≡ l
elems-of_elems [] = refl
elems-of_elems (v ∷ l) = ap (λ (r : List Json). v ∷ r) (elems-of_elems l)
