-- ===== src/Json/Equality.antt =====
-- `Value == Value`
use policyai.Prelude.{text_eq, Bool, true, false, ◌&&◌, none, some, if◌then◌else◌}
use policyai.Json.{
  Platform, Value, null, bool, number, string, array, object, Values, nil, cons, Map, end, entry,
  get,
}

unfoldable pub bool_eq : Bool → Bool → Bool
bool_eq true b = b
bool_eq false true = false
bool_eq false false = true

module _ {P : Platform} where
  size : Map P → Map P → Bool
  size end end = true
  size (entry _ _ m) (entry _ _ n) = size m n
  size _ _ = false

  unfoldable mutual
    unfolding size

    -- `PartialEq for Value`: objects are equal if they have the same entries, in any order.
    pub value_eq : Value P → Value P → Bool
    value_eq null null = true
    value_eq (bool a) (bool b) = bool_eq a b
    value_eq (number a) (number b) = P.number_eq a b
    value_eq (string s) (string t) = text_eq s t
    value_eq (array vs) (array ws) = values_eq vs ws
    value_eq (object m) (object n) = size m n && entries_in m n
    value_eq _ _ = false

    pub values_eq : Values P → Values P → Bool
    values_eq nil nil = true
    values_eq (cons v vs) (cons w ws) = value_eq v w && values_eq vs ws
    values_eq _ _ = false

    pub entries_in : Map P → Map P → Bool
    entries_in end n = true
    entries_in (entry k v m) n = elim (get n k) [
      | none ↦ false
      | some w ↦ value_eq v w && entries_in m n
    ]

  -- `Vec::contains`
  unfoldable pub contains_value : Values P → Value P → Bool
  contains_value nil v = false
  contains_value (cons w vs) v = if value_eq w v then true else contains_value vs v
