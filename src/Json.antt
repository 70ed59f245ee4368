-- ===== src/Json.antt =====
-- The values of `serde_json` that the sources match on and build. What is not code of
-- this repository is a parameter, `Platform`: the types `f64`, `serde_json::Number` and the chat
-- messages of claudius, with the operations that the sources call. The crate is built with `preserve_order`, so a map keeps the order of insertion.
pub mod Maps
pub mod Equality
use policyai.Prelude.{
  ℕ, Text, text_eq, ◌≡◌, Bool, Option, none, some, List, [], ◌∷◌, ℤ, if◌then◌else◌, Ordering,
}

pub record Platform : Type 1 where
  pub F64 : Type 0
  pub Number : Type 0
  -- `==`, `<` and `f64::total_cmp`
  pub f64_eq : F64 → F64 → Bool
  pub f64_lt : F64 → F64 → Bool
  pub total_cmp : F64 → F64 → Ordering
  -- `Number::is_f64` and so on
  pub is_f64 : Number → Bool
  pub is_u64 : Number → Bool
  pub is_i64 : Number → Bool
  pub as_f64 : Number → Option F64
  pub as_u64 : Number → Option ℕ
  pub as_i64 : Number → Option ℤ
  pub from_f64 : F64 → Option Number
  -- `Number == Number`
  pub number_eq : Number → Number → Bool
  -- `claudius::MessageParam`
  pub MessageParam : Type 0
  -- a message of the user with a text, and `push_or_merge_message`
  pub user_message : Text → MessageParam
  pub push_or_merge : List MessageParam → MessageParam → List MessageParam
  -- Is the character printed as it stands by `{:?}`? (The tables of Unicode are not modelled.)
  pub is_printed : ℕ → Bool

mutual
  pub data Value (P : Platform) : Type 0 where
    null : Value P
    bool : Bool → Value P
    number : P.Number → Value P
    string : Text → Value P
    array : Values P → Value P
    object : Map P → Value P

  -- `Vec<Value>`
  pub data Values (P : Platform) : Type 0 where
    nil : Values P
    cons : Value P → Values P → Values P

  -- `Map<String, Value>`
  pub data Map (P : Platform) : Type 0 where
    end : Map P
    entry : Text → Value P → Map P → Map P

module _ {P : Platform} where
  -- `Map::get`
  unfoldable pub get : Map P → Text → Option (Value P)
  get end k = none
  get (entry j v m) k = if text_eq j k then some v else get m k

  -- `Map::insert`: the value of a key that is there is replaced in its place.
  unfoldable pub insert : Map P → Text → Value P → Map P
  insert end k v = entry k v end
  insert (entry j w m) k v = if text_eq j k then entry j v m else entry j w (insert m k v)

  -- `Value::get` with a string: `None` at a value that is no object
  unfoldable pub value_get : Value P → Text → Option (Value P)
  value_get (object m) k = get m k
  value_get (null) k = none
  value_get (bool _) k = none
  value_get (number _) k = none
  value_get (string _) k = none
  value_get (array _) k = none

  -- `value[key] = v`: null becomes an object, and any other value panics.
  unfoldable pub index_set : Value P → Text → Value P → Option (Value P)
  index_set (object m) k v = some (object (insert m k v))
  index_set (null) k v = some (object (entry k v end))
  index_set (bool _) k v = none
  index_set (number _) k v = none
  index_set (string _) k v = none
  index_set (array _) k v = none

  -- `Map::extend`
  unfoldable pub extend : Map P → Map P → Map P
  extend m end = m
  extend m (entry k v n) = extend (insert m k v) n

  -- a vector of values as a list
  abbrev pub to_list : Values P → List (Value P)
  to_list nil = []
  to_list (cons v vs) = v ∷ to_list vs

  abbrev pub of_list : List (Value P) → Values P
  of_list [] = nil
  of_list (v ∷ vs) = cons v (of_list vs)

  -- `Vec::push`
  unfoldable pub push : Values P → Value P → Values P
  push nil v = cons v nil
  push (cons w vs) v = cons w (push vs v)
