-- ===== src/Report/Strategies/Instances.antt =====
-- The four operations of src/report.rs that have a strategy implement it.
pub mod Bools
pub mod Numbers
pub mod Strings
pub mod Enums
use policyai.Prelude.{
  ℕ, Text, text_eq, len, ltb, ◌≡◌, refl, sym, ap, ◌∙◌, Bool, true, false, not, Option, some, List,
  [], ◌++◌, append-nil, if◌then◌else◌, inl, inr, Bool-cases,
}
use mathlib.Core.Path.{subst}
use policyai.Json.{Platform, Value, bool, number, string, value_get, insert}
use policyai.Json.Equality.{bool_eq}
use policyai.Json.Maps.{get-insert_self, Unique-insert}
use policyai.Numbers.{number_is_equal, number_less_than}
use policyai.Field.{OnConflict}
use policyai.Errors.{Conflict, bool_conflict, number_conflict, string_conflict}
use policyai.Report.{Report, or_empty, report_policy_index}
use policyai.Report.Values.{
  store, touch, resolve_bool, bool_at, report_bool, resolve_number, number_at, report_number,
  resolve_string, string_at, report_string, resolve_enum, enum_at, report_string_enum,
}
use policyai.Report.Values.Invariant.{Ends, Ends-imp, IsWellFormed, reported, noted, store_lem}
use policyai.Report.Strategies.{Strategy, settle, clash, Settled, Implements}

-- `true` beats any value, also itself, and a longer string beats a shorter one.
abbrev pub bool_strategy : (P : Platform) → Strategy P Bool
bool_strategy P = record {
  same = bool_eq;
  beats = λ v a. v;
  silent = true;
  into = bool;
  conflict = bool_conflict;
}

abbrev pub number_strategy : (P : Platform) → Strategy P P.Number
number_strategy P = record {
  same = number_is_equal P;
  beats = λ v a. number_less_than P a v;
  silent = false;
  into = number;
  conflict = number_conflict;
}

abbrev pub string_strategy : (P : Platform) → Strategy P Text
string_strategy P = record {
  same = text_eq;
  beats = λ v a. ltb (len a) (len v);
  silent = true;
  into = string;
  conflict = string_conflict;
}

-- The values of an enumeration are compared as strings, by their length.
abbrev pub enum_strategy : (P : Platform) → Strategy P Text
enum_strategy P = record {
  same = text_eq;
  beats = λ v a. ltb (len a) (len v);
  silent = false;
  into = string;
  conflict = string_conflict;
}

module _ {P : Platform} where
  pub Settled-store :
      (field : Text) (v : Value P) (r : Report P)
      → IsWellFormed r
      → Ends (store field v r) (Settled field v [] r)
  unfolding value_get
  Settled-store field v r h = rw (store_lem field v r h) (record {
    wf = record {
      fields = insert h.fields field v;
      unique = Unique-insert h.fields field v h.unique;
      value_is = refl;
      defaults = h.defaults;
      default_is = h.default_is;
    };
    value = get-insert_self h.fields field v;
    conflicts = sym (append-nil r.conflicts);
    errors = refl;
  })

  -- the value stays, and the conflicts may grow
  pub Settled-keep :
      (field : Text) (w : Value P) (new : List (Conflict P)) {r r' : Report P}
      → IsWellFormed r
      → reported r field ≡ some w
      → r'.value ≡ some (or_empty r.value)
      → r'.default ≡ r.default
      → r'.conflicts ≡ r.conflicts ++ new
      → r'.errors ≡ r.errors
      → Settled field w new r r'
  Settled-keep field w new h e v d c s = record {
    wf = record {
      fields = h.fields;
      unique = h.unique;
      value_is = ap or_empty v ∙ h.value_is;
      defaults = h.defaults;
      default_is = ap or_empty d ∙ h.default_is;
    };
    value = ap (λ o. value_get (or_empty o) field) v ∙ e;
    conflicts = c;
    errors = s;
  }

  pub Settled-noted :
      (i : ℕ) (field : Text) (w : Value P) (new : List (Conflict P)) (r : Report P)
      (o : Option (Report P))
      → Ends o (Settled field w new (report_policy_index i r))
      → Ends o (Settled field w new r)
  Settled-noted i field w new r o =
      Ends-imp o
        (λ r' s. record { wf = s.wf; value = s.value; conflicts = s.conflicts; errors = s.errors })
