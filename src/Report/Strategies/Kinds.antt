-- ===== src/Report/Strategies/Kinds.antt =====
-- The four kinds of fields with a strategy, and what holds of the reports of each kind.
use policyai.Prelude.{ℕ, Text, ◌≡◌, ◌↔◌, true, Bool, none, some, Option, List, [], ◌∷◌, All}
use policyai.Json.{Platform}
use policyai.Field.{OnConflict}
use policyai.Report.{Report}
use policyai.Report.Values.{report_bool, report_number, report_string, report_string_enum}
use policyai.Report.Values.Invariant.{Ends, IsWellFormed, reported, Reports}
use policyai.Report.Values.Scalars.{
  report_bool-Reports, report_number-Reports, report_string-Reports, report_string_enum-Reports,
}
use policyai.Report.Strategies.{
  Strategy, settle_all, clash_all, Settled, values, Implements, report_in_turn,
  report_in_turn-Settled,
}
use policyai.Report.Strategies.Instances.{
  bool_strategy, number_strategy, string_strategy, enum_strategy,
}
use policyai.Report.Strategies.Instances.Bools.{report_bool-Implements}
use policyai.Report.Strategies.Instances.Numbers.{report_number-Implements}
use policyai.Report.Strategies.Instances.Strings.{report_string-Implements}
use policyai.Report.Strategies.Instances.Enums.{report_string_enum-Implements}
use policyai.Report.Strategies.General.{report_agreement, report_default_strategy}

pub data Kind : Type 0 where
  bool_kind : Kind
  number_kind : Kind
  string_kind : Kind
  enum_kind : Kind

abbrev pub Carrier : Platform → Kind → Type 0
Carrier P bool_kind = Bool
Carrier P number_kind = P.Number
Carrier P string_kind = Text
Carrier P enum_kind = Text

abbrev pub strategy : (P : Platform) (k : Kind) → Strategy P (Carrier P k)
strategy P bool_kind = bool_strategy P
strategy P number_kind = number_strategy P
strategy P string_kind = string_strategy P
strategy P enum_kind = enum_strategy P

-- the operation of the report for the kind
abbrev pub report_as :
    (P : Platform) (k : Kind) → ℕ → Text → Carrier P k → OnConflict → Report P → Option (Report P)
report_as P bool_kind = report_bool
report_as P number_kind = report_number
report_as P string_kind = report_string
report_as P enum_kind = report_string_enum

module _ (P : Platform) where
  report_as-Implements : (k : Kind) → Implements (strategy P k) (report_as P k)
  report_as-Implements bool_kind = report_bool-Implements
  report_as-Implements number_kind = report_number-Implements
  report_as-Implements string_kind = report_string-Implements
  report_as-Implements enum_kind = report_string_enum-Implements

  -- Several policies report, one after the other, values for one boolean, number, string or
  -- enumeration field of a well-formed report that has no value for the field yet. None of the
  -- reports panics; the field ends with what the values settle to under the field's strategy, in
  -- the order of the policies; exactly the conflicts of the strategy are added, and no error.
  pub report_as-Settled :
      (k : Kind) (field : Text) (c : OnConflict) (i : ℕ) (v : Carrier P k)
      (ivs : List (ℕ × Carrier P k)) (r : Report P)
      → IsWellFormed r
      → reported r field ≡ none
      → Ends (report_in_turn (report_as P k) field c ((i, v) ∷ ivs) r) (
          Settled field
            ((strategy P k).into (settle_all (strategy P k) c v (values ivs)))
            (clash_all (strategy P k) c field v (values ivs))
            r)
  report_as-Settled k field c i v ivs r h e =
      report_in_turn-Settled (strategy P k) (report_as P k) (report_as-Implements k) field c i v ivs
        r h e

  -- Under `Agreement`, for a field of any of the four kinds that has no value yet in a well-formed
  -- report: the field ends with the first value, no error is added, and no conflict is added
  -- exactly if every later value is the same as the first.
  pub report_as_agreement :
      (k : Kind) (field : Text) (i : ℕ) (v : Carrier P k) (ivs : List (ℕ × Carrier P k))
      (r : Report P)
      → IsWellFormed r
      → reported r field ≡ none
      → Ends (report_in_turn (report_as P k) field OnConflict.agreement ((i, v) ∷ ivs) r) (λ r'.
        (reported r' field ≡ some ((strategy P k).into v))
        × ((r'.conflicts ≡ r.conflicts) ↔ All (λ w. (strategy P k).same v w ≡ true) (values ivs))
        × (r'.errors ≡ r.errors))
  report_as_agreement k field i v ivs r h e =
      report_agreement (strategy P k) (report_as P k) (report_as-Implements k) field i v ivs r h e

  -- Under `Default`, for a field of any of the four kinds that has no value yet in a well-formed
  -- report: the field ends with the first value that a policy gives it, whatever the field's
  -- default is, and no conflict and no error is added.
  pub report_as_default :
      (k : Kind) (field : Text) (i : ℕ) (v : Carrier P k) (ivs : List (ℕ × Carrier P k))
      (r : Report P)
      → IsWellFormed r
      → reported r field ≡ none
      → Ends
          (report_in_turn (report_as P k) field OnConflict.default ((i, v) ∷ ivs) r)
          (Settled field ((strategy P k).into v) [] r)
  report_as_default k field i v ivs r h e =
      report_default_strategy (strategy P k) (report_as P k) (report_as-Implements k) field i v ivs
        r h e

  -- A report of a value of any of the four kinds never panics on a well-formed report. The result
  -- is well formed, lists the rule after those before, and differs in no other field, and not in
  -- the messages, the defaults, the answer or any of the masks.
  pub report_as-Reports :
      (k : Kind) (i : ℕ) (field : Text) (v : Carrier P k) (c : OnConflict) (r : Report P)
      → IsWellFormed r
      → Ends (report_as P k i field v c r) (Reports i field r)
  report_as-Reports bool_kind = report_bool-Reports
  report_as-Reports number_kind = report_number-Reports
  report_as-Reports string_kind = report_string-Reports
  report_as-Reports enum_kind = report_string_enum-Reports
