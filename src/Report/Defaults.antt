-- ===== src/Report/Defaults.antt =====
-- The reports of defaults: no panic, and nothing but the defaults and the errors changes.
use policyai.Prelude.{text_eq, if◌then◌else◌, Text, ◌≡◌, refl, Option, none, some}
use policyai.Json.{get, value_get, Platform, Value, insert, index_set}
use policyai.Json.Maps.{or_else, get-or_insert}
use policyai.Report.{or_empty, Report, report_default, default_at}
use policyai.Report.Values.Invariant.{Ends, IsWellFormed, given}

module _ {P : Platform} where
  pub record Defaults (r r' : Report P) : Type 0 where
    pub wf : IsWellFormed r'
    pub value : r'.value ≡ r.value
    pub rules : r'.rules_matched ≡ r.rules_matched
    pub same_given : given r' ≡ given r
    pub conflicts : r'.conflicts ≡ r.conflicts

  default_at-Defaults :
      (w : Option (Value P)) (field : Text) (new : Value P) (r : Report P)
      → IsWellFormed r
      → Ends (default_at w field new r) (Defaults r)
  unfolding default_at index_set
  default_at-Defaults none field new r h = rw h.default_is (record {
    wf = record {
      fields = h.fields;
      unique = h.unique;
      value_is = h.value_is;
      defaults = insert h.defaults field new;
      default_is = refl;
    };
    value = refl;
    rules = refl;
    same_given = refl;
    conflicts = refl;
  })
  default_at-Defaults (some w) field new r h = record {
    wf = record {
      fields = h.fields;
      unique = h.unique;
      value_is = h.value_is;
      defaults = h.defaults;
      default_is = h.default_is;
    };
    value = refl;
    rules = refl;
    same_given = refl;
    conflicts = refl;
  }

  pub report_default-Defaults :
      (field : Text) (new : Value P) (r : Report P)
      → IsWellFormed r
      → Ends (report_default field new r) (Defaults r)
  unfolding report_default
  report_default-Defaults field new r h = default_at-Defaults _ field new r h

  default_at-get :
      (w : Option (Value P)) (field : Text) (new : Value P) (r : Report P) (h : IsWellFormed r)
      → get h.defaults field ≡ w
      → Ends (default_at w field new r) (λ r'.
        (k : Text)
        → value_get (or_empty r'.default) k
          ≡ or_else (get h.defaults k) (if text_eq field k then some new else none))
  unfolding default_at index_set value_get
  default_at-get none field new r h e =
      rw h.default_is (λ k. get-or_insert none h.defaults field k new e)
  default_at-get (some w) field new r h e =
      rw h.default_is (λ k. get-or_insert (some w) h.defaults field k new e)

  -- The report of a default never panics on a well-formed report, and the first default stays: at every
  -- key the defaults are as they were, but for the field, which has the new default if it had none.
  pub report_default_lem :
      (field : Text) (new : Value P) (r : Report P)
      → IsWellFormed r
      → Ends (report_default field new r) (λ r'.
        (k : Text)
        → value_get (or_empty r'.default) k
          ≡ or_else (value_get (or_empty r.default) k) (if text_eq field k then some new else none))
  unfolding report_default value_get
  report_default_lem field new r h =
      rw h.default_is (default_at-get (get h.defaults field) field new r h refl)
