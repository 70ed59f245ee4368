-- ===== src/Report/Strategies.antt =====
-- What the strategies promise for one field, whatever its type, apart from the code: how a value
-- that comes second settles against the first, and when that is a conflict.
pub mod Instances
pub mod General
pub mod Outcomes
pub mod Kinds
use policyai.Prelude.{
  ℕ, Text, ◌≡◌, refl, sym, ap, ◌∙◌, Bool, true, false, Option, none, some, List, [], ◌∷◌, ◌++◌,
  append-nil, append_assoc, if◌then◌else◌,
}
use policyai.Json.{Platform, Value}
use policyai.Field.{OnConflict}
use policyai.Errors.{Conflict}
use policyai.Report.{Report, ◌>>=◌}
use policyai.Report.Values.Invariant.{Ends, Ends-imp, IsWellFormed, reported}

abbrev pub values {ℓ} : {T : Type ℓ} → List (ℕ × T) → List T
values [] = []
values ((i, v) ∷ ivs) = v ∷ values ivs

-- A type of values: which are the same, which beats another under `LargestValue`, whether the loser
-- goes unreported there, and how values and conflicts are written.
pub record Strategy (P : Platform) (T : Type 0) : Type 0 where
  pub same : T → T → Bool
  pub beats : T → T → Bool
  pub silent : Bool
  pub into : T → Value P
  pub conflict : Text → T → T → Conflict P

module _ {P : Platform} {T : Type 0} (s : Strategy P T) where
  abbrev settle_differing : OnConflict → T → T → T
  settle_differing OnConflict.default a v = a
  settle_differing OnConflict.agreement a v = a
  settle_differing OnConflict.largest_value a v = if s.beats v a then v else a

  -- the value that the field keeps
  abbrev pub settle : OnConflict → T → T → T
  settle c a v = if s.same a v then a else settle_differing c a v

  abbrev clash_differing : OnConflict → Text → T → T → List (Conflict P)
  clash_differing OnConflict.default field a v = []
  clash_differing OnConflict.agreement field a v = s.conflict field a v ∷ []
  clash_differing OnConflict.largest_value field a v =
      if s.beats v a then [] else if s.silent then [] else s.conflict field a v ∷ []

  -- the conflicts that are reported
  abbrev pub clash : OnConflict → Text → T → T → List (Conflict P)
  clash c field a v = if s.same a v then [] else clash_differing c field a v

  abbrev pub settle_all : OnConflict → T → List T → T
  settle_all c a [] = a
  settle_all c a (v ∷ vs) = settle_all c (settle c a v) vs

  abbrev pub clash_all : OnConflict → Text → T → List T → List (Conflict P)
  clash_all c field a [] = []
  clash_all c field a (v ∷ vs) = clash c field a v ++ clash_all c field (settle c a v) vs

module _ {P : Platform} where
  -- The field has the value, the conflicts are added, and there is no new error.
  pub record Settled (field : Text) (w : Value P) (new : List (Conflict P)) (r r' : Report P)
      : Type 0 where
    pub wf : IsWellFormed r'
    pub value : reported r' field ≡ some w
    pub conflicts : r'.conflicts ≡ r.conflicts ++ new
    pub errors : r'.errors ≡ r.errors

module _ {P : Platform} {T : Type 0} where
  -- An operation of the report implements the strategy.
  pub record Implements (s : Strategy P T)
      (report : ℕ → Text → T → OnConflict → Report P → Option (Report P)) : Type 0 where
    pub first :
        (i : ℕ) (field : Text) (v : T) (c : OnConflict) (r : Report P)
        → IsWellFormed r
        → reported r field ≡ none
        → Ends (report i field v c r) (Settled field (s.into v) [] r)
    pub next :
        (i : ℕ) (field : Text) (a v : T) (c : OnConflict) (r : Report P)
        → IsWellFormed r
        → reported r field ≡ some (s.into a)
        → Ends
            (report i field v c r)
            (Settled field (s.into (settle s c a v)) (clash s c field a v) r)

  -- the reports of several policies for one field, in order
  abbrev pub report_in_turn :
      (ℕ → Text → T → OnConflict → Report P → Option (Report P))
      → Text
      → OnConflict
      → List (ℕ × T)
      → Report P
      → Option (Report P)
  report_in_turn report field c [] r = some r
  report_in_turn report field c ((i, v) ∷ ivs) r = do
    r' ← report i field v c r
    report_in_turn report field c ivs r'

  module _ (s : Strategy P T) (report : ℕ → Text → T → OnConflict → Report P → Option (Report P))
      (imp : Implements s report) where
    Settled-bind :
        (field : Text) (w w' : Value P) (l l' : List (Conflict P)) (r : Report P)
        (o : Option (Report P)) (f : Report P → Option (Report P))
        → Ends o (Settled field w l r)
        → ((t : Report P) → Settled field w l r t → Ends (f t) (Settled field w' l' t))
        → Ends (o >>= f) (Settled field w' (l ++ l') r)
    Settled-bind field w w' l l' r none f h k = h
    Settled-bind field w w' l l' r (some t) f h k =
        Ends-imp {Q = Settled field w' l' t} (f t)
          (λ u b. record {
            wf = b.wf;
            value = b.value;
            conflicts = b.conflicts ∙ ap (λ x. x ++ l') h.conflicts ∙ append_assoc r.conflicts l l';
            errors = b.errors ∙ h.errors;
          })
          (k t h)

    in_turn_from :
        (field : Text) (c : OnConflict) (ivs : List (ℕ × T)) (a : T) (r : Report P)
        → IsWellFormed r
        → reported r field ≡ some (s.into a)
        → Ends (report_in_turn report field c ivs r) (
            Settled field
              (s.into (settle_all s c a (values ivs)))
              (clash_all s c field a (values ivs))
              r)
    in_turn_from field c [] a r h e = record {
      wf = h;
      value = e;
      conflicts = sym (append-nil r.conflicts);
      errors = refl;
    }
    in_turn_from field c ((i, v) ∷ ivs) a r h e =
        Settled-bind field _ _ _ _ r _ (report_in_turn report field c ivs)
          (imp.next i field a v c r h e)
          (λ t st. in_turn_from field c ivs (settle s c a v) t st.wf st.value)

    -- a field that has no value yet
    pub report_in_turn-Settled :
        (field : Text) (c : OnConflict) (i : ℕ) (v : T) (ivs : List (ℕ × T)) (r : Report P)
        → IsWellFormed r
        → reported r field ≡ none
        → Ends (report_in_turn report field c ((i, v) ∷ ivs) r) (
            Settled field
              (s.into (settle_all s c v (values ivs)))
              (clash_all s c field v (values ivs))
              r)
    report_in_turn-Settled field c i v ivs r h e =
        Settled-bind field _ _ [] _ r _ (report_in_turn report field c ivs)
          (imp.first i field v c r h e) (λ t st. in_turn_from field c ivs v t st.wf st.value)
