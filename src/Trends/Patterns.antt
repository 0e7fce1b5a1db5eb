-- ===== src/Trends/Patterns.antt =====
-- internal/trend/trend.go: Recurrences, the signatures that keep coming back.
pub mod Recurring
pub mod Reported
use Prim.Native.Char.{code}
use noo_noo.Common.{
  Bool, List, Option, String, [], elem_of, false, if◌then◌else◌, length, ltb, none, some, str_eq,
  true, ℕ, ◌++◌, ◌+◌, ◌==◌, ◌∷◌,
}
use noo_noo.Trends.Buckets.{day_of}
use noo_noo.Common.Sort.{sort_by}

pub record Occurrence : Type 0 where
  pub signature : String
  pub workaround : String
  pub occurred_on : String
  pub occurred_at : ℕ

pub record Pattern : Type 0 where
  pub pattern_signature : String
  pub pattern_workaround : String
  pub distinct_days : ℕ
  pub occurrences : ℕ
  pub first_seen : ℕ
  pub last_seen : ℕ
  pub targets : List String

-- the pattern so far, and the days it was seen on; its targets are the ones seen
pub record RecurrenceAgg : Type 0 where
  pub pattern_so_far : Pattern
  pub days_seen : List ℕ

-- The map `groups` is a list of bindings, of which the first for a signature counts.
abbrev pub SignatureGroups : Type 0
SignatureGroups = List (String × RecurrenceAgg)

abbrev pub find_group : String → SignatureGroups → Option RecurrenceAgg
find_group sig [] = none
find_group sig (g ∷ gs) = if str_eq g.0 sig then some g.1 else find_group sig gs

-- g.days[day] = struct{}{}
abbrev pub same_day : ℕ → ℕ → Bool
same_day a b = a == b

unfoldable pub add_day : ℕ → List ℕ → List ℕ
add_day d ds = if elem_of same_day d ds then ds else ds ++ d ∷ []

abbrev pub fresh_agg : Occurrence → RecurrenceAgg
fresh_agg o = record {
  pattern_so_far = record {
    pattern_signature = o.signature;
    pattern_workaround = "";
    distinct_days = 0;
    occurrences = 0;
    first_seen = o.occurred_at;
    last_seen = o.occurred_at;
    targets = [];
  };
  days_seen = [];
}

abbrev pub add_target : String → List String → List String
add_target t ts = if str_eq t "" then ts else if elem_of str_eq t ts then ts else ts ++ t ∷ []

-- the updates for one more occurrence
abbrev pub add_occurrence : Occurrence → RecurrenceAgg → RecurrenceAgg
add_occurrence o g =
    let p = g.pattern_so_far in
    record {
      pattern_so_far = record p {
        occurrences = p.occurrences + 1;
        first_seen = if ltb o.occurred_at p.first_seen then o.occurred_at else p.first_seen;
        last_seen = if ltb p.last_seen o.occurred_at then o.occurred_at else p.last_seen;
        pattern_workaround = if str_eq o.workaround "" then p.pattern_workaround else o.workaround;
        targets = add_target o.occurred_on p.targets;
      };
      days_seen = add_day (day_of o.occurred_at) g.days_seen;
    }

-- the groups, and the signatures in the order of their first occurrence
pub record Grouped : Type 0 where
  pub groups : SignatureGroups
  pub order : List String

abbrev pub add_to_group : Occurrence → Grouped → Option RecurrenceAgg → Grouped
add_to_group o st none = record {
  groups = (o.signature, add_occurrence o (fresh_agg o)) ∷ st.groups;
  order = st.order ++ o.signature ∷ [];
}
add_to_group o st (some g) = record st { groups = (o.signature, add_occurrence o g) ∷ st.groups }

unfoldable pub group_one : Occurrence → Grouped → Grouped
group_one o st =
    if str_eq o.signature "" then st else add_to_group o st (find_group o.signature st.groups)

-- the loop over the occurrences
unfoldable pub group_all : List Occurrence → Grouped → Grouped
group_all [] st = st
group_all (o ∷ os) st = group_all os (group_one o st)

-- the loop over the order
abbrev pub put_pattern : Option RecurrenceAgg → List Pattern → List Pattern
put_pattern none out = out
put_pattern (some g) out =
    if ltb (length g.days_seen) 2
    then out
    else record g.pattern_so_far { distinct_days = length g.days_seen } ∷ out

unfoldable pub patterns_of : SignatureGroups → List String → List Pattern
patterns_of gs [] = []
patterns_of gs (sig ∷ sigs) = put_pattern (find_group sig gs) (patterns_of gs sigs)

-- the order of texts
abbrev pub text_after : String → String → Bool
text_after String.[] t = false
text_after (String.◌∷◌ c s) String.[] = true
text_after (String.◌∷◌ c s) (String.◌∷◌ d t) =
    if code c == code d then text_after s t else ltb (code d) (code c)

-- The sort puts more days first, and then goes by signature.
abbrev pub pattern_after : Pattern → Pattern → Bool
pattern_after p q =
    if p.distinct_days == q.distinct_days
    then text_after p.pattern_signature q.pattern_signature
    else ltb p.distinct_days q.distinct_days

unfoldable pub recurrences : List Occurrence → List Pattern
unfolding patterns_of group_all
recurrences occ =
    let st = group_all occ (record { groups = []; order = [] }) in
    sort_by pattern_after (patterns_of st.groups st.order)
