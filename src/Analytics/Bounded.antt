-- ===== src/Analytics/Bounded.antt =====
-- What the properties of an accepted event are.
use Prim.Native.String.{len}
use impact_graph.Base.{
  ◌≤◌, String, ◌≡◌, refl, ◌≢◌, inl, inr, Bool, true, not, ◌&&◌, ◌||◌, ◌==◌, Option, none, some,
  List, [], ◌∷◌, ltb, nat_eq, length, Dict, lookup, contains, Bool-cases, Option-cases, arith,
  eq_iff, some_inj, All,
}
use impact_graph.Analytics.{
  Property, event_properties, known, one_of, value_accepted, properties_hold, properties_accepted,
}

-- A value that may be stored.
abbrev pub IsShort : String → Type 0
IsShort value = (value ≢ "") × (len value ≤ 64)

abbrev short : String → Bool
short value = not (value == "" || ltb 64 (len value))

all_short : List String → Bool
all_short [] = true
all_short (v ∷ vs) = short v && all_short vs

spec_short : Option Property → Bool
spec_short none = true
spec_short (some spec) = elim spec.values [ none ↦ true | some values ↦ all_short values ]

table_short : Dict (Option Property) → Bool
table_short [] = true
table_short (e ∷ es) = spec_short e.1 && table_short es

event_properties_short : table_short event_properties ≡ true
unfolding table_short spec_short all_short
event_properties_short = refl

lookup-spec_short :
    (name : String) (table : Dict (Option Property)) {spec : Option Property}
    → table_short table ≡ true
    → lookup name table ≡ some spec
    → spec_short spec ≡ true
unfolding table_short lookup
lookup-spec_short name [] h e = absurd (ground arith)
lookup-spec_short name ((key, s) ∷ more) {spec} h e = elim (Bool-cases (key == name)) [
  | inl same ↦ let k : s ≡ spec = some_inj.0 (rw (lookup, same) at e) in rw (← k) (ground arith)
  | inr other ↦ lookup-spec_short name more (ground arith) (rw (lookup, other) at e)
]

one_of-short :
    (values : List String) (value : String)
    → all_short values ≡ true
    → one_of values value ≡ true
    → short value ≡ true
unfolding one_of all_short
one_of-short [] value h e = absurd (ground arith)
one_of-short (v ∷ vs) value h e = elim (Bool-cases (v == value)) [
  | inl same ↦ let q = (eq_iff v value).0 same in rw (← q) (ground arith)
  | inr other ↦ one_of-short vs value (ground arith) (ground arith)
]

value_accepted-short :
    (spec : Property) (value : String)
    → spec_short (some spec) ≡ true
    → value_accepted spec value ≡ true
    → short value ≡ true
unfolding value_accepted spec_short
value_accepted-short spec value h e = elim (Option-cases spec.values) [
  | inl free ↦ rw (value_accepted, free) at e
  | inr (values, closed) ↦
      one_of-short values value (rw (spec_short, closed) at h) (rw (value_accepted, closed) at e)
]

-- The table of an event's one property.
one_property :
    (spec : Property) (props : Dict String)
    → spec_short (some spec) ≡ true
    → properties_hold spec props ≡ true
    → (length props ≤ 1) × All (λ e. IsShort e.1) props
unfolding properties_hold lookup
one_property spec [] h e = absurd (ground arith)
one_property spec ((key, value) ∷ []) h e = elim (Bool-cases (key == spec.key)) [
  | inl same ↦
      let k = rw (properties_hold, lookup, same) at e in
      let b = value_accepted-short spec value h k in
      (omega arith, ((ground (arith, eq_iff value ""), ground arith), tt))
  | inr other ↦ let k = rw (properties_hold, lookup, other) at e in absurd (ground arith)
]
one_property spec (a ∷ b ∷ more) h e = absurd (ground arith)

no_property :
    (props : Dict String)
    → nat_eq (length props) 0 ≡ true
    → (length props ≤ 1) × All (λ e. IsShort e.1) props
no_property [] h = (omega arith, tt)
no_property (a ∷ more) h = absurd (ground arith)

-- The properties of an event that `ValidateProperties` accepts are at most one, with a value that is
-- neither empty nor longer than 64 bytes, and the event is one of the taxonomy.
pub properties_accepted-IsShort :
    (name : String) (props : Dict String)
    → properties_accepted name props ≡ true
    → (known name ≡ true) × (length props ≤ 1) × All (λ e. IsShort e.1) props
unfolding properties_accepted known
properties_accepted-IsShort name props h = elim (Option-cases (lookup name event_properties)) [
  | inl unknown ↦ let k = rw (properties_accepted, unknown) at h in absurd (ground arith)
  | inr (none, e) ↦
      let (few, values) = no_property props (rw (properties_accepted, e) at h) in
      (rw (known, contains, e) refl, few, values)
  | inr (some spec, e) ↦
      let s = lookup-spec_short name event_properties event_properties_short e in
      let (few, values) = one_property spec props s (rw (properties_accepted, e) at h) in
      (rw (known, contains, e) refl, few, values)
]
