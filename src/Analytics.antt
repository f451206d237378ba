-- ===== src/Analytics.antt =====
-- The event taxonomy: apps/donor-api/internal/analytics/analytics.go.
--
-- A set of values is the list of its values, and the properties of an event are a table without
-- repeated keys, as a Go map is.
pub mod Bounded
use Prim.Native.String.{len}
use impact_graph.Base.{
  ℕ, String, Bool, true, false, not, ◌||◌, ◌==◌, Option, none, some, List, [], ◌∷◌, if◌then◌else◌,
  ltb, nat_eq, length, Dict, lookup, contains,
}

-- property; `none` is a nil set, for a value of any form
pub record Property : Type 0 where
  pub key : String
  pub values : Option (List String)

abbrev free_form : String → Option Property
free_form key = some (record { key = key; values = none })

-- eventProperties
abbrev pub event_properties : Dict (Option Property)
event_properties =
    ("app_opened", none)
    ∷ ("role_selected", none)
    ∷ ("signup_started", none)
    ∷ ("signup_completed", none)
    ∷ (
      "attribution_captured",
      some (record { key = "source"; values = some ("link" ∷ "IRL" ∷ "company" ∷ []) }),
    )
    ∷ ("gift_started", none)
    ∷ ("gift_completed", none)
    ∷ ("gift_failed", none)
    ∷ ("gift_recovered", none)
    ∷ ("gift_lapsed", none)
    ∷ ("amount_changed", none)
    ∷ ("gift_cancelled", none)
    ∷ ("account_deleted", none)
    ∷ ("invite_shared", free_form "channel")
    ∷ ("irl_code_shown", none)
    ∷ ("referral_converted", none)
    ∷ ("badge_earned", none)
    ∷ ("milestone_reached", none)
    ∷ ("rankings_toggled", none)
    ∷ ("volunteer_opted_in", none)
    ∷ ("event_viewed", none)
    ∷ ("event_reserved", none)
    ∷ ("event_waitlisted", none)
    ∷ ("event_checked_in", none)
    ∷ ("team_created", none)
    ∷ ("team_joined", none)
    ∷ ("partner_signup_submitted", none)
    ∷ ("partner_approved", none)
    ∷ ("partner_report_exported", none)
    ∷ ("push_opened", free_form "type")
    ∷ []

-- maxPropertyValue
abbrev pub max_property_value : ℕ
max_property_value = 64

-- Known
unfoldable pub known : String → Bool
known name = contains name event_properties

-- `spec.values[value]`
unfoldable pub one_of : List String → String → Bool
one_of [] value = false
one_of (v ∷ vs) value = v == value || one_of vs value

-- The tests on the value of a property.
unfoldable pub value_accepted : Property → String → Bool
unfolding one_of
value_accepted spec value = elim spec.values [
  | some values ↦ one_of values value
  | none ↦ not (value == "" || ltb max_property_value (len value))
]

-- The tests on the properties of an event that takes one.
unfoldable pub properties_hold : Property → Dict String → Bool
unfolding value_accepted
properties_hold spec props =
    if nat_eq (length props) 1
    then (elim (lookup spec.key props) [ none ↦ false | some value ↦ value_accepted spec value ])
    else false

-- ValidateProperties, `true` where it returns no error
unfoldable pub properties_accepted : String → Dict String → Bool
unfolding properties_hold
properties_accepted name props = elim (lookup name event_properties) [
  | none ↦ false
  | some none ↦ nat_eq (length props) 0
  | some (some spec) ↦ properties_hold spec props
]
