-- ===== src/Payments/Facts.antt =====
-- Objects kept as raw JSON: apps/donor-api/internal/payments/facts.go.
--
-- A raw message is modelled by the JSON value that it encodes, with its white space trimmed; the
-- parser itself is package encoding/json. An object has its members as a table, in which a repeated
-- member has replaced the one before, as decoding into a Go map does.
use impact_graph.Base.{
  ℕ, ◌*◌, ◌+◌, ◌^◌, String, Bool, true, false, ◌||◌, not, Option, none, some, List, [], ◌∷◌,
  if◌then◌else◌, ℤ, pos, negsuc, pos_part, ltb_ℤ, Result, ok, err, ◌>>=◌, Dict, lookup, contains,
  ltb,
}
use impact_graph.Recognition.Facts.{Time}

-- ErrFacts
pub data FactsFailure : Type 0 where
  bad_facts : FactsFailure

-- `int` is a number written as an integer, and `number` any other number.
mutual
  pub data Json : Type 0 where
    null number : Json
    bool : Bool → Json
    int : ℤ → Json
    text : String → Json
    object : Members → Json
    array : Items → Json

  pub data Members : Type 0 where
    no_members : Members
    member : String → Json → Members → Members

  pub data Items : Type 0 where
    no_items : Items
    item : Json → Items → Items

-- maxUnix
abbrev pub max_unix : ℤ
max_unix = pos 253402300799

-- Object
abbrev pub Object : Type 0
Object = Dict Json

-- The seconds from the zero time to the Unix epoch.
abbrev pub unix_epoch : ℕ
unix_epoch = 62135596800

abbrev pub second : ℕ
second = 1000000000

abbrev pub members : Members → Object
members no_members = []
members (member key value more) =
    let rest = members more in if contains key rest then rest else (key, value) ∷ rest

-- DecodeObject; `none` is an empty message
unfoldable pub decode_object : Option Json → Result FactsFailure Object
decode_object (some (Json.object ms)) = ok (members ms)
decode_object _ = err bad_facts

-- Absent
unfoldable pub absent : Object → String → Bool
absent o key = elim (lookup key o) [ none ↦ true | some Json.null ↦ true | some _ ↦ false ]

-- Text
unfoldable pub text_of : Object → String → String
text_of o key = elim (lookup key o) [ some (Json.text s) ↦ s | _ ↦ "" ]

-- Whether an integer fits int64.
unfoldable pub fits_int64 : ℤ → Bool
fits_int64 (pos n) = ltb n (2 ^ 63)
fits_int64 (negsuc n) = ltb n (2 ^ 63)

-- Int
unfoldable pub int_of : Object → String → Result FactsFailure ℤ
unfolding fits_int64
int_of o key = elim (lookup key o) [
  | some (Json.int n) ↦ if fits_int64 n then ok n else err bad_facts
  | _ ↦ err bad_facts
]

-- IntDefault
unfoldable pub int_default : Object → String → Result FactsFailure ℤ
int_default o key = if contains key o then int_of o key else ok (pos 0)

-- Unix
unfoldable pub unix_of : Object → String → Result FactsFailure Time
unix_of o key = do
  seconds ← int_of o key
  if ltb_ℤ seconds (pos 0) || ltb_ℤ max_unix seconds
      then err bad_facts
      else ok ((unix_epoch + pos_part seconds) * second)

-- BoolIs
unfoldable pub bool_is : Object → String → Bool → Bool
bool_is o key want = elim (lookup key o) [
  | some (Json.bool b) ↦ if want then b else not b
  | _ ↦ false
]

-- Object.Object
unfoldable pub object_of : Object → String → Result FactsFailure Object
object_of o key = decode_object (lookup key o)

-- The elements of an array of objects, in which null is the nil object.
unfoldable pub objects : Items → Result FactsFailure (List Object)
objects no_items = ok []
objects (item Json.null more) = do rest ← objects more; ok ([] ∷ rest)
objects (item (Json.object ms) more) = do rest ← objects more; ok (members ms ∷ rest)
objects (item _ more) = err bad_facts

-- Array
unfoldable pub array_of : Object → String → Result FactsFailure (List Object)
unfolding objects
array_of o key = elim (lookup key o) [
  | some Json.null ↦ ok []
  | some (Json.array items) ↦ objects items
  | _ ↦ err bad_facts
]
