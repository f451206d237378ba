-- ===== src/Financial/Award.antt =====
-- `projectConversion`: the founding award is kept once it is given, and given only when it is earned.
use impact_graph.Base.{
  ℕ, String, ◌≡◌, refl, Bool, true, false, Option, none, some, some_inj, List, lookup, Result, err,
  ok, >>=-ok, sym, ap, ◌∙◌, arith,
}
use impact_graph.Recognition.Facts.{Time, Failure, Gift, Relationship}
use impact_graph.Recognition.Relationships.{relationships, founding_qualified_at}
use impact_graph.Financial.{
  Conversion, ConversionFailure, from_facts, attribute, award_founding, founding_award,
  project_conversion,
}

-- What a run of `projectConversion` from `before` to `after` does to the founding award.
pub record IsAwarded (before : Conversion) (gifts : List Gift) (id : String) (claimed : Bool)
    (now : Time) (after : Conversion) : Type 0 where
  pub kept : (t : Time) → before.founding_awarded_at ≡ some t → after.founding_awarded_at ≡ some t
  pub given : claimed ≡ true → (t : Time) × (after.founding_awarded_at ≡ some t)
  pub earned :
      (t : Time)
      → before.founding_awarded_at ≡ none
      → claimed ≡ false
      → after.founding_awarded_at ≡ some t
      → founding_qualified_at gifts id now ≡ ok (t, true)

-- The relationship's columns leave the award alone.
attribute-award :
    (scan_uuid : String → Option ℕ) (r : Option Relationship) (out : Conversion) {end : Conversion}
    → attribute scan_uuid r out ≡ ok end
    → end.founding_awarded_at ≡ out.founding_awarded_at
unfolding attribute
attribute-award scan_uuid r out h = ground arith

ok-award :
    {a b : Conversion}
    → ◌≡◌ {A = Result ConversionFailure Conversion} (ok a) (ok b)
    → a.founding_awarded_at ≡ b.founding_awarded_at
ok-award h = cc

from_facts-ok : {A : Type 0} (r : Result Failure A) {a : A} → from_facts r ≡ ok a → r ≡ ok a
from_facts-ok (err e) h = cc
from_facts-ok (ok a) h = cc

-- The award that a run without one gives.
founding_award_lem :
    (found : Time × Bool) (now t : Time)
    → founding_award found false now ≡ some t
    → found ≡ (t, true)
unfolding founding_award
founding_award_lem (at, true) now t h = ap (λ u. (u, true)) (some_inj.0 h)
founding_award_lem (at, false) now t h = cc

founding_award-claimed :
    (found : Time × Bool) (now : Time) → (t : Time) × (founding_award found true now ≡ some t)
unfolding founding_award
founding_award-claimed (at, true) now = (at, refl)
founding_award-claimed (at, false) now = (now, refl)

award_founding_lem :
    (old : Option Time) (out : Conversion) (gifts : List Gift) (id : String) (claimed : Bool)
    (now : Time) {end : Conversion}
    → old ≡ out.founding_awarded_at
    → award_founding old out gifts id claimed now ≡ ok end
    → IsAwarded out gifts id claimed now end
unfolding award_founding
award_founding_lem (some t) out gifts id claimed now same h = record {
  kept = λ u was. sym (ok-award h) ∙ was;
  given = λ yes. (t, sym (ok-award h) ∙ sym same);
  earned = λ u was. absurd (cc);
}
award_founding_lem none out gifts id claimed now same h =
    let (found, read, more) = >>=-ok (from_facts (founding_qualified_at gifts id now)) _ h in
    record {
      kept = λ u was. absurd (cc);
      given = λ yes.
          let (t, award) = founding_award-claimed found now in
          (t, sym (ok-award more) ∙ (rw yes award));
      earned = λ u was no got.
          from_facts-ok _ read
          ∙ ap ok (founding_award_lem found now u (rw no at (ok-award more ∙ got)));
    }

-- A run of projectConversion that ends keeps a founding award that is there, gives one to a donor from
-- the website's waitlist, and gives one to another donor only for a gift that qualifies, at its time.
pub project_conversion-IsAwarded :
    (scan_uuid : String → Option ℕ) (out : Conversion) (gifts : List Gift) (id : String)
    (claimed : Bool) (now : Time) {end : Conversion}
    → project_conversion scan_uuid out gifts id claimed now ≡ ok end
    → IsAwarded out gifts id claimed now end
unfolding project_conversion
project_conversion-IsAwarded scan_uuid out gifts id claimed now h =
    let (relations, related, more) = >>=-ok (from_facts (relationships gifts now)) _ h in
    let (attributed, filled, last) =
      >>=-ok (attribute scan_uuid (lookup id relations) out) _ more in
    let awarded =
      award_founding_lem out.founding_awarded_at attributed gifts id claimed now
        (sym (attribute-award scan_uuid (lookup id relations) out filled)) last in
    record {
      kept = λ t was.
          awarded.kept t (attribute-award scan_uuid (lookup id relations) out filled ∙ was);
      given = awarded.given;
      earned = λ t was.
          awarded.earned t (attribute-award scan_uuid (lookup id relations) out filled ∙ was);
    }
