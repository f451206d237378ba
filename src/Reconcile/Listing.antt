-- ===== src/Reconcile/Listing.antt =====
-- `listSplitting` of apps/donor-api/cmd/reconcile/main.go, and `listByCreated` of
-- apps/donor-api/internal/payments/gateway.go, which it calls.
--
-- The code takes the listing call as an argument, `list`, an answer or an error of its own; the call that
-- it is given is `list_by_created`, around the processor's list of the objects created between two Unix
-- seconds, the parameter `list_seconds`. The recursion is on fuel, and `unfinished` says that it has run out. Objects are of any type: the code only joins the lists.
-- `mid.Add(-time.Second)` is cut off at the zero time here, which no time of a window is near to.
pub mod Terminates
pub mod Covers
use impact_graph.Base.{
  ℕ, zero, suc, ◌+◌, ◌-◌, ◌/◌, ◌≡◌, refl, ◌⊎◌, inl, inr, Bool, not, List, ◌++◌, if◌then◌else◌,
  Result, ok, err, ◌>>=◌,
}
use impact_graph.Recognition.Facts.{Time, after}
use impact_graph.Payments.Facts.{second}

-- payments.ErrListPageCap, any other error, and the end of the fuel
pub data ListFailure : Type 0 where
  page_cap failed unfinished : ListFailure

abbrev pub middle : Time → Time → Time
middle start end = start + (end - start) / 2

-- listByCreated: the bounds are whole seconds, those after the zero time here.
unfoldable pub list_by_created :
    {Object : Type 0}
    → (ℕ → ℕ → Result ListFailure (List Object))
    → Time
    → Time
    → Result ListFailure (List Object)
list_by_created list_seconds start end = list_seconds (start / second) (end / second)

module _ {Object : Type 0} (list : Time → Time → Result ListFailure (List Object)) where
  -- listSplitting
  unfoldable pub list_splitting : ℕ → Time → Time → Result ListFailure (List Object)
  list_splitting zero start end = err unfinished
  list_splitting (suc fuel) start end = elim (list start end) [
    | ok objects ↦ ok objects
    | err failed ↦ err failed
    | err unfinished ↦ err unfinished
    | err page_cap ↦ elim (after end start) [
      | Bool.false ↦ err page_cap
      | Bool.true ↦
          let mid = middle start end in
          list_splitting fuel start (mid - second) >>= λ left.
          list_splitting fuel mid end >>= λ right. ok (left ++ right)
    ]
  ]

pub ListFailure-cases :
    {A : Type 0} (r : Result ListFailure A)
    → ((a : A) × (r ≡ ok a)) ⊎ ((r ≡ err page_cap) ⊎ ((r ≡ err failed) ⊎ (r ≡ err unfinished)))
ListFailure-cases (ok a) = inl (a, refl)
ListFailure-cases (err page_cap) = inr (inl refl)
ListFailure-cases (err failed) = inr (inr (inl refl))
ListFailure-cases (err unfinished) = inr (inr (inr refl))
