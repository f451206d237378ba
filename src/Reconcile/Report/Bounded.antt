-- ===== src/Reconcile/Report/Bounded.antt =====
-- The lists of identifiers of a report are bounded, and `Add` adds the counts up.
use impact_graph.Base.{
  ℕ, zero, suc, ◌+◌, ◌≤◌, String, ◌≡◌, refl, ◌∙◌, List, [], ◌∷◌, ◌++◌, length, take, length-append,
  length-take, arith, All,
}
use impact_graph.Base.Sort.{sort, insert_sorted}
use impact_graph.Base.TextOrder.{text_le}
use impact_graph.Reconcile.Report.{Class, Report, append_id, note, add_class, add, sort_class}

-- A class names no more objects than it counts, and at most 100.
abbrev pub IsBounded : Class → Type 0
IsBounded c = (length c.ids ≤ c.count) × (length c.ids ≤ 100)

-- The seven classes of a report.
abbrev pub classes : Report → List Class
classes r =
    r.missing_gifts ∷ r.missing_refunds ∷ r.amount_mismatches ∷ r.status_mismatches
    ∷ r.db_without_stripe ∷ r.currency_mismatches ∷ r.invalid_objects ∷ []

abbrev pub counts : List Class → List ℕ
counts [] = []
counts (c ∷ cs) = c.count ∷ counts cs

abbrev pub sums : List ℕ → List ℕ → List ℕ
sums (m ∷ ms) (n ∷ ns) = (m + n) ∷ sums ms ns
sums _ _ = []

length-insert_sorted :
    (x : String) (xs : List String) → length (insert_sorted text_le x xs) ≡ suc (length xs)
unfolding insert_sorted
length-insert_sorted x [] = refl
length-insert_sorted x (y ∷ ys) = ground (arith, length-insert_sorted x ys)

length-sort : (xs : List String) → length (sort text_le xs) ≡ length xs
unfolding sort
length-sort [] = refl
length-sort (x ∷ xs) = length-insert_sorted x (sort text_le xs) ∙ omega (arith, length-sort xs)

pub length-append_id_le :
    (ids : List String) (id : String) → length ids ≤ 100 → length (append_id ids id) ≤ 100
unfolding append_id
length-append_id_le ids id h = ground (arith, length-append ids (id ∷ []))

pub length-append_id :
    (ids : List String) (id : String) → length (append_id ids id) ≤ suc (length ids)
unfolding append_id
length-append_id ids id = ground (arith, length-append ids (id ∷ []))

pub note-IsBounded : (id : String) (c : Class) → IsBounded c → IsBounded (note id c)
unfolding note
note-IsBounded id c h =
    (omega (arith, length-append_id c.ids id, h.0), length-append_id_le c.ids id h.1)

length-take_le : (n : ℕ) (xs : List String) → length (take n xs) ≤ length xs
length-take_le zero xs = omega arith
length-take_le (suc n) [] = omega arith
length-take_le (suc n) (x ∷ xs) = omega (arith, length-take_le n xs)

add_class-IsBounded : (c d : Class) → IsBounded c → IsBounded d → IsBounded (add_class c d)
unfolding add_class
add_class-IsBounded c d h k =
    let all = sort text_le (c.ids ++ d.ids) in
    (
      omega (
        arith,
        length-take_le 100 all,
        length-sort (c.ids ++ d.ids),
        length-append c.ids d.ids,
        h.0,
        k.0,
      ),
      length-take 100 all,
    )

pub sort_class-IsBounded : (c : Class) → IsBounded c → IsBounded (sort_class c)
unfolding sort_class
sort_class-IsBounded c h =
    (omega (arith, length-sort c.ids, h.0), omega (arith, length-sort c.ids, h.1))

-- Each count of the report that `Add` leaves is the sum of the two reports' counts, nothing cut off, and
-- if the two name no more objects than they count, and at most 100 a class, so does it.
add-IsBounded :
    (r other : Report)
    → All IsBounded (classes r)
    → All IsBounded (classes other)
    → (counts (classes (add r other)) ≡ sums (counts (classes r)) (counts (classes other)))
      × All IsBounded (classes (add r other))
unfolding add add_class
add-IsBounded r other h k = (
  refl,
  (
    add_class-IsBounded r.missing_gifts other.missing_gifts h.0 k.0,
    (
      add_class-IsBounded r.missing_refunds other.missing_refunds h.1.0 k.1.0,
      (
        add_class-IsBounded r.amount_mismatches other.amount_mismatches h.1.1.0 k.1.1.0,
        (
          add_class-IsBounded r.status_mismatches other.status_mismatches h.1.1.1.0 k.1.1.1.0,
          (
            add_class-IsBounded r.db_without_stripe other.db_without_stripe h.1.1.1.1.0 k.1.1.1.1.0,
            (
              add_class-IsBounded r.currency_mismatches other.currency_mismatches h.1.1.1.1.1.0
                  k.1.1.1.1.1.0,
              (
                add_class-IsBounded r.invalid_objects other.invalid_objects h.1.1.1.1.1.1.0
                    k.1.1.1.1.1.1.0,
                tt,
              ),
            ),
          ),
        ),
      ),
    ),
  ),
)
