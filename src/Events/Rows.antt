-- ===== src/Events/Rows.antt =====
-- How the queries change the counts over a table, and which row is the head of a waitlist.
use impact_graph.Base.{
  ℕ, ◌+◌, ◌≤◌, ◌<◌, ◌≡◌, refl, inl, inr, Bool, true, false, ◌&&◌, none, some, List, [], ◌∷◌, ◌++◌,
  All, Exists, count, any, find, arith, Bool-cases, Option-cases,
}
use impact_graph.Base.Sort.{least, TotalOrder}
use impact_graph.Events.{Reservation, is_place, has_id, queued_before, update_where}

pub Exists-map :
    {A : Type 0} {P Q : A → Type 0}
    → ((x : A) → P x → Q x)
    → (xs : List A) → Exists P xs
    → Exists Q xs
Exists-map f [] h = absurd h
Exists-map f (x ∷ xs) (inl h) = inl (f x h)
Exists-map f (x ∷ xs) (inr h) = inr (Exists-map f xs h)

-- What `find` finds is an element.
pub find-Exists :
    {A : Type 0} (p : A → Bool) (xs : List A) {x : A}
    → find p xs ≡ some x
    → Exists (λ y. (y ≡ x) × (p y ≡ true)) xs
unfolding find
find-Exists p [] h = cc
find-Exists p (y ∷ xs) {x} h = elim (Bool-cases (p y)) [
  | inl hit ↦ let same : y ≡ x = ground arith in inl (same, hit)
  | inr miss ↦ inr (find-Exists p xs (rw miss at h))
]

module _ {A : Type 0} where
  pub count-append : (p : A → Bool) (xs ys : List A) → count p (xs ++ ys) ≡ count p xs + count p ys
  unfolding count
  count-append p [] ys = omega arith
  count-append p (x ∷ xs) ys = ground (arith, count-append p xs ys)

  pub count-any : (p : A → Bool) (xs : List A) → any p xs ≡ false → count p xs ≡ 0
  unfolding count any
  count-any p [] h = refl
  count-any p (x ∷ xs) h = ground (arith, count-any p xs)

  pub find-count : (p : A → Bool) (xs : List A) → find p xs ≡ none → count p xs ≡ 0
  unfolding count find
  find-count p [] h = refl
  find-count p (x ∷ xs) h = ground (arith, find-count p xs)

  pub any-count : (p : A → Bool) (xs : List A) → any p xs ≡ true → 1 ≤ count p xs
  unfolding count any
  any-count p [] h = cc
  any-count p (x ∷ xs) h = ground (arith, any-count p xs)

  pub count-Exists : (p : A → Bool) (xs : List A) → Exists (λ x. p x ≡ true) xs → 1 ≤ count p xs
  unfolding count
  count-Exists p [] h = absurd h
  count-Exists p (x ∷ xs) (inl h) = ground arith
  count-Exists p (x ∷ xs) (inr h) = let r = count-Exists p xs h in ground arith

  -- Two tests that exclude each other, both stronger than a third.
  pub count-disjoint :
      (a b c : A → Bool)
      → ((x : A) → a x ≡ true → c x ≡ true)
      → ((x : A) → b x ≡ true → (c x ≡ true) × (a x ≡ false))
      → (xs : List A) → count a xs + count b xs ≤ count c xs
  unfolding count
  count-disjoint a b c f g [] = omega arith
  count-disjoint a b c f g (x ∷ xs) =
      let r = count-disjoint a b c f g xs in ground (arith, f x, g x)

  -- Only the changed rows can be new to a test.
  pub count-update_where :
      (p q : A → Bool) (f : A → A) (xs : List A)
      → count p (update_where q f xs) ≤ count p xs + count (λ x. q x && p (f x)) xs
  unfolding count update_where
  count-update_where p q f [] = omega arith
  count-update_where p q f (x ∷ xs) = let r = count-update_where p q f xs in ground arith

  -- Only the changed rows can be lost to a test.
  pub update_where-count :
      (p q : A → Bool) (f : A → A) (xs : List A)
      → count p xs ≤ count p (update_where q f xs) + count (λ x. q x && p x) xs
  unfolding count update_where
  update_where-count p q f [] = omega arith
  update_where-count p q f (x ∷ xs) = let r = update_where-count p q f xs in ground arith

  pub count-never : (p : A → Bool) → ((x : A) → p x ≡ false) → (xs : List A) → count p xs ≡ 0
  unfolding count
  count-never p h [] = refl
  count-never p h (x ∷ xs) = ground (arith, h x, count-never p h xs)

  pub count_mono :
      (p q : A → Bool)
      → ((x : A) → p x ≡ true → q x ≡ true)
      → (xs : List A) → count p xs ≤ count q xs
  unfolding count
  count_mono p q h [] = omega arith
  count_mono p q h (x ∷ xs) = let r = count_mono p q h xs in ground (arith, h x)

  pub count-none :
      (p q : A → Bool)
      → ((x : A) → p x ≡ true → q x ≡ true)
      → (xs : List A) → count q xs ≡ 0
      → count p xs ≡ 0
  count-none p q h xs e = let r = count_mono p q h xs in omega arith

  -- Every row that passes the test is changed to one that does not.
  pub update_where-none :
      (p q : A → Bool) (f : A → A)
      → ((x : A) → p (f x) ≡ false)
      → ((x : A) → p x ≡ true → q x ≡ true)
      → (xs : List A) → count p (update_where q f xs) ≡ 0
  unfolding count update_where
  update_where-none p q f h k [] = refl
  update_where-none p q f h k (x ∷ xs) = ground (arith, h x, k x, update_where-none p q f h k xs)

  -- Where at most one row passes the test, and one that has the mark does, the rows that pass it have
  -- the mark.
  pub count_unique :
      (c mark b : A → Bool)
      → ((x : A) → b x ≡ true → (c x ≡ true) × (mark x ≡ false))
      → (xs : List A) → count c xs ≤ 1
      → Exists (λ x. (c x ≡ true) × (mark x ≡ true)) xs
      → count b xs ≡ 0
  count_unique c mark b h xs one there =
      let split =
        count-disjoint (λ x. c x && mark x) b c (λ x k. ground arith)
          (λ x k. let (l, r) = h x k in (l, rw r (ground arith))) xs in
      let found =
        count-Exists (λ x. c x && mark x) xs (Exists-map (λ x (l, r). rw (l, r) refl) xs there) in
      omega arith

  pub count-update_where_same :
      (p q : A → Bool) (f : A → A)
      → ((x : A) → p (f x) ≡ p x)
      → (xs : List A) → count p (update_where q f xs) ≡ count p xs
  unfolding count update_where
  count-update_where_same p q f h [] = refl
  count-update_where_same p q f h (x ∷ xs) = ground (arith, h x, count-update_where_same p q f h xs)

  -- Rows that leave a test, one at least, make its count smaller.
  pub count-update_where_le :
      (p q : A → Bool) (f : A → A)
      → ((x : A) → q x ≡ true → p (f x) ≡ true → p x ≡ true)
      → (xs : List A) → count p (update_where q f xs) ≤ count p xs
  unfolding count update_where
  count-update_where_le p q f h [] = omega arith
  count-update_where_le p q f h (x ∷ xs) =
      let r = count-update_where_le p q f h xs in ground (arith, h x)

  pub count-update_where_lt :
      (p q : A → Bool) (f : A → A)
      → ((x : A) → p (f x) ≡ false)
      → (xs : List A) → Exists (λ x. (p x ≡ true) × (q x ≡ true)) xs
      → count p (update_where q f xs) < count p xs
  unfolding count update_where
  count-update_where_lt p q f h [] e = absurd e
  count-update_where_lt p q f h (x ∷ xs) (inl e) =
      let r = count-update_where_le p q f (λ y _ k. ground (arith, h y)) xs in ground (arith, h x)
  count-update_where_lt p q f h (x ∷ xs) (inr e) =
      let r = count-update_where_lt p q f h xs e in ground (arith, h x)

pub record IsLeast {A : Type 0} (le : A → A → Bool) (p : A → Bool) (xs : List A) (h : A)
    : Type 0 where
  pub passes : p h ≡ true
  pub member : Exists (λ x. x ≡ h) xs
  pub first : All (λ x. p x ≡ true → le h x ≡ true) xs

module _ {A : Type 0} {le : A → A → Bool} (order : TotalOrder le) where
  reaches :
      (p : A → Bool) (x y : A) (zs : List A)
      → le x y ≡ true
      → All (λ z. p z ≡ true → le y z ≡ true) zs
      → All (λ z. p z ≡ true → le x z ≡ true) zs
  reaches p x y [] h k = tt
  reaches p x y (z ∷ zs) h k = (λ m. order.trans x y z h (k.0 m), reaches p x y zs h k.1)

  pub least-none : (p : A → Bool) (xs : List A) → least le p xs ≡ none → count p xs ≡ 0
  unfolding least count
  least-none p [] e = refl
  least-none p (x ∷ xs) e = ground (arith, least-none p xs)

  no_match :
      (p : A → Bool) (x : A) (xs : List A)
      → count p xs ≡ 0
      → All (λ z. p z ≡ true → le x z ≡ true) xs
  unfolding count
  no_match p x [] e = tt
  no_match p x (z ∷ zs) e = (λ m. ground arith, no_match p x zs (ground arith))

  le_refl : (x : A) → le x x ≡ true
  le_refl x = ground (arith, order.total x x)

  -- The least match is an element, passes the test, and no match is smaller.
  pub least_sound :
      (p : A → Bool) (xs : List A) {h : A} → least le p xs ≡ some h → IsLeast le p xs h
  unfolding least
  least_sound p [] e = cc
  least_sound p (x ∷ xs) {h} e = elim (Bool-cases (p x)) [
    | inr miss ↦
        let rest = least_sound p xs (rw miss at e) in
        record {
          passes = rest.passes;
          member = inr rest.member;
          first = ((λ k. ground arith), rest.first);
        }
    | inl hit ↦ elim (Option-cases (least le p xs)) [
      | inl alone ↦
          let same : x ≡ h = ground arith in
          rw (← same) (record {
            passes = hit;
            member = inl refl;
            first = ((λ _. le_refl x), no_match p x xs (least-none p xs alone));
          })
      | inr (y, found) ↦
          let rest = least_sound p xs found in
          elim (Bool-cases (le x y)) [
            | inl smallest ↦
                let same : x ≡ h = ground arith in
                rw (← same) (record {
                  passes = hit;
                  member = inl refl;
                  first = ((λ _. le_refl x), reaches p x y xs smallest rest.first);
                })
            | inr later ↦
                let same : y ≡ h = ground arith in
                rw (← same) (record {
                  passes = rest.passes;
                  member = inr rest.member;
                  first = ((λ _. order.total x y later), rest.first);
                })
          ]
    ]
  ]

-- The order of a waitlist.
pub queue_order : TotalOrder queued_before
queue_order = record { total = λ x y h. ground arith; trans = λ x y z h k. ground arith }

-- No two rows share an event and a donor, and none an identifier: the table's unique constraints.
pub record IsTable (rows : List Reservation) : Type 0 where
  pub places : (event donor : ℕ) → count (is_place event donor) rows ≤ 1
  pub ids : (id : ℕ) → count (has_id id) rows ≤ 1

-- An update that keeps the identifying columns keeps the constraints.
pub update_where-IsTable :
    (q : Reservation → Bool) (f : Reservation → Reservation)
    → ((r : Reservation)
        → ((f r).id ≡ r.id) × ((f r).event_id ≡ r.event_id) × ((f r).donor_id ≡ r.donor_id))
    → (rows : List Reservation) → IsTable rows
    → IsTable (update_where q f rows)
update_where-IsTable q f keeps rows t = record {
  places = λ event donor.
      let same =
        count-update_where_same (is_place event donor) q f
          (λ r. let (_, e, d) = keeps r in rw (e, d) refl) rows in
      rw same (t.places event donor);
  ids = λ id.
      let same =
        count-update_where_same (has_id id) q f (λ r. let (i, _, _) = keeps r in rw i refl) rows in
      rw same (t.ids id);
}
