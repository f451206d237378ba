-- ===== src/Reconcile/Diff/Seen.antt =====
-- Which rows the loops over the processor's objects mark as seen.
use impact_graph.Base.{
  String, ◌≡◌, ◌↔◌, ◌⊎◌, inl, inr, Bool, true, false, ◌||◌, ◌==◌, some, List, [], ◌∷◌, Exists,
  arith, ℤ, eq_iff, ok, Dict, lookup, contains, Bool-cases, Option-cases, lookup-insert, insert,
}
use impact_graph.Payments.Facts.{Object, text_of}
use impact_graph.Reconcile.Objects.{financial_object, collected_charge, refund_status}
use impact_graph.Reconcile.Diff.{
  StoredGift, StoredRefund, Index, Matching, matched_gift, collect, charge_step, match_charges,
  settle_refund, refund_step, match_refunds,
}
use impact_graph.Reconcile.Diff.Counts.{Result-cases}

-- A collected charge that is matched to a row with the identifier.
pub data ConfirmsGift (ix : Index) (id : String) (charge : Object) : Type 0 where
  confirms_gift :
      (amount : ℤ) (g : StoredGift)
      → collected_charge charge ≡ ok (amount, true)
      → matched_gift ix charge ≡ some g
      → g.stripe_object_id ≡ id
      → ConfirmsGift ix id charge

-- A refund with a known status that has the identifier and a row.
pub data ConfirmsRefund (rows : Dict StoredRefund) (id : String) (refund : Object) : Type 0 where
  confirms_refund :
      (amount : ℤ) (row : StoredRefund)
      → financial_object refund "re_" ≡ ok (id, amount)
      → (refund_status (text_of refund "status") == "") ≡ false
      → lookup id rows ≡ some row
      → ConfirmsRefund rows id refund

contains-insert :
    (key id : String) (seen : Dict Bool)
    → contains id (insert key true seen) ≡ (key == id || contains id seen)
contains-insert key id seen = ground (arith, lookup-insert key id true seen)

seen-charge_step :
    (ix : Index) (id : String) (c : Object) (m : Matching)
    → contains id (charge_step ix c m).seen ≡ true
    → (contains id m.seen ≡ true) ⊎ ConfirmsGift ix id c
unfolding charge_step collect
seen-charge_step ix id c m h = elim (Result-cases (collected_charge c)) [
  | inl ((amount, collected), e) ↦ elim (Bool-cases collected) [
    | inl taken ↦ elim (Option-cases (matched_gift ix c)) [
      | inl lost ↦ inl (rw (charge_step, collect, e, taken, lost, contains) at h)
      | inr (g, found) ↦
          let k = rw (charge_step, collect, e, taken, found, contains) at h in
          elim (Bool-cases (g.stripe_object_id == id)) [
            | inl same ↦ inr (
                ConfirmsGift.confirms_gift amount g (cc) found
                  ((eq_iff g.stripe_object_id id).0 same))
            | inr other ↦ inl (ground (arith, lookup-insert g.stripe_object_id id true m.seen))
          ]
    ]
    | inr left ↦ inl (rw (charge_step, e, left, contains) at h)
  ]
  | inr (f, e) ↦ inl (rw (charge_step, e, contains) at h)
]

kept-charge_step :
    (ix : Index) (id : String) (c : Object) (m : Matching)
    → contains id m.seen ≡ true
    → contains id (charge_step ix c m).seen ≡ true
unfolding charge_step collect
kept-charge_step ix id c m h = elim (Result-cases (collected_charge c)) [
  | inl ((amount, collected), e) ↦ elim (Bool-cases collected) [
    | inl taken ↦ elim (Option-cases (matched_gift ix c)) [
      | inl lost ↦ rw (charge_step, collect, e, taken, lost, contains) h
      | inr (g, found) ↦
          rw (charge_step, collect, e, taken, found, contains)
            (ground (arith, lookup-insert g.stripe_object_id id true m.seen))
    ]
    | inr left ↦ rw (charge_step, e, left, contains) h
  ]
  | inr (f, e) ↦ rw (charge_step, e, contains) h
]

marked-charge_step :
    (ix : Index) (id : String) (c : Object) (m : Matching)
    → ConfirmsGift ix id c
    → contains id (charge_step ix c m).seen ≡ true
unfolding charge_step collect
marked-charge_step ix id c m (ConfirmsGift.confirms_gift amount g e found same) =
    rw (charge_step, collect, e, found, contains)
      (ground
        (arith, lookup-insert g.stripe_object_id id true m.seen, eq_iff g.stripe_object_id id))

pub seen-match_charges :
    (ix : Index) (id : String) (cs : List Object) (m : Matching)
    → (contains id (match_charges ix cs m).seen ≡ true)
      ↔ ((contains id m.seen ≡ true) ⊎ Exists (ConfirmsGift ix id) cs)
unfolding match_charges
seen-match_charges ix id [] m = (λ h. inl h, λ h. elim h [ inl k ↦ k | inr k ↦ absurd k ])
seen-match_charges ix id (c ∷ cs) m =
    let rest = seen-match_charges ix id cs (charge_step ix c m) in
    (
      λ h. elim (rest.0 h) [
        | inl k ↦ elim (seen-charge_step ix id c m k) [
          | inl old ↦ inl old
          | inr this ↦ inr (inl this)
        ]
        | inr later ↦ inr (inr later)
      ],
      λ h. elim h [
        | inl old ↦ rest.1 (inl (kept-charge_step ix id c m old))
        | inr (inl this) ↦ rest.1 (inl (marked-charge_step ix id c m this))
        | inr (inr later) ↦ rest.1 (inr later)
      ],
    )

seen-refund_step :
    (rows : Dict StoredRefund) (id : String) (c : Object) (m : Matching)
    → (contains id (refund_step rows c m).seen ≡ true)
      ↔ ((contains id m.seen ≡ true) ⊎ ConfirmsRefund rows id c)
unfolding refund_step settle_refund
seen-refund_step rows id c m = elim (Result-cases (financial_object c "re_")) [
  | inl ((own, amount), e) ↦ elim (Bool-cases (refund_status (text_of c "status") == "")) [
    | inl unknown ↦ (
      λ h. inl (rw (refund_step, e, unknown, contains) at h),
      λ h. elim h [
        | inl old ↦ rw (refund_step, e, unknown, contains) old
        | inr (ConfirmsRefund.confirms_refund a row f known there) ↦ cc
      ],
    )
    | inr known ↦ elim (Option-cases (lookup own rows)) [
      | inl lost ↦ (
        λ h. inl (rw (refund_step, settle_refund, e, known, lost, contains) at h),
        λ h. elim h [
          | inl old ↦ rw (refund_step, settle_refund, e, known, lost, contains) old
          | inr (ConfirmsRefund.confirms_refund a row f k there) ↦ cc
        ],
      )
      | inr (row, found) ↦ (
        λ h.
            let k = rw (refund_step, settle_refund, e, known, found, contains) at h in
            elim (Bool-cases (own == id)) [
              | inl same ↦
                  let q = (eq_iff own id).0 same in
                  inr (ConfirmsRefund.confirms_refund amount row (cc) known (cc))
              | inr other ↦ inl (ground (arith, lookup-insert own id true m.seen))
            ],
        λ h.
            rw (refund_step, settle_refund, e, known, found, contains)
              (elim h [
                | inl old ↦ ground (arith, lookup-insert own id true m.seen)
                | inr (ConfirmsRefund.confirms_refund a row' f k there) ↦
                    let q : own ≡ id = cc in
                    ground (arith, lookup-insert own id true m.seen, eq_iff own id)
              ]),
      )
    ]
  ]
  | inr (f, e) ↦ (
    λ h. inl (rw (refund_step, e, contains) at h),
    λ h. elim h [
      | inl old ↦ rw (refund_step, e, contains) old
      | inr (ConfirmsRefund.confirms_refund a row g k there) ↦ cc
    ],
  )
]

pub seen-match_refunds :
    (rows : Dict StoredRefund) (id : String) (cs : List Object) (m : Matching)
    → (contains id (match_refunds rows cs m).seen ≡ true)
      ↔ ((contains id m.seen ≡ true) ⊎ Exists (ConfirmsRefund rows id) cs)
unfolding match_refunds
seen-match_refunds rows id [] m = (λ h. inl h, λ h. elim h [ inl k ↦ k | inr k ↦ absurd k ])
seen-match_refunds rows id (c ∷ cs) m =
    let rest = seen-match_refunds rows id cs (refund_step rows c m) in
    let here = seen-refund_step rows id c m in
    (
      λ h. elim (rest.0 h) [
        | inl k ↦ elim (here.0 k) [ inl old ↦ inl old | inr this ↦ inr (inl this) ]
        | inr later ↦ inr (inr later)
      ],
      λ h. elim h [
        | inl old ↦ rest.1 (inl (here.1 (inl old)))
        | inr (inl this) ↦ rest.1 (inl (here.1 (inr this)))
        | inr (inr later) ↦ rest.1 (inr later)
      ],
    )
