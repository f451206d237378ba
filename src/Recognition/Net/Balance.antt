-- ===== src/Recognition/Net/Balance.antt =====
-- The net amounts that `NetGifts` returns: what was paid, less each succeeded refund once.
use impact_graph.Base.{
  ℕ, ◌+◌, String, ◌≡◌, refl, sym, ◌∙◌, ap, true, false, ◌&&◌, Option, none, some, List, [], ◌∷◌,
  ◌==◌, if◌then◌else◌, Bool-cases, Option-cases, inl, inr, eq_iff, arith, ℤ, pos, pos_part, ◌+ℤ◌,
  ◌-ℤ◌, ◌≤ℤ◌, ◌<ℤ◌, int_laws, neg_part_of_positive, ok, >>=-ok, fold_ok, Dict, lookup, insert,
  contains, lookup-insert, All, All-find, find-true, find, some_inj,
}
use impact_graph.Base.Dedupe.{by_id}
use impact_graph.Recognition.Facts.{Time, after, is_zero, Gift, Refund, gift_id, clean_gifts}
use impact_graph.Recognition.Facts.Clean.{IsPayment, clean_gifts_keeps}
use impact_graph.Recognition.Net.{
  paid_by, refund_valid, Ledger, settle, refunded_gift, new_refund, refund_step, net_gifts,
}

-- What one refund takes from the gift `k`, where the refunds of `seen` have been counted.
abbrev charge : String → Dict Refund → Refund → ℕ
charge k seen r =
    if contains r.id seen
    then 0
    else if r.status == "SUCCEEDED" && r.gift_id == k
    then pos_part r.amount
    else 0

abbrev note_refund : Dict Refund → Refund → Dict Refund
note_refund seen r = if contains r.id seen then seen else insert r.id r seen

-- What the succeeded refunds take from the gift `k`, each identifier counted once.
abbrev pub refunded : String → Dict Refund → List Refund → ℕ
refunded k seen [] = 0
refunded k seen (r ∷ rs) = charge k seen r + refunded k (note_refund seen r) rs

-- What a gift brings by a time.
abbrev pub paid_amount : Time → Option Gift → Option ℤ
paid_amount as_of none = none
paid_amount as_of (some g) = if after g.paid_at as_of then none else some g.amount

abbrev pub plus : ℕ → Option ℤ → Option ℤ
plus n none = none
plus n (some v) = some (v +ℤ pos n)

abbrev pub IsNonneg : Option ℤ → Type 0
IsNonneg none = Unit
IsNonneg (some v) = pos 0 ≤ℤ v

plus-plus : (m n : ℕ) (o : Option ℤ) → plus m (plus n o) ≡ plus (m + n) o
plus-plus m n none = refl
plus-plus m n (some v) = ap some (omega int_laws)

plus-zero : (o : Option ℤ) → plus 0 o ≡ o
plus-zero none = refl
plus-zero (some v) = ap some (omega int_laws)

-- One step's effect on the net amount of the gift `k`.
abbrev Charged : String → ℕ → Dict ℤ → Dict ℤ → Type 0
Charged k n net net' =
    (lookup k net ≡ plus n (lookup k net')) × (IsNonneg (lookup k net) → IsNonneg (lookup k net'))

positive_refund : (r : Refund) → refund_valid r ≡ true → pos 0 <ℤ r.amount
unfolding refund_valid
positive_refund r v = ground arith

Charged-unchanged : (k : String) (net : Dict ℤ) → Charged k 0 net net
Charged-unchanged k net = (sym (plus-zero (lookup k net)), λ h. h)

-- The write that a settled refund makes.
Charged-insert :
    (k j : String) (a v : ℤ) (net : Dict ℤ)
    → pos 0 <ℤ a
    → lookup j net ≡ some v
    → a ≤ℤ v
    → Charged k (if j == k then pos_part a else 0) net (insert j (v -ℤ a) net)
Charged-insert k j a v net p e enough = elim (Bool-cases (j == k)) [
  | inl same ↦
      let found : lookup k net ≡ some v = rw (← ((eq_iff j k).0 same)) e in
      rw (lookup-insert j k (v -ℤ a) net, same, found)
        (ap some (omega (int_laws, neg_part_of_positive a p)), λ h. omega int_laws)
  | inr other ↦ rw (lookup-insert j k (v -ℤ a) net, other) (Charged-unchanged k net)
]

settle_charges :
    (k : String) (r : Refund) (g : Gift) (net : Dict ℤ) {net' : Dict ℤ}
    → refund_valid r ≡ true
    → g.id ≡ r.gift_id
    → settle r g net ≡ ok net'
    → Charged k
        (if r.status == "SUCCEEDED" && r.gift_id == k then pos_part r.amount else 0)
        net
        net'
unfolding settle
settle_charges k r g net {net'} v same h = elim (Bool-cases (r.status == "SUCCEEDED")) [
  | inl done ↦ elim (Option-cases (lookup g.id net)) [
    | inl missing ↦ absurd (ground (arith, positive_refund r v))
    | inr (n, found) ↦
        let written : insert g.id (n -ℤ r.amount) net ≡ net' = ground arith in
        let enough : r.amount ≤ℤ n = ground arith in
        rw (done, ← same, ← written)
          (Charged-insert k g.id r.amount n net (positive_refund r v) found enough)
  ]
  | inr other ↦ let kept : net ≡ net' = ground arith in rw (other, ← kept) (Charged-unchanged k net)
]

refunded_gift_id :
    (gifts : List Gift) (as_of : Time) (r : Refund) {g : Gift}
    → refunded_gift gifts as_of r ≡ ok g
    → g.id ≡ r.gift_id
unfolding refunded_gift
refunded_gift_id gifts as_of r {g} h = elim (Option-cases (by_id gift_id r.gift_id gifts)) [
  | inl missing ↦ ground arith
  | inr (f, found) ↦
      let same : f ≡ g = ground arith in
      rw (← same) ((eq_iff f.id r.gift_id).0 (find-true (λ x. gift_id x == r.gift_id) gifts found))
]

new_refund_charges :
    (gifts : List Gift) (as_of : Time) (k : String) (l : Ledger) (r : Refund) {l' : Ledger}
    → refund_valid r ≡ true
    → new_refund gifts as_of l r ≡ ok l'
    → Charged k
        (if r.status == "SUCCEEDED" && r.gift_id == k then pos_part r.amount else 0)
        l.net
        l'.net
      × (l'.seen ≡ insert r.id r l.seen)
unfolding new_refund
new_refund_charges gifts as_of k l r {l'} v h =
    let (g, owner, rest) = >>=-ok (refunded_gift gifts as_of r) _ h in
    let (net, settled, end) = >>=-ok (settle r g l.net) _ rest in
    let same : record { seen = insert r.id r l.seen; net = net } ≡ l' = ground arith in
    rw (← same) (settle_charges k r g l.net v (refunded_gift_id gifts as_of r owner) settled, refl)

-- One pass of the loop charges each gift what `charge` says, and notes the identifier.
refund_step_charges :
    (gifts : List Gift) (as_of : Time) (k : String) (l : Ledger) (r : Refund) {l' : Ledger}
    → refund_step gifts as_of l r ≡ ok l'
    → Charged k (charge k l.seen r) l.net l'.net × (l'.seen ≡ note_refund l.seen r)
unfolding refund_step
refund_step_charges gifts as_of k l r {l'} h =
    let v : refund_valid r ≡ true = ground arith in
    elim (Option-cases (lookup r.id l.seen)) [
      | inl new ↦
          let step : new_refund gifts as_of l r ≡ ok l' = ground arith in
          rw (new, contains) (new_refund_charges gifts as_of k l r v step)
      | inr (old, seen_old) ↦
          let same : l ≡ l' = ground arith in
          rw (← same, seen_old, contains) (Charged-unchanged k l.net, refl)
    ]

refund_loop_charges :
    (gifts : List Gift) (as_of : Time) (k : String) (l : Ledger) (rs : List Refund) {l' : Ledger}
    → fold_ok (refund_step gifts as_of) l rs ≡ ok l'
    → Charged k (refunded k l.seen rs) l.net l'.net
unfolding fold_ok
refund_loop_charges gifts as_of k l [] {l'} h =
    let same : l ≡ l' = ground arith in rw (← same) (Charged-unchanged k l.net)
refund_loop_charges gifts as_of k l (r ∷ rs) {l'} h =
    let (m, step, rest) = >>=-ok (refund_step gifts as_of l r) _ h in
    let (here, noted) = refund_step_charges gifts as_of k l r step in
    let later = refund_loop_charges gifts as_of k m rs rest in
    (
      here.0
          ∙ ap (plus (charge k l.seen r))
              (later.0 ∙ ap (λ s. plus (refunded k s rs) (lookup k l'.net)) noted)
          ∙ plus-plus (charge k l.seen r) (refunded k (note_refund l.seen r) rs) (lookup k l'.net),
      λ n. later.1 (here.1 n),
    )

-- The gift of an identifier is its only one: a second with it is the same gift.
abbrev Stands : (String → Option Gift) → List Gift → Type 0
Stands table gs = All (λ g. table g.id ≡ some g) gs

lookup-paid_by :
    (table : String → Option Gift) (as_of : Time) (k : String) (gs : List Gift) (net : Dict ℤ)
    → Stands table gs
    → lookup k (paid_by as_of gs net) ≡ (elim (by_id gift_id k gs) [
      | none ↦ lookup k net
      | some g ↦ if after g.paid_at as_of then lookup k net else some g.amount
    ])
unfolding paid_by find
lookup-paid_by table as_of k [] net h = refl
lookup-paid_by table as_of k (g ∷ gs) net h = elim (Option-cases (by_id gift_id k gs)) [
  | inl last ↦ ground (
    arith,
    lookup-paid_by table as_of k gs
        (if after g.paid_at as_of then net else insert g.id g.amount net) h.1,
    lookup-insert g.id k g.amount net,
  )
  | inr (f, again) ↦
      let id_f : (gift_id f == k) ≡ true = find-true (λ x. gift_id x == k) gs again in
      let table_f : table (gift_id f) ≡ some f =
        All-find (λ x. table (gift_id x) ≡ some x) (λ x. gift_id x == k) gs h.1 again in
      let same_f : (gift_id g == k) ≡ true → g ≡ f = λ id_g.
        let e : gift_id g ≡ gift_id f =
          (eq_iff (gift_id g) k).0 id_g ∙ sym ((eq_iff (gift_id f) k).0 id_f) in
        some_inj.0 (sym h.0 ∙ ap table e ∙ table_f) in
      let net' = if after g.paid_at as_of then net else insert g.id g.amount net in
      let later = lookup-paid_by table as_of k gs net' h.1 in
      let wrote = lookup-insert g.id k g.amount net in
      elim (Bool-cases (gift_id g == k)) [
        | inl same ↦ ground (
          arith,
          later,
          wrote,
          ap (λ (x : Gift). x.paid_at) (same_f same),
          ap (λ (x : Gift). x.amount) (same_f same),
        )
        | inr other ↦ ground (arith, later, wrote)
      ]
]

IsNonneg-paid_by :
    (as_of : Time) (k : String) (gs : List Gift) (net : Dict ℤ)
    → All IsPayment gs
    → IsNonneg (lookup k net)
    → IsNonneg (lookup k (paid_by as_of gs net))
unfolding paid_by
IsNonneg-paid_by as_of k [] net v h = h
IsNonneg-paid_by as_of k (g ∷ gs) net v h =
    IsNonneg-paid_by as_of k gs (if after g.paid_at as_of then net else insert g.id g.amount net)
      v.1 (ground (arith, lookup-insert g.id k g.amount net, v.0.positive))

-- If `NetGifts` returns amounts, it returns one exactly for each gift paid by the time, no amount is
-- negative, and each amount with the succeeded refunds of its gift, every refund identifier counted
-- once, adds up to what was paid.
pub net_gifts_balance :
    (input : List Gift) (refunds : List Refund) (as_of : Time) {net : Dict ℤ}
    → net_gifts input refunds as_of ≡ ok net
    → (k : String)
    → (paid_amount as_of (by_id gift_id k input) ≡ plus (refunded k [] refunds) (lookup k net))
      × IsNonneg (lookup k net)
unfolding net_gifts lookup
net_gifts_balance input refunds as_of {net} h k =
    let zero : is_zero as_of ≡ false = ground arith in
    let (gs, cleaned, more) = >>=-ok (clean_gifts input) _ (rw zero at h) in
    let start : Ledger = record { seen = []; net = paid_by as_of gs [] } in
    let (l, looped, end) = >>=-ok (fold_ok (refund_step gs as_of) start refunds) _ more in
    let same : l.net ≡ net = ground arith in
    let (first, stands, payments, again) = clean_gifts_keeps input cleaned in
    let paid : lookup k (paid_by as_of gs []) ≡ paid_amount as_of (by_id gift_id k gs) =
      ground (arith, lookup-paid_by (λ j. by_id gift_id j gs) as_of k gs [] stands) in
    let (charged, kept) = refund_loop_charges gs as_of k start refunds looped in
    (
      ap (paid_amount as_of) (sym (first k)) ∙ sym paid ∙ rw (← same) charged,
      rw (← same) (kept (IsNonneg-paid_by as_of k gs [] payments tt)),
    )
