-- ===== src/Recognition/Net/Steady.antt =====
-- When `NetGifts` gives the same at a later time.
use impact_graph.Base.Dedupe.{by_id}
use impact_graph.Base.{
  Option-cases, inl, inr, ◌≡◌, refl, false, List, [], ◌∷◌, ltb, All, Dict, ℤ, >>=-same, fold_ok,
  arith, if◌then◌else◌, insert, lookup,
}
use impact_graph.Recognition.Facts.{Time, Gift, Refund, clean_gifts, gift_id, is_zero, after}
use impact_graph.Recognition.Net.{
  Ledger, paid_by, refund_step, new_refund, refunded_gift, net_gifts,
}
use impact_graph.Recognition.Facts.Clean.{All-clean_gifts}

-- The moment has come by the later time just if it has by the earlier.
abbrev pub IsSteady : Time → Time → Time → Type 0
IsSteady now later t = ltb now t ≡ ltb later t

module _ (now later : Time) where
  paid_by_steady :
      (gs : List Gift) (net : Dict ℤ)
      → All (λ g. IsSteady now later g.paid_at) gs
      → paid_by now gs net ≡ paid_by later gs net
  unfolding paid_by
  paid_by_steady [] net h = refl
  paid_by_steady (g ∷ gs) net (first, more) =
      rw first
        (paid_by_steady gs (if after g.paid_at later then net else insert g.id g.amount net) more)

  refunded_gift_steady :
      (gs : List Gift) (r : Refund)
      → IsSteady now later r.updated_at
      → refunded_gift gs now r ≡ refunded_gift gs later r
  unfolding refunded_gift
  refunded_gift_steady gs r h = elim (Option-cases (by_id gift_id r.gift_id gs)) [
    | inl absent ↦ ground arith
    | inr (g, found) ↦ ground arith
  ]

  new_refund_steady :
      (gs : List Gift) (l : Ledger) (r : Refund)
      → IsSteady now later r.updated_at
      → new_refund gs now l r ≡ new_refund gs later l r
  unfolding new_refund
  new_refund_steady gs l r h = rw (refunded_gift_steady gs r h) refl

  refund_step_steady :
      (gs : List Gift) (l : Ledger) (r : Refund)
      → IsSteady now later r.updated_at
      → refund_step gs now l r ≡ refund_step gs later l r
  unfolding refund_step
  refund_step_steady gs l r h = elim (Option-cases (lookup r.id l.seen)) [
    | inl fresh ↦ let same = new_refund_steady gs l r h in rw (refund_step, fresh, same) refl
    | inr (old, seen) ↦ rw (refund_step, seen) refl
  ]

  refunds_steady :
      (gs : List Gift) (l : Ledger) (rs : List Refund)
      → All (λ r. IsSteady now later r.updated_at) rs
      → fold_ok (refund_step gs now) l rs ≡ fold_ok (refund_step gs later) l rs
  unfolding fold_ok
  refunds_steady gs l [] h = refl
  refunds_steady gs l (r ∷ rs) (first, more) =
      let same = refund_step_steady gs l r first in
      rw same (>>=-same (refund_step gs later l r) (λ l' reached. refunds_steady gs l' rs more))

  -- If the moments of the payments and of the refunds' last updates lie on the same side of both times,
  -- the net gifts are the same at both.
  pub net_gifts_steady :
      (input : List Gift) (refunds : List Refund)
      → is_zero now ≡ false
      → is_zero later ≡ false
      → All (λ g. IsSteady now later g.paid_at) input
      → All (λ r. IsSteady now later r.updated_at) refunds
      → net_gifts input refunds now ≡ net_gifts input refunds later
  unfolding net_gifts
  net_gifts_steady input refunds begun on gifts updates =
      rw (begun, on)
        (>>=-same (clean_gifts input) (λ gs cleaned.
          rw
            (
              paid_by_steady gs []
                  (All-clean_gifts (λ g. IsSteady now later g.paid_at) input cleaned gifts),
              refunds_steady gs (record { seen = []; net = paid_by later gs [] }) refunds updates,
            )
            refl))
