-- ===== src/Recognition/Net.antt =====
-- `NetGifts`: the gifts paid by a time, net of the refunds that had succeeded by then.
pub mod Balance
pub mod Steady
use impact_graph.Base.{
  String, Bool, true, false, not, ◌&&◌, ◌||◌, Option, none, some, List, [], ◌∷◌, ltb, nat_eq, ◌==◌,
  if◌then◌else◌, ℤ, pos, ltb_ℤ, leb_ℤ, eqb_ℤ, ◌-ℤ◌, Result, ok, err, ◌>>=◌, ensure, fold_ok, Dict,
  lookup, insert, get_or, ◌>>◌,
}
use impact_graph.Base.Dedupe.{by_id}
use impact_graph.Recognition.Facts.{
  Time, is_zero, before, after, Failure, invalid, Gift, Refund, gift_id, clean_gifts,
}

-- `net` once the loop over the gifts has run
paid_by : Time → List Gift → Dict ℤ → Dict ℤ
paid_by as_of [] net = net
paid_by as_of (g ∷ gs) net =
    paid_by as_of gs (if after g.paid_at as_of then net else insert g.id g.amount net)

known_status : String → Bool
known_status s =
    s == "PENDING" || s == "REQUIRES_ACTION" || s == "SUCCEEDED" || s == "FAILED" || s == "CANCELED"

unfoldable pub refund_valid : Refund → Bool
unfolding known_status
refund_valid r =
    not (r.id == "" || leb_ℤ r.amount (pos 0) || not (r.currency == "USD") || is_zero r.updated_at)
    && known_status r.status

-- `old == r` on two refunds
unfoldable pub refund_eq : Refund → Refund → Bool
refund_eq r s =
    r.id == s.id
    && r.gift_id == s.gift_id
    && eqb_ℤ r.amount s.amount
    && r.status == s.status
    && nat_eq r.updated_at s.updated_at
    && r.currency == s.currency

-- The variables of the loop over the refunds.
pub record Ledger : Type 0 where
  pub seen : Dict Refund
  pub net : Dict ℤ

-- `net[g.ID] -= r.Amount`, with its guard, if the refund has succeeded
settle : Refund → Gift → Dict ℤ → Result Failure (Dict ℤ)
settle r g net =
    if r.status == "SUCCEEDED"
    then (if ltb_ℤ (get_or (pos 0) g.id net) r.amount
        then err invalid
        else ok (insert g.id (get_or (pos 0) g.id net -ℤ r.amount) net))
    else ok net

-- The gift that a refund is of, as the guard wants it.
refunded_gift : List Gift → Time → Refund → Result Failure Gift
refunded_gift gifts as_of r = elim (by_id gift_id r.gift_id gifts) [
  | none ↦ err invalid
  | some g ↦
      if after r.updated_at as_of || before r.updated_at g.paid_at || ltb_ℤ g.amount r.amount
      then err invalid
      else ok g
]

-- What a refund does that has not been seen.
new_refund : List Gift → Time → Ledger → Refund → Result Failure Ledger
unfolding settle refunded_gift
new_refund gifts as_of l r = do
  g ← refunded_gift gifts as_of r
  net ← settle r g l.net
  ok (record { seen = insert r.id r l.seen; net = net })

-- The body of the loop over the refunds.
refund_step : List Gift → Time → Ledger → Refund → Result Failure Ledger
unfolding new_refund
refund_step gifts as_of l r = do
  ensure (refund_valid r) invalid
  elim (lookup r.id l.seen) [
    | none ↦ new_refund gifts as_of l r
    | some old ↦ if refund_eq old r then ok l else err invalid
  ]

-- NetGifts
unfoldable pub net_gifts : List Gift → List Refund → Time → Result Failure (Dict ℤ)
unfolding paid_by refund_step
net_gifts input refunds as_of = if is_zero as_of then err invalid else do
  gifts ← clean_gifts input
  l ← fold_ok (refund_step gifts as_of) (record { seen = []; net = paid_by as_of gifts [] }) refunds
  ok l.net
