-- ===== src/Base/TextOrder.antt =====
-- Go's order of strings, byte by byte, which is the order of the native `compare`.
use Prim.Native.Char.{Char, code}
use Prim.Native.Nat.{Ordering, compare as compare_ℕ}
use Prim.Native.String.compare
use Prim.Native.String.{String, [], ◌∷◌, compare, then}
use mathlib.Core.Path.{◌≡◌, refl}
use mathlib.Core.Bool.{Bool, true, false}
use native.Mathlib.Omega.{arith}
use impact_graph.Base.Sort.{TotalOrder}

unfoldable pub text_le : String → String → Bool
text_le s t = elim (compare s t) [ Ordering.gt ↦ false | _ ↦ true ]

text_le-nil : (s : String) → text_le [] s ≡ true
unfolding text_le
text_le-nil [] = refl
text_le-nil (c ∷ s) =
    let e : compare [] (c ∷ s) ≡ Ordering.lt = compare.nil-cons c s in ground (arith, e)

text_le-cons-nil : (c : Char) (s : String) → text_le (c ∷ s) [] ≡ false
unfolding text_le
text_le-cons-nil c s =
    let e : compare (c ∷ s) [] ≡ Ordering.gt = compare.cons-nil c s in ground (arith, e)

text_le-cons :
    (c d : Char) (s t : String)
    → text_le (c ∷ s) (d ∷ t) ≡ (elim (compare_ℕ (code c) (code d)) [
      | Ordering.lt ↦ true
      | Ordering.eq ↦ text_le s t
      | Ordering.gt ↦ false
    ])
unfolding text_le
text_le-cons c d s t =
    let e : compare (c ∷ s) (d ∷ t) ≡ then (compare_ℕ (code c) (code d)) (compare s t) =
      compare.cons-cons c d s t in
    ground (arith, e)

text_le_total : (s t : String) → text_le s t ≡ false → text_le t s ≡ true
text_le_total [] t h = cc (text_le-nil t)
text_le_total (c ∷ s) [] h = text_le-nil (c ∷ s)
text_le_total (c ∷ s) (d ∷ t) h =
    ground (arith, text_le-cons c d s t, text_le-cons d c t s, text_le_total s t)

text_le_trans : (s t u : String) → text_le s t ≡ true → text_le t u ≡ true → text_le s u ≡ true
text_le_trans [] t u h k = text_le-nil u
text_le_trans (c ∷ s) [] u h k = cc (text_le-cons-nil c s)
text_le_trans (c ∷ s) (d ∷ t) [] h k = cc (text_le-cons-nil d t)
text_le_trans (c ∷ s) (d ∷ t) (e ∷ u) h k =
    ground
      (arith, text_le-cons c d s t, text_le-cons d e t u, text_le-cons c e s u, text_le_trans s t u)

pub text_order : TotalOrder text_le
text_order = record { total = text_le_total; trans = text_le_trans }
