-- ===== src/Events/Calendar/Fold.antt =====
-- `foldICS` ends on text in UTF-8, and its lines are short and break between characters.
use impact_graph.Base.{
  ℕ, zero, suc, ◌+◌, ◌≤◌, ◌<◌, ◌≡◌, refl, sym, ap, true, ◌||◌, some, [], ◌∷◌, ◌++◌, ltb, length,
  take, arith, Bool-cases, inl, inr,
}
use impact_graph.Events.Token.{Bytes}
use impact_graph.Events.Calendar.{drop, starts_rune, cut_back, fold_mark, fold_rounds, fold_ics}

-- Of any four bytes in succession one starts a character, as in every text in UTF-8.
abbrev pub IsSpaced : Bytes → Type 0
IsSpaced line =
    (n : ℕ)
    → (starts_rune (drop n line)
        || (starts_rune (drop (suc n) line)
            || (starts_rune (drop (suc (suc n)) line)
                || starts_rune (drop (suc (suc (suc n))) line))))
      ≡ true

take-drop : (n : ℕ) (xs : Bytes) → take n xs ++ drop n xs ≡ xs
unfolding drop
take-drop zero xs = refl
take-drop (suc n) [] = refl
take-drop (suc n) (x ∷ xs) = ap (λ ys. x ∷ ys) (take-drop n xs)

length-drop : (n : ℕ) (xs : Bytes) → n ≤ length xs → length (drop n xs) + n ≡ length xs
unfolding drop
length-drop zero xs h = omega arith
length-drop (suc n) [] h = absurd (omega arith)
length-drop (suc n) (x ∷ xs) h = let r = length-drop n xs (omega arith) in omega arith

length-take_all : (n : ℕ) (xs : Bytes) → n ≤ length xs → length (take n xs) ≡ n
length-take_all zero xs h = refl
length-take_all (suc n) [] h = absurd (omega arith)
length-take_all (suc n) (x ∷ xs) h = let r = length-take_all n xs (omega arith) in omega arith

drop-IsSpaced : (m : ℕ) (xs : Bytes) → IsSpaced xs → IsSpaced (drop m xs)
unfolding drop
drop-IsSpaced zero xs h = h
drop-IsSpaced (suc m) [] h = h
drop-IsSpaced (suc m) (x ∷ xs) h = drop-IsSpaced m xs (λ n. h (suc n))

-- The cut is at the start of a character, and three bytes before the limit at most.
cut_back-starts :
    (line : Bytes) (n : ℕ) → 0 < cut_back line n → starts_rune (drop (cut_back line n) line) ≡ true
unfolding cut_back
cut_back-starts line zero h = absurd (omega arith)
cut_back-starts line (suc n) h = elim (Bool-cases (starts_rune (drop (suc n) line))) [
  | inl here ↦ rw here here
  | inr back ↦ rw back (cut_back-starts line n (rw back at h))
]

cut_back-bounds :
    (line : Bytes) (k : ℕ)
    → IsSpaced line
    → (suc k ≤ cut_back line (suc (suc (suc (suc k)))))
      × (cut_back line (suc (suc (suc (suc k)))) ≤ suc (suc (suc (suc k))))
unfolding cut_back
cut_back-bounds line k h = let near = h (suc k) in ground arith

-- A line as physical lines of at most `limit` bytes, 74 after a fold and its space, each of which ends
-- before the start of a character.
pub data IsFolded : ℕ → Bytes → Bytes → Type 0 where
  last :
      {limit : ℕ} {line out : Bytes}
      → length line ≤ limit
      → out ≡ line ++ 13 ∷ 10 ∷ []
      → IsFolded limit line out
  fold :
      {limit : ℕ} {line out : Bytes} (piece rest after : Bytes)
      → line ≡ piece ++ rest
      → out ≡ piece ++ fold_mark ++ after
      → 0 < length piece
      → length piece ≤ limit
      → starts_rune rest ≡ true
      → IsFolded 74 rest after
      → IsFolded limit line out

fold_rounds-IsFolded :
    (n k : ℕ) (line : Bytes)
    → IsSpaced line
    → length line < n
    → (out : Bytes) × (fold_rounds n (suc (suc (suc (suc k)))) line ≡ some out)
      × IsFolded (suc (suc (suc (suc k)))) line out
unfolding fold_rounds
fold_rounds-IsFolded zero k line h fuel = absurd (omega arith)
fold_rounds-IsFolded (suc n) k line h fuel =
    let limit = suc (suc (suc (suc k))) in
    elim (Bool-cases (ltb limit (length line))) [
      | inr short ↦ (line ++ 13 ∷ 10 ∷ [], rw short refl, IsFolded.last (ground arith) refl)
      | inl long ↦
          let c = cut_back line limit in
          let (low, high) = cut_back-bounds line k h in
          let fits : c ≤ length line = ground arith in
          let less = length-drop c line fits in
          let (after, ends, folded) =
            fold_rounds-IsFolded n 70 (drop c line) (drop-IsSpaced c line h) (omega arith) in
          (
            take c line ++ fold_mark ++ after,
            rw (long, ends) refl,
            IsFolded.fold (take c line) (drop c line) after (sym (take-drop c line)) refl
                (let e = length-take_all c line fits in omega arith)
                (let e = length-take_all c line fits in omega arith)
                (cut_back-starts line limit (omega arith)) folded,
          )
    ]

-- `foldICS` ends on a line in which of any four bytes in succession one starts a character, which holds
-- in UTF-8: its physical lines have 75 bytes at most, the space of a fold counted, the line is what they
-- hold together, and no fold is within a character.
pub fold_ics-IsFolded :
    (line : Bytes)
    → IsSpaced line
    → (out : Bytes) × (fold_ics line ≡ some out) × IsFolded 75 line out
unfolding fold_ics
fold_ics-IsFolded line h = fold_rounds-IsFolded (suc (length line)) 71 line h (omega arith)
