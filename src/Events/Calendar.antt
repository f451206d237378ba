-- ===== src/Events/Calendar.antt =====
-- The text of a calendar file: `escapeICS` and `foldICS`. Texts are lists of bytes.
pub mod Escape
pub mod Fold
use impact_graph.Base.{
  ℕ, zero, suc, ◌/◌, Bool, true, false, not, ◌&&◌, ◌||◌, Option, none, some, List, [], ◌∷◌, ◌++◌,
  nat_eq, ltb, if◌then◌else◌, length, take,
}
use impact_graph.Events.Token.{Bytes}

-- strings.ReplaceAll of one byte
unfoldable pub replace_byte : ℕ → Bytes → Bytes → Bytes
replace_byte old new [] = []
replace_byte old new (x ∷ xs) =
    let rest = replace_byte old new xs in if nat_eq x old then new ++ rest else x ∷ rest

-- strings.ReplaceAll of "\r\n": the flag says that the byte before was a "\r", which is not written yet.
unfoldable pub replace_crlf_from : Bool → Bytes → Bytes → Bytes
replace_crlf_from returned new [] = if returned then 13 ∷ [] else []
replace_crlf_from returned new (x ∷ xs) =
    let rest = replace_crlf_from (nat_eq x 13) new xs in
    let next = if nat_eq x 13 then rest else x ∷ rest in
    if returned then (if nat_eq x 10 then new ++ rest else 13 ∷ next) else next

abbrev pub replace_crlf : Bytes → Bytes → Bytes
replace_crlf new s = replace_crlf_from false new s

-- escapeICS: backslash, semicolon, comma, "\r\n" and "\n", one after the other
unfoldable pub escape_ics : Bytes → Bytes
escape_ics s =
    let s₁ = replace_byte 92 (92 ∷ 92 ∷ []) s in
    let s₂ = replace_byte 59 (92 ∷ 59 ∷ []) s₁ in
    let s₃ = replace_byte 44 (92 ∷ 44 ∷ []) s₂ in
    let s₄ = replace_crlf (92 ∷ 110 ∷ []) s₃ in replace_byte 10 (92 ∷ 110 ∷ []) s₄

-- utf8.RuneStart: the two high bits are not 10
abbrev pub rune_start : ℕ → Bool
rune_start b = not (nat_eq (b / 64) 2)

unfoldable pub drop : ℕ → Bytes → Bytes
drop zero xs = xs
drop (suc n) [] = []
drop (suc n) (x ∷ xs) = drop n xs

-- `utf8.RuneStart(line[n])`, which the code asks within the line only
abbrev pub starts_rune : Bytes → Bool
starts_rune [] = true
starts_rune (b ∷ bs) = rune_start b

-- The inner loop: the cut goes back to the start of a rune.
unfoldable pub cut_back : Bytes → ℕ → ℕ
cut_back line zero = zero
cut_back line (suc n) = if starts_rune (drop (suc n) line) then suc n else cut_back line n

-- A fold
abbrev pub fold_mark : Bytes
fold_mark = 13 ∷ 10 ∷ 32 ∷ []

-- The outer loop, a round for each unit of fuel; the limit is 75 at first and 74 after a fold.
unfoldable pub fold_rounds : ℕ → ℕ → Bytes → Option Bytes
fold_rounds zero limit line = none
fold_rounds (suc n) limit line =
    if ltb limit (length line)
    then elim (fold_rounds n 74 (drop (cut_back line limit) line)) [
      | none ↦ none
      | some rest ↦ some (take (cut_back line limit) line ++ fold_mark ++ rest)
    ]
    else some (line ++ 13 ∷ 10 ∷ [])

-- foldICS: each round but the last writes a byte at least.
unfoldable pub fold_ics : Bytes → Option Bytes
fold_ics line = fold_rounds (suc (length line)) 75 line
