-- ===== src/Base/Chars.antt =====
-- What Go's package strings does with the characters of a text, as far as the program uses it.
use Prim.Native.Char.{Char, code}
use Prim.Native.Nat.{ℕ, ◌-◌, ◌+◌}
use Prim.Native.String.{String, [], ◌∷◌, char_at}
use mathlib.Core.Bool.{Bool, true, false, ◌&&◌}
use impact_graph.Base.Tests.{leb, nat_eq, if◌then◌else◌}

-- `lo <= r && r <= hi`
abbrev pub in_range : ℕ → ℕ → Char → Bool
in_range lo hi c = leb lo (code c) && leb (code c) hi

-- unicode.ToLower on the characters whose lower case is a letter a to z: A to Z, the Kelvin sign and
-- the dotted capital I. Any other character stays a character that is no letter a to z.
unfoldable pub lower_char : Char → Char
lower_char c =
    if in_range b'A' b'Z' c
    then char_at "abcdefghijklmnopqrstuvwxyz" (code c - b'A')
    else if nat_eq (code c) 0x212A
    then "k"
    else if nat_eq (code c) 0x130
    then "i"
    else c

-- strings.ToLower, up to the characters that are no letters a to z
unfoldable pub to_lower : String → String
unfolding lower_char
to_lower [] = []
to_lower (c ∷ s) = lower_char c ∷ to_lower s

-- The letter that stands for the characters that simple folding makes equal: the Kelvin sign folds
-- with k and the long s with s.
unfoldable pub fold_code : ℕ → ℕ
fold_code n =
    if leb b'A' n && leb n b'Z'
    then n + 32
    else if nat_eq n 0x212A
    then b'k'
    else if nat_eq n 0x17F
    then b's'
    else n

-- strings.EqualFold, where one of the texts has letters A to Z only
unfoldable pub equal_fold : String → String → Bool
unfolding fold_code
equal_fold [] [] = true
equal_fold (c ∷ s) (d ∷ t) = nat_eq (fold_code (code c)) (fold_code (code d)) && equal_fold s t
equal_fold _ _ = false

-- A loop over the characters that stops at the first one that fails.
abbrev pub all_chars : (Char → Bool) → String → Bool
all_chars test [] = true
all_chars test (c ∷ s) = test c && all_chars test s
