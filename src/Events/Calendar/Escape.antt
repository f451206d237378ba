-- ===== src/Events/Calendar/Escape.antt =====
-- An escaped text is read back by the unescaping of RFC 5545, with each line break as one "\n".
use impact_graph.Base.{
  ℕ, ◌≡◌, refl, Bool, true, false, ◌||◌, [], ◌∷◌, ◌++◌, nat_eq, if◌then◌else◌, arith,
}
use impact_graph.Events.Token.{Bytes}
use impact_graph.Events.Calendar.{replace_byte, replace_crlf, replace_crlf_from, escape_ics}

-- Reading a text value: a backslash before "n" or "N" is a line break, and before another byte the byte.
unfoldable pub unescape_from : Bool → Bytes → Bytes
unescape_from escaped [] = []
unescape_from escaped (x ∷ xs) =
    let rest = unescape_from (if escaped then false else nat_eq x 92) xs in
    if escaped
    then (if nat_eq x 110 || nat_eq x 78 then 10 else x) ∷ rest
    else if nat_eq x 92
    then rest
    else x ∷ rest

-- The text with each "\r\n" as one "\n".
abbrev pub one_break : Bytes → Bytes
one_break s = replace_crlf (10 ∷ []) s

-- What becomes of a byte.
abbrev escape_byte : ℕ → Bytes
escape_byte x = if nat_eq x 92 || (nat_eq x 59 || nat_eq x 44) then 92 ∷ x ∷ [] else x ∷ []

abbrev escape_bytes : Bytes → Bytes
escape_bytes [] = []
escape_bytes (x ∷ xs) = escape_byte x ++ escape_bytes xs

abbrev escape_all : Bytes → Bytes
escape_all [] = []
escape_all (x ∷ xs) = (if nat_eq x 10 then 92 ∷ 110 ∷ [] else escape_byte x) ++ escape_all xs

three_passes :
    (s : Bytes)
    → replace_byte 44
        (92 ∷ 44 ∷ [])
        (replace_byte 59 (92 ∷ 59 ∷ []) (replace_byte 92 (92 ∷ 92 ∷ []) s))
      ≡ escape_bytes s
unfolding replace_byte
three_passes [] = refl
three_passes (x ∷ xs) = ground (arith, three_passes xs)

abbrev nl : Bytes
nl = 92 ∷ 110 ∷ []

-- The last two passes.
passes :
    (returned : Bool) (s : Bytes)
    → replace_byte 10 nl (replace_crlf_from returned nl (escape_bytes s))
      ≡ escape_all (replace_crlf_from returned (10 ∷ []) s)
unfolding replace_byte replace_crlf_from
passes true [] = refl
passes false [] = refl
passes returned (x ∷ xs) = ground (arith, passes (nat_eq x 13) xs, passes false xs)

unescape_from-escape_all : (s : Bytes) → unescape_from false (escape_all s) ≡ s
unfolding unescape_from
unescape_from-escape_all [] = refl
unescape_from-escape_all (x ∷ xs) = ground (arith, unescape_from-escape_all xs)

-- What `escapeICS` writes reads as the text itself, with each "\r\n" as one "\n".
pub unescape-escape_ics : (s : Bytes) → unescape_from false (escape_ics s) ≡ one_break s
unfolding escape_ics
unescape-escape_ics s =
    rw (three_passes s) (rw (passes false s) (unescape_from-escape_all (one_break s)))
