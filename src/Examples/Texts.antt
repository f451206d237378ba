-- ===== src/Examples/Texts.antt =====
-- The theorems on check-in tokens and on the calendar's text, at concrete texts.
use impact_graph.Base.{
  ℕ, zero, suc, ◌+◌, ◌-◌, ◌*◌, ◌/◌, ◌≡◌, ◌≢◌, refl, false, Option, some, [], ◌∷◌, ◌++◌, length,
  length-append, All, ltb, if◌then◌else◌, arith,
}
use impact_graph.Events.Token.{
  Bytes, number_of, cut_dot, check_in_token_length, check_in_token, parse_check_in_token, dot,
}
use impact_graph.Events.Token.RoundTrip.{
  IsCodec, parse_check_in_token-check_in_token, parse_check_in_token_signed,
}
use impact_graph.Events.Calendar.{escape_ics, fold_ics}
use impact_graph.Events.Calendar.Escape.{unescape_from, one_break, unescape-escape_ics}
use impact_graph.Events.Calendar.Fold.{IsSpaced, IsFolded, fold_ics-IsFolded}

-- An encoding with the promised length: the bytes above 100, and 99 as often as it takes.
shifted : Bytes → Bytes
shifted [] = []
shifted (b ∷ bs) = (b + 100) ∷ shifted bs

padding : ℕ → Bytes
padding zero = []
padding (suc n) = 99 ∷ padding n

sample_encode : Bytes → Bytes
unfolding shifted padding
sample_encode bs = shifted bs ++ padding ((length bs * 8 + 5) / 6 - length bs)

unshifted : Bytes → Bytes
unshifted [] = []
unshifted (x ∷ xs) = let rest = unshifted xs in if ltb x 100 then [] else (x - 100) ∷ rest

sample_decode : Bytes → Option Bytes
unfolding unshifted
sample_decode xs = some (unshifted xs)

sample_mac : Bytes → Bytes → Bytes
unfolding padding
sample_mac secret message = padding 32

length-shifted : (bs : Bytes) → length (shifted bs) ≡ length bs
unfolding shifted
length-shifted [] = refl
length-shifted (b ∷ bs) = omega (arith, length-shifted bs)

length-padding : (n : ℕ) → length (padding n) ≡ n
unfolding padding
length-padding zero = refl
length-padding (suc n) = omega (arith, length-padding n)

unshifted-padding : (n : ℕ) → unshifted (padding n) ≡ []
unfolding padding unshifted
unshifted-padding zero = refl
unshifted-padding (suc n) = refl

unshifted-shifted : (bs : Bytes) (n : ℕ) → unshifted (shifted bs ++ padding n) ≡ bs
unfolding shifted unshifted
unshifted-shifted [] n = unshifted-padding n
unshifted-shifted (b ∷ bs) n = ground (arith, unshifted-shifted bs n)

padding-no_dot : (n : ℕ) → All (λ (x : ℕ). x ≢ dot) (padding n)
unfolding padding
padding-no_dot zero = tt
padding-no_dot (suc n) = (λ h. omega arith, padding-no_dot n)

shifted-no_dot : (bs : Bytes) (n : ℕ) → All (λ (x : ℕ). x ≢ dot) (shifted bs ++ padding n)
unfolding shifted
shifted-no_dot [] n = padding-no_dot n
shifted-no_dot (b ∷ bs) n = (λ h. omega arith, shifted-no_dot bs n)

sample-IsCodec : IsCodec sample_encode sample_decode sample_mac
unfolding sample_encode sample_decode sample_mac
sample-IsCodec = record {
  decodes = λ bs. rw (unshifted-shifted bs ((length bs * 8 + 5) / 6 - length bs)) refl;
  size = λ bs.
      let pad = (length bs * 8 + 5) / 6 - length bs in
      omega
        (arith, length-append (shifted bs) (padding pad), length-shifted bs, length-padding pad);
  no_dot = λ bs. shifted-no_dot bs ((length bs * 8 + 5) / 6 - length bs);
  mac_size = λ secret message. length-padding 32;
}

abbrev secret : Bytes
secret = 115 ∷ []

abbrev sample_token : Bytes
sample_token = check_in_token sample_encode sample_decode sample_mac 258 secret

parse_check_in_token-check_in_token_example :
    parse_check_in_token sample_encode sample_decode sample_mac sample_token secret ≡ some 258
parse_check_in_token-check_in_token_example =
    parse_check_in_token-check_in_token sample_encode sample_decode sample_mac 258 secret
      sample-IsCodec (omega arith)

parse_check_in_token_signed_example :
    (id_part sig_part raw : Bytes) × (cut_dot sample_token ≡ some (id_part, sig_part))
    × (sample_decode id_part ≡ some raw)
    × (sample_decode sig_part ≡ some (sample_mac secret raw))
    × (length sample_token ≡ check_in_token_length)
    × (length raw ≡ 16)
    × (number_of raw ≡ 258)
parse_check_in_token_signed_example =
    parse_check_in_token_signed sample_encode sample_decode sample_mac sample_token secret 258
      parse_check_in_token-check_in_token_example

-- "a;\r\n\\"
abbrev title : Bytes
title = 97 ∷ 59 ∷ 13 ∷ 10 ∷ 92 ∷ []

unescape-escape_ics_example : unescape_from false (escape_ics title) ≡ one_break title
unescape-escape_ics_example = unescape-escape_ics title

letters : ℕ → Bytes → Bytes
letters zero ys = ys
letters (suc n) ys = 97 ∷ letters n ys

nothing-IsSpaced : IsSpaced []
unfolding impact_graph.Events.Calendar.drop
nothing-IsSpaced zero = refl
nothing-IsSpaced (suc n) = refl

letters-IsSpaced : (n : ℕ) (ys : Bytes) → IsSpaced ys → IsSpaced (letters n ys)
unfolding letters impact_graph.Events.Calendar.drop
letters-IsSpaced zero ys h m = h m
letters-IsSpaced (suc n) ys h zero = refl
letters-IsSpaced (suc n) ys h (suc m) = letters-IsSpaced n ys h m

-- The character of two bytes lies across the limit, so the fold goes before it.
abbrev accented : Bytes
accented = letters 74 (195 ∷ 169 ∷ letters 10 [])

accent-IsSpaced : IsSpaced (195 ∷ 169 ∷ letters 10 [])
unfolding letters impact_graph.Events.Calendar.drop
accent-IsSpaced zero = refl
accent-IsSpaced (suc zero) = refl
accent-IsSpaced (suc (suc m)) = letters-IsSpaced 10 [] nothing-IsSpaced m

fold_ics-IsFolded_example :
    (out : Bytes) × (fold_ics accented ≡ some out) × IsFolded 75 accented out
fold_ics-IsFolded_example =
    fold_ics-IsFolded accented (letters-IsSpaced 74 (195 ∷ 169 ∷ letters 10 []) accent-IsSpaced)
