-- ===== src/Events/Token.antt =====
-- The check-in token: `checkInToken`, `parseCheckInToken`, and the scan that `CheckIn` begins with.
--
-- Texts are lists of bytes here. base64url without padding and HMAC-SHA256 are Go's: parameters.
pub mod RoundTrip
use impact_graph.Base.{
  not, ℕ, zero, suc, ◌+◌, ◌*◌, ◌/◌, ◌%◌, ◌^◌, Bool, true, false, ◌&&◌, Option, none, some, List, [],
  ◌∷◌, ◌++◌, nat_eq, if◌then◌else◌, length, Result, err, ok, ensure, ◌>>◌,
}
use impact_graph.Events.{Store, EventError}
use impact_graph.Events.CheckIn.{check_in}
use EventError.{check_in_invalid, check_in_disabled}

abbrev pub Bytes : Type 0
Bytes = List ℕ

-- The bytes of a UUID, the highest first, and the number that they spell.
unfoldable pub bytes_of : ℕ → ℕ → Bytes
bytes_of zero n = []
bytes_of (suc k) n = bytes_of k (n / 256) ++ (n % 256 ∷ [])

unfoldable pub number_from : ℕ → Bytes → ℕ
number_from acc [] = acc
number_from acc (b ∷ bs) = number_from (acc * 256 + b) bs

abbrev pub number_of : Bytes → ℕ
number_of bs = number_from 0 bs

abbrev pub uuid_bytes : ℕ → Bytes
uuid_bytes id = bytes_of 16 id

-- hmac.Equal
unfoldable pub same_bytes : Bytes → Bytes → Bool
same_bytes [] [] = true
same_bytes [] (y ∷ ys) = false
same_bytes (x ∷ xs) [] = false
same_bytes (x ∷ xs) (y ∷ ys) = let rest = same_bytes xs ys in nat_eq x y && rest

abbrev pub dot : ℕ
dot = 46

-- strings.Cut at the first dot
unfoldable pub cut_dot : Bytes → Option (Bytes × Bytes)
cut_dot [] = none
cut_dot (x ∷ xs) =
    if nat_eq x dot
    then some ([], xs)
    else elim (cut_dot xs) [ none ↦ none | some (before, after) ↦ some (x ∷ before, after) ]

-- checkInTokenLength
abbrev pub check_in_token_length : ℕ
check_in_token_length = 22 + 1 + 43

module _ (encode : Bytes → Bytes) (decode : Bytes → Option Bytes)
    (mac : Bytes → Bytes → Bytes) where
  -- checkInToken: `mac` takes the secret and the message.
  unfoldable pub check_in_token : ℕ → Bytes → Bytes
  check_in_token event secret =
      encode (uuid_bytes event) ++ dot ∷ encode (mac secret (uuid_bytes event))

  -- The signature of a token, against the identifier's bytes.
  unfoldable pub verify_signature : Bytes → Bytes → Option Bytes → Option ℕ
  verify_signature secret raw none = none
  verify_signature secret raw (some sig) =
      if same_bytes sig (mac secret raw) then some (number_of raw) else none

  unfoldable pub parse_parts : Bytes → Option Bytes → Bytes → Option ℕ
  parse_parts secret none sig_part = none
  parse_parts secret (some raw) sig_part =
      if nat_eq (length raw) 16 then verify_signature secret raw (decode sig_part) else none

  unfoldable pub parse_cut : Bytes → Option (Bytes × Bytes) → Option ℕ
  parse_cut secret none = none
  parse_cut secret (some (id_part, sig_part)) = parse_parts secret (decode id_part) sig_part

  -- parseCheckInToken
  unfoldable pub parse_check_in_token : Bytes → Bytes → Option ℕ
  parse_check_in_token token secret =
      if nat_eq (length token) check_in_token_length then parse_cut secret (cut_dot token) else none

  scan_event : Store → ℕ → ℕ → Option ℕ → Result EventError (Store × Bool)
  scan_event s donor now none = err check_in_invalid
  scan_event s donor now (some event) = check_in s donor now event

  -- CheckIn, from the scanned token
  unfoldable pub scan : Bytes → Store → ℕ → ℕ → Bytes → Result EventError (Store × Bool)
  unfolding scan_event
  scan secret s donor now token =
      ensure (not (nat_eq (length secret) 0)) check_in_disabled
      >> scan_event s donor now (parse_check_in_token token secret)
