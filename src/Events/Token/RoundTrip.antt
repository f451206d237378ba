-- ===== src/Events/Token/RoundTrip.antt =====
-- A token that the staff prints is read back, and a token that is accepted is one that was signed.
use impact_graph.Base.{
  ℕ, zero, suc, ◌+◌, ◌*◌, ◌/◌, ◌%◌, ◌^◌, ◌<◌, ◌≡◌, ◌≢◌, refl, ap, ◌∙◌, true, false, Option, none,
  some, [], ◌∷◌, ◌++◌, nat_eq, nat_eq_refl, nat_eq_iff, length, length-append, All, arith,
  Bool-cases, Option-cases, inl, inr, some_inj,
}
use native.Mathlib.Numerals.{unary_clauses}
use impact_graph.Events.Token.{
  Bytes, bytes_of, number_from, number_of, uuid_bytes, same_bytes, dot, cut_dot,
  check_in_token_length, check_in_token, verify_signature, parse_parts, parse_cut,
  parse_check_in_token,
}

length-bytes_of : (k n : ℕ) → length (bytes_of k n) ≡ k
unfolding bytes_of
length-bytes_of zero n = refl
length-bytes_of (suc k) n =
    omega (arith, length-append (bytes_of k (n / 256)) (n % 256 ∷ []), length-bytes_of k (n / 256))

number_from-append :
    (acc : ℕ) (bs : Bytes) (b : ℕ) → number_from acc (bs ++ (b ∷ [])) ≡ number_from acc bs * 256 + b
unfolding number_from
number_from-append acc [] b = refl
number_from-append acc (x ∷ xs) b = number_from-append (acc * 256 + x) xs b

fewer_places : (k n : ℕ) → n < 256 ^ suc k → n / 256 < 256 ^ k
fewer_places k n h = let h' : n < 256 ^ k * 256 = simp unary_clauses at h in omega arith

-- The bytes spell the number, where it has no more places.
number_of-bytes_of : (k n : ℕ) → n < 256 ^ k → number_of (bytes_of k n) ≡ n
unfolding number_from bytes_of
number_of-bytes_of zero n h = omega arith
number_of-bytes_of (suc k) n h =
    let high = number_of-bytes_of k (n / 256) (fewer_places k n h) in
    number_from-append 0 (bytes_of k (n / 256)) (n % 256) ∙ omega arith

same_bytes_refl : (bs : Bytes) → same_bytes bs bs ≡ true
unfolding same_bytes
same_bytes_refl [] = refl
same_bytes_refl (b ∷ bs) = rw (nat_eq_refl b, same_bytes_refl bs) refl

same_bytes_eq : (xs ys : Bytes) → same_bytes xs ys ≡ true → xs ≡ ys
unfolding same_bytes
same_bytes_eq [] [] h = refl
same_bytes_eq [] (y ∷ ys) h = cc
same_bytes_eq (x ∷ xs) [] h = cc
same_bytes_eq (x ∷ xs) (y ∷ ys) h = ground (arith, same_bytes_eq xs ys)

cut_dot-append : (xs ys : Bytes) → All (λ x. x ≢ dot) xs → cut_dot (xs ++ dot ∷ ys) ≡ some (xs, ys)
unfolding cut_dot
cut_dot-append [] ys h = refl
cut_dot-append (x ∷ xs) ys h =
    let miss : nat_eq x dot ≡ false = let ne = h.0 in ground arith in
    rw miss (rw (cut_dot-append xs ys h.1) refl)

-- What Go's packages promise: the decoding undoes the encoding, whose length and letters are known, and
-- a signature has 32 bytes.
pub record IsCodec (encode : Bytes → Bytes) (decode : Bytes → Option Bytes)
    (mac : Bytes → Bytes → Bytes) : Type 0 where
  pub decodes : (bs : Bytes) → decode (encode bs) ≡ some bs
  pub size : (bs : Bytes) → length (encode bs) ≡ (length bs * 8 + 5) / 6
  pub no_dot : (bs : Bytes) → All (λ x. x ≢ dot) (encode bs)
  pub mac_size : (secret message : Bytes) → length (mac secret message) ≡ 32

module _ (encode : Bytes → Bytes) (decode : Bytes → Option Bytes)
    (mac : Bytes → Bytes → Bytes) where
  length-check_in_token :
      (event : ℕ) (secret : Bytes)
      → IsCodec encode decode mac
      → length (check_in_token encode decode mac event secret) ≡ check_in_token_length
  unfolding check_in_token
  length-check_in_token event secret c =
      let raw = uuid_bytes event in
      omega (
        arith,
        length-append (encode raw) (dot ∷ encode (mac secret raw)),
        c.size raw,
        c.size (mac secret raw),
        length-bytes_of 16 event,
        c.mac_size secret raw,
      )

  -- The token of an event, a number of 128 bits, is accepted with the secret that it was signed with,
  -- and names the event, where base64 decodes what it encoded, in its known length and without a dot,
  -- and a signature has 32 bytes.
  pub parse_check_in_token-check_in_token :
      (event : ℕ) (secret : Bytes)
      → IsCodec encode decode mac
      → event < 256 ^ 16
      → parse_check_in_token encode decode mac
          (check_in_token encode decode mac event secret)
          secret
        ≡ some event
  unfolding parse_check_in_token check_in_token parse_cut parse_parts verify_signature
  parse_check_in_token-check_in_token event secret c small =
      let raw = uuid_bytes event in
      let sig = mac secret raw in
      rw (length-check_in_token event secret c) (
        rw (cut_dot-append (encode raw) (encode sig) (c.no_dot raw)) (
          rw (c.decodes raw) (
            rw (length-bytes_of 16 event) (
              rw (c.decodes sig)
                (rw (same_bytes_refl sig) (rw (number_of-bytes_of 16 event small) refl))))))

  verify_signature_sound :
      (secret raw : Bytes) (sig : Option Bytes) {event : ℕ}
      → verify_signature encode decode mac secret raw sig ≡ some event
      → (sig ≡ some (mac secret raw)) × (number_of raw ≡ event)
  unfolding verify_signature
  verify_signature_sound secret raw none h = cc
  verify_signature_sound secret raw (some sig) h =
      elim (Bool-cases (same_bytes sig (mac secret raw))) [
        | inl same ↦ (ap some (same_bytes_eq sig (mac secret raw) same), some_inj.0 (rw same at h))
        | inr other ↦ let k = rw other at h in cc
      ]

  -- A token that is accepted has the known length and one part before and one after its first dot, the
  -- parts decode to 16 bytes and to their signature under the secret, and the event that it names is
  -- the number of these bytes.
  pub parse_check_in_token_signed :
      (token secret : Bytes) (event : ℕ)
      → parse_check_in_token encode decode mac token secret ≡ some event
      → (id_part sig_part raw : Bytes) × (cut_dot token ≡ some (id_part, sig_part))
        × (decode id_part ≡ some raw)
        × (decode sig_part ≡ some (mac secret raw))
        × (length token ≡ check_in_token_length)
        × (length raw ≡ 16)
        × (number_of raw ≡ event)
  unfolding parse_check_in_token parse_cut parse_parts
  parse_check_in_token_signed token secret event h =
      elim (Bool-cases (nat_eq (length token) check_in_token_length)) [
        | inr wrong ↦ let k = rw wrong at h in cc
        | inl fits ↦ elim (Option-cases (cut_dot token)) [
          | inl whole ↦ let k = rw (fits, whole) at h in cc
          | inr ((id_part, sig_part), cut) ↦ elim (Option-cases (decode id_part)) [
            | inl garbled ↦ let k = rw (fits, cut, garbled) at h in cc
            | inr (raw, id_bytes) ↦ elim (Bool-cases (nat_eq (length raw) 16)) [
              | inr short ↦ let k = rw (fits, cut, id_bytes, short) at h in cc
              | inl sixteen ↦
                  let k = rw (fits, cut, id_bytes, sixteen) at h in
                  let (signed, names) = verify_signature_sound secret raw (decode sig_part) k in
                  (
                    id_part,
                    sig_part,
                    raw,
                    cut,
                    id_bytes,
                    signed,
                    (nat_eq_iff (length token) check_in_token_length).0 fits,
                    (nat_eq_iff (length raw) 16).0 sixteen,
                    names,
                  )
            ]
          ]
        ]
      ]
