-- ===== src/Base/Outcome.antt =====
-- Go's (value, error) results: a value or an error, and the early return on an error.
use mathlib.Core.Path.{◌≡◌, refl}
use mathlib.Core.Bool.{Bool, true, false}
use mathlib.Core.List.{List, [], ◌∷◌}
use native.Mathlib.Omega.{arith}

pub data Result {ℓ κ} (E : Type ℓ) (A : Type κ) : Type (ℓ ⊔ κ) where
  err : E → Result E A
  ok : A → Result E A

infixl 5 ◌>>=◌ ◌>>◌
abbrev pub ◌>>=◌ {ℓ} : {E A B : Type ℓ} → Result E A → (A → Result E B) → Result E B
err failure >>= next = err failure
ok value >>= next = next value

abbrev pub ◌>>◌ {ℓ} : {E A B : Type ℓ} → Result E A → Result E B → Result E B
first >> second = first >>= λ _. second

-- `if !b { return err }`
abbrev pub ensure {ℓ} : {E : Type ℓ} → Bool → E → Result E (Unit {ℓ})
ensure false e = err e
ensure true e = ok tt

-- A loop whose body may return an error.
unfoldable pub fold_ok {ℓ} : {E S A : Type ℓ} → (S → A → Result E S) → S → List A → Result E S
fold_ok f s [] = ok s
fold_ok f s (x ∷ xs) = f s x >>= λ s'. fold_ok f s' xs

-- A chain that ends well has had a value at each of its steps.
pub >>=-ok {ℓ} :
    {E A B : Type ℓ} (first : Result E A) (next : A → Result E B) {end : B}
    → (first >>= next) ≡ ok end
    → (value : A) × (first ≡ ok value) × (next value ≡ ok end)
>>=-ok (err failure) next h = cc
>>=-ok (ok value) next h = (value, refl, h)

-- Two chains agree that go on alike from the value of their first step.
pub >>=-same {ℓ} :
    {E A B : Type ℓ} (first : Result E A) {next next' : A → Result E B}
    → ((a : A) → first ≡ ok a → next a ≡ next' a)
    → (first >>= next) ≡ (first >>= next')
>>=-same (err failure) h = refl
>>=-same (ok value) h = h value refl

-- What each pass keeps, a loop that ends without an error keeps.
pub fold_ok_inv {ℓ κ} :
    {E S A : Type ℓ} (P : S → Type κ) (f : S → A → Result E S)
    → ((s : S) (x : A) (s' : S) → P s → f s x ≡ ok s' → P s')
    → (xs : List A) (s : S) (t : S) → P s
    → fold_ok f s xs ≡ ok t
    → P t
unfolding fold_ok
fold_ok_inv P f keep [] s t p h = let same : s ≡ t = ground arith in rw (← same) p
fold_ok_inv P f keep (x ∷ xs) s t p h =
    let (a, e, r) = >>=-ok (f s x) (λ s'. fold_ok f s' xs) h in
    fold_ok_inv P f keep xs a t (keep s x a p e) r
