-- ===== src/Prelude/Lists.antt =====
-- Lists measured and indexed by native numbers, under the library's names.
use Prim.Native.Nat.{ℕ, zero, suc, ◌+◌, ◌-◌, ◌≤◌}
use mathlib.Core.Path.{◌≡◌, refl, ap}
use mathlib.Core.List.{List, [], ◌∷◌, ◌++◌}
use native.Mathlib.Omega.{arith}

module _ {ℓ} {A : Type ℓ} where
  abbrev pub length : List A → ℕ
  length [] = 0
  length (x ∷ xs) = suc (length xs)

  -- A write out of bounds changes nothing.
  abbrev pub set : List A → ℕ → A → List A
  set [] i v = []
  set (x ∷ xs) zero v = v ∷ xs
  set (x ∷ xs) (suc i) v = x ∷ set xs i v

  pub length-append : (xs ys : List A) → length (xs ++ ys) ≡ length xs + length ys
  length-append [] ys = omega arith
  length-append (x ∷ xs) ys = omega (arith, length-append xs ys)

module _ {ℓ} {A : Type ℓ} where
  pub length-set : (xs : List A) (i : ℕ) (v : A) → length (set xs i v) ≡ length xs
  length-set [] i v = refl
  length-set (x ∷ xs) zero v = refl
  length-set (x ∷ xs) (suc i) v = ap suc (length-set xs i v)

module _ {ℓ} {A : Type ℓ} where
  abbrev pub get_or : List A → ℕ → A → A
  get_or [] i d = d
  get_or (x ∷ xs) zero d = x
  get_or (x ∷ xs) (suc i) d = get_or xs i d

  abbrev pub take : ℕ → List A → List A
  take zero xs = []
  take (suc n) [] = []
  take (suc n) (x ∷ xs) = x ∷ take n xs

  abbrev pub drop : ℕ → List A → List A
  drop zero xs = xs
  drop (suc n) [] = []
  drop (suc n) (x ∷ xs) = drop n xs

  abbrev pub replicate : ℕ → A → List A
  replicate zero a = []
  replicate (suc n) a = a ∷ replicate n a

module _ {ℓ} {A : Type ℓ} where
  pub length-take : (n : ℕ) (xs : List A) → n ≤ length xs → length (take n xs) ≡ n
  length-take zero xs h = refl
  length-take (suc n) [] h = absurd (omega arith)
  length-take (suc n) (x ∷ xs) h = ap suc (length-take n xs (omega arith))

  pub length-drop : (n : ℕ) (xs : List A) → length (drop n xs) ≡ length xs - n
  length-drop zero xs = omega arith
  length-drop (suc n) [] = omega arith
  length-drop (suc n) (x ∷ xs) = omega (arith, length-drop n xs)

  pub length-replicate : (n : ℕ) (a : A) → length (replicate n a) ≡ n
  length-replicate zero a = refl
  length-replicate (suc n) a = ap suc (length-replicate n a)

  pub drop-all : (xs : List A) (n : ℕ) → length xs ≡ n → drop n xs ≡ []
  drop-all [] zero h = refl
  drop-all [] (suc n) h = refl
  drop-all (x ∷ xs) zero h = absurd (omega arith)
  drop-all (x ∷ xs) (suc n) h = drop-all xs n (omega arith)

  pub append_assoc : (xs ys zs : List A) → (xs ++ ys) ++ zs ≡ xs ++ (ys ++ zs)
  append_assoc [] ys zs = refl
  append_assoc (x ∷ xs) ys zs = ap (λ l. x ∷ l) (append_assoc xs ys zs)

  pub append-nil : (xs : List A) → xs ++ [] ≡ xs
  append-nil [] = refl
  append-nil (x ∷ xs) = ap (λ l. x ∷ l) (append-nil xs)

  pub take-append : (xs ys : List A) (n : ℕ) → length xs ≡ n → take n (xs ++ ys) ≡ xs
  take-append [] ys zero h = refl
  take-append [] ys (suc n) h = absurd (omega arith)
  take-append (x ∷ xs) ys zero h = absurd (omega arith)
  take-append (x ∷ xs) ys (suc n) h = ap (λ l. x ∷ l) (take-append xs ys n (omega arith))

  pub drop-append : (xs ys : List A) (m k : ℕ) → length xs + k ≡ m → drop m (xs ++ ys) ≡ drop k ys
  drop-append [] ys m k h = ap (λ (j : ℕ). drop j ys) (omega arith)
  drop-append (x ∷ xs) ys zero k h = absurd (omega arith)
  drop-append (x ∷ xs) ys (suc m) k h = drop-append xs ys m k (omega arith)

  -- What a prefix holds does not depend on what follows it.
  pub take-prefix :
      (xs ys : List A) (n m : ℕ) → n ≤ m → m ≤ length xs → take n (take m xs ++ ys) ≡ take n xs
  take-prefix xs ys zero m h g = refl
  take-prefix xs ys (suc n) zero h g = absurd (omega arith)
  take-prefix [] ys (suc n) (suc m) h g = absurd (omega arith)
  take-prefix (x ∷ xs) ys (suc n) (suc m) h g =
      ap (λ l. x ∷ l) (take-prefix xs ys n m (omega arith) (omega arith))

  pub take-drop-prefix :
      (xs ys : List A) (o n m : ℕ)
      → o + n ≤ m
      → m ≤ length xs
      → take n (drop o (take m xs ++ ys)) ≡ take n (drop o xs)
  take-drop-prefix xs ys zero n m h g = take-prefix xs ys n m (omega arith) g
  take-drop-prefix xs ys (suc o) n zero h g = absurd (omega arith)
  take-drop-prefix [] ys (suc o) n (suc m) h g = absurd (omega arith)
  take-drop-prefix (x ∷ xs) ys (suc o) n (suc m) h g =
      take-drop-prefix xs ys o n m (omega arith) (omega arith)
