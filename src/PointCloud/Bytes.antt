-- ===== src/PointCloud/Bytes.antt =====
-- Slices of byte lists. Lemmas for the point clouds; no code is modelled here.
use wtbcar_autoware_nav.Prelude.{
  length-take, length-drop, append-nil, take-append, drop-append, take-drop-prefix, ℕ, zero, suc,
  ◌+◌, ◌≤◌, ◌≡◌, refl, ap, sym, ◌∙◌, true, leb, Bool, none, if◌then◌else◌, Bool-cases, inl, inr,
  List, [], ◌∷◌, ◌++◌, take, drop, length, length-append, some, arith,
}
use mathlib.Core.Option.{some-injective, none-ne-some}
use wtbcar_autoware_nav.PointCloud.{slice}

-- A slice inside the buffer is there, and has the length that was asked for.
pub slice_lem :
    (bytes : List ℕ) (offset n : ℕ)
    → offset + n ≤ length bytes
    → (part : List ℕ) × ((slice bytes offset n ≡ some part) × (length part ≡ n))
slice_lem bytes offset n h = (
  take n (drop offset bytes),
  (defined, length-take n (drop offset bytes) (omega (arith, length-drop offset bytes))),
)
  where
    test : leb (offset + n) (length bytes) ≡ true
    test = ground arith

    defined : slice bytes offset n ≡ some (take n (drop offset bytes))
    defined = unfold slice in rw test

-- A slice of what follows a prefix.
pub slice-append :
    (before bytes : List ℕ) (k offset n : ℕ)
    → length before ≡ k
    → slice (before ++ bytes) (k + offset) n ≡ slice bytes offset n
unfolding slice
slice-append before bytes k offset n h =
    rw (drop-append before bytes (k + offset) offset (omega arith), same_test)
  where
    same_test : leb (k + offset + n) (length (before ++ bytes)) ≡ leb (offset + n) (length bytes)
    same_test = ground (arith, length-append before bytes)

-- The slice of a whole part.
pub slice-part :
    (part after : List ℕ) (n : ℕ) → length part ≡ n → slice (part ++ after) 0 n ≡ some part
unfolding slice
slice-part part after n h = rw (test, take-append part after n h)
  where
    test : leb (0 + n) (length (part ++ after)) ≡ true
    test = ground (arith, length-append part after)

-- A slice of a prefix.
pub slice-take :
    (bytes after : List ℕ) (o n m : ℕ)
    → o + n ≤ m
    → m ≤ length bytes
    → slice (take m bytes ++ after) o n ≡ slice bytes o n
unfolding slice
slice-take bytes after o n m h g = rw (take-drop-prefix bytes after o n m h g, same_test)
  where
    same_test : leb (o + n) (length (take m bytes ++ after)) ≡ leb (o + n) (length bytes)
    same_test = ground (arith, length-append (take m bytes) after, length-take m bytes g)

-- A slice that is there.
slice-some :
    (bytes : List ℕ) (o m : ℕ) {p : List ℕ}
    → slice bytes o m ≡ some p
    → (o + m ≤ length bytes) × (take m (drop o bytes) ≡ p)
unfolding slice
slice-some bytes o m {p} h = elim (Bool-cases (leb (o + m) (length bytes))) [
  | inl e ↦ (
    ground arith,
    some-injective (take m (drop o bytes)) p
        (sym (ap (λ (b : Bool). if b then some (take m (drop o bytes)) else none) e) ∙ h),
  )
  | inr e ↦ absurd (
      none-ne-some p
        (sym (ap (λ (b : Bool). if b then some (take m (drop o bytes)) else none) e) ∙ h))
]

drop-nil {ℓ} : {A : Type ℓ} (n : ℕ) → drop {A = A} n [] ≡ []
drop-nil zero = refl
drop-nil (suc n) = refl

drop-drop {ℓ} : {A : Type ℓ} (xs : List A) (o k : ℕ) → drop k (drop o xs) ≡ drop (o + k) xs
drop-drop xs zero k = ap (λ (j : ℕ). drop j xs) (omega arith)
drop-drop [] (suc o) k = drop-nil k ∙ sym (drop-nil (suc o + k))
drop-drop (x ∷ xs) (suc o) k =
    drop-drop xs o k
    ∙ ap (λ (j : ℕ). drop j (x ∷ xs)) {x = suc (o + k)} {y = suc o + k} (omega arith)

-- A slice of a slice.
pub slice-slice :
    (bytes : List ℕ) (o m k n : ℕ) {p : List ℕ}
    → slice bytes o m ≡ some p
    → k + n ≤ m
    → slice bytes (o + k) n ≡ slice p k n
slice-slice bytes o m k n {p} h g =
    let (inside, part) = slice-some bytes o m h in
    sym (of_drop inside)
    ∙ (sym (slice-take (drop o bytes) [] k n m g (omega (arith, inside, length-drop o bytes)))
        ∙ ap (λ l. slice l k n) (append-nil (take m (drop o bytes)) ∙ part))
  where
    of_drop : o + m ≤ length bytes → slice (drop o bytes) k n ≡ slice bytes (o + k) n
    of_drop inside = unfold slice in rw (drop-drop bytes o k, same_test)
      where
        same_test : leb (k + n) (length (drop o bytes)) ≡ leb (o + k + n) (length bytes)
        same_test = ground (arith, length-drop o bytes)
