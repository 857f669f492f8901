-- ===== src/Prelude/Slices.antt =====
-- Slices of lists: how `take` and `drop` meet one another and `++`.
use Prim.Native.Nat.{ℕ, zero, suc, ◌+◌, ◌≤◌}
use mathlib.Core.Path.{◌≡◌, refl, ap}
use mathlib.Core.List.{List, [], ◌∷◌, ◌++◌}
use native.Mathlib.Omega.{arith}
use native.Mathlib.Nat.{suc-add}
use Prim.Native.Nat.add
use iperf_swift.Prelude.Lists.{length, take, drop}

module _ {ℓ} {A : Type ℓ} where
  pub take-all : (xs : List A) (n : ℕ) → length xs ≤ n → take n xs ≡ xs
  take-all [] zero h = refl
  take-all [] (suc n) h = refl
  take-all (x ∷ xs) zero h = absurd (omega arith)
  take-all (x ∷ xs) (suc n) h = ap (λ r. x ∷ r) (take-all xs n (omega arith))

  pub drop-all : (xs : List A) (n : ℕ) → length xs ≤ n → drop n xs ≡ []
  drop-all [] zero h = refl
  drop-all [] (suc n) h = refl
  drop-all (x ∷ xs) zero h = absurd (omega arith)
  drop-all (x ∷ xs) (suc n) h = drop-all xs n (omega arith)

  pub take-take : (xs : List A) (m n : ℕ) → m ≤ n → take m (take n xs) ≡ take m xs
  take-take xs zero n h = refl
  take-take xs (suc m) zero h = absurd (omega arith)
  take-take [] (suc m) (suc n) h = refl
  take-take (x ∷ xs) (suc m) (suc n) h = ap (λ r. x ∷ r) (take-take xs m n (omega arith))

  pub drop-take : (xs : List A) (k l : ℕ) → drop k (take (k + l) xs) ≡ take l (drop k xs)
  drop-take xs zero l = rw (add.zero l)
  drop-take [] (suc k) zero = rw suc-add
  drop-take [] (suc k) (suc l) = rw suc-add
  drop-take (x ∷ xs) (suc k) l = rw suc-add (drop-take xs k l)

  pub take-add : (xs : List A) (k l : ℕ) → take (k + l) xs ≡ take k xs ++ take l (drop k xs)
  take-add xs zero l = rw (add.zero l)
  take-add [] (suc k) zero = rw suc-add
  take-add [] (suc k) (suc l) = rw suc-add
  take-add (x ∷ xs) (suc k) l = rw suc-add (ap (λ r. x ∷ r) (take-add xs k l))

  pub take-append_left : (xs ys : List A) → take (length xs) (xs ++ ys) ≡ xs
  take-append_left [] ys = refl
  take-append_left (x ∷ xs) ys = ap (λ r. x ∷ r) (take-append_left xs ys)

  pub drop-append_left : (xs ys : List A) → drop (length xs) (xs ++ ys) ≡ ys
  drop-append_left [] ys = refl
  drop-append_left (x ∷ xs) ys = drop-append_left xs ys

  pub take-append_add : (xs ys : List A) (k : ℕ) → take (length xs + k) (xs ++ ys) ≡ xs ++ take k ys
  take-append_add [] ys k = rw (add.zero k)
  take-append_add (x ∷ xs) ys k = rw suc-add (ap (λ r. x ∷ r) (take-append_add xs ys k))

  pub take-append_le : (xs ys : List A) (n : ℕ) → n ≤ length xs → take n (xs ++ ys) ≡ take n xs
  take-append_le xs ys zero h = refl
  take-append_le [] ys (suc n) h = absurd (omega arith)
  take-append_le (x ∷ xs) ys (suc n) h = ap (λ r. x ∷ r) (take-append_le xs ys n (omega arith))
