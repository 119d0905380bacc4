-- ===== src/Base/Lists.antt =====
-- Lists measured by native numbers, under the library's names, and searches with a Boolean test.
use Prim.Native.Nat.{ℕ, zero, suc, ◌+◌, ◌-◌, ◌≤◌, min}
use mathlib.Core.Path.{◌≡◌, refl, ap, subst}
use mathlib.Core.Bool.{Bool, true, false, ◌&&◌, ◌||◌}
use mathlib.Core.List.{List, [], ◌∷◌, ◌++◌}
use mathlib.Core.Option.{Option, none, some}
use native.Mathlib.Omega.{arith}
use ssh_mountmate.Base.Tests.{if◌then◌else◌}

module _ {ℓ} {A : Type ℓ} where
  abbrev pub length : List A → ℕ
  length [] = 0
  length (x ∷ xs) = suc (length xs)

  abbrev pub take : ℕ → List A → List A
  take zero xs = []
  take (suc n) [] = []
  take (suc n) (x ∷ xs) = x ∷ take n xs

  abbrev pub drop : ℕ → List A → List A
  drop zero xs = xs
  drop (suc n) [] = []
  drop (suc n) (x ∷ xs) = drop n xs

  -- `iter().filter(p).collect()`
  abbrev pub keep_if : (A → Bool) → List A → List A
  keep_if p [] = []
  keep_if p (x ∷ xs) = let rest = keep_if p xs in if p x then x ∷ rest else rest

  abbrev pub replicate : ℕ → A → List A
  replicate zero x = []
  replicate (suc n) x = x ∷ replicate n x

  -- `iter().any(p)` and `iter().all(p)`
  abbrev pub any : (A → Bool) → List A → Bool
  any p [] = false
  any p (x ∷ xs) = p x || any p xs

  abbrev pub all : (A → Bool) → List A → Bool
  all p [] = true
  all p (x ∷ xs) = p x && all p xs

  -- `iter().find(p)`
  abbrev pub find : (A → Bool) → List A → Option A
  find p [] = none
  find p (x ∷ xs) = let rest = find p xs in if p x then some x else rest

  abbrev pub All {κ} : (A → Type κ) → List A → Type κ
  All P [] = Unit
  All P (x ∷ xs) = P x × All P xs

module _ {ℓ} {A : Type ℓ} where
  pub length-append : (xs ys : List A) → length (xs ++ ys) ≡ length xs + length ys
  length-append [] ys = omega arith
  length-append (x ∷ xs) ys = omega (arith, length-append xs ys)

  pub eq-nil_of_length : (xs : List A) → length xs ≡ 0 → xs ≡ []
  eq-nil_of_length [] h = refl
  eq-nil_of_length (x ∷ xs) h = absurd (omega arith)

  pub length-concat : (xs : List A) (x : A) → length (xs ++ x ∷ []) ≡ suc (length xs)
  length-concat [] x = refl
  length-concat (y ∷ xs) x = ap suc (length-concat xs x)

  pub length-take : (n : ℕ) (xs : List A) → length (take n xs) ≡ min n (length xs)
  length-take zero xs = omega arith
  length-take (suc n) [] = omega arith
  length-take (suc n) (x ∷ xs) = omega (arith, length-take n xs)

  pub length-drop : (n : ℕ) (xs : List A) → length (drop n xs) ≡ length xs - n
  length-drop zero xs = omega arith
  length-drop (suc n) [] = omega arith
  length-drop (suc n) (x ∷ xs) = omega (arith, length-drop n xs)

  pub length-keep_if-le : (p : A → Bool) (xs : List A) → length (keep_if p xs) ≤ length xs
  length-keep_if-le p [] = omega arith
  length-keep_if-le p (x ∷ xs) = ground (arith, length-keep_if-le p xs)

  pub keep_if_idem : (p : A → Bool) (xs : List A) → keep_if p (keep_if p xs) ≡ keep_if p xs
  keep_if_idem p [] = refl
  keep_if_idem p (x ∷ xs) = go (p x) refl (keep_if_idem p xs)
    where
      go :
          (b : Bool)
          → p x ≡ b
          → keep_if p (keep_if p xs) ≡ keep_if p xs
          → keep_if p (if b then x ∷ keep_if p xs else keep_if p xs)
            ≡ (if b then x ∷ keep_if p xs else keep_if p xs)
      go true e h = rw e (ap (λ ys. x ∷ ys) h)
      go false e h = h

  pub All-append {κ} : (P : A → Type κ) (xs ys : List A) → All P xs → All P ys → All P (xs ++ ys)
  All-append P [] ys hx hy = hy
  All-append P (x ∷ xs) ys hx hy = (hx.0, All-append P xs ys hx.1 hy)

  pub keep_if-all : (p : A → Bool) (xs : List A) → all p xs ≡ true → keep_if p xs ≡ xs
  keep_if-all p [] h = refl
  keep_if-all p (x ∷ xs) h = ground (arith, keep_if-all p xs)

  pub any-append : (p : A → Bool) (xs ys : List A) → any p (xs ++ ys) ≡ (any p xs || any p ys)
  any-append p [] ys = refl
  any-append p (x ∷ xs) ys = ground (arith, any-append p xs ys)

-- What is there satisfies the predicate.
abbrev pub ForSome {ℓ κ} : {A : Type ℓ} → (A → Type κ) → Option A → Type κ
ForSome P none = Unit
ForSome P (some a) = P a

pub ForSome-some {ℓ κ} :
    {A : Type ℓ} (P : A → Type κ) (o : Option A) {a : A} → ForSome P o → o ≡ some a → P a
ForSome-some P none h e = absurd (cc)
ForSome-some P (some b) h e = subst (ForSome P) e h

-- A search with a test that chooses between the first element and the rest.
pub find-holds {ℓ} :
    {A : Type ℓ} (p : A → Bool) (xs : List A) → ForSome (λ a. p a ≡ true) (find p xs)
find-holds p [] = tt
find-holds p (x ∷ xs) = go (p x) refl (find-holds p xs)
  where
    go :
        (b : Bool)
        → p x ≡ b
        → ForSome (λ a. p a ≡ true) (find p xs)
        → ForSome (λ a. p a ≡ true) (if b then some x else find p xs)
    go true e h = e
    go false e h = h

pub find-some {ℓ} :
    {A : Type ℓ} (p : A → Bool) (xs : List A) (a : A) → find p xs ≡ some a → p a ≡ true
find-some p xs a h = ForSome-some (λ a. p a ≡ true) (find p xs) (find-holds p xs) h

pub ForSome-if {ℓ κ} :
    {A : Type ℓ} (P : A → Type κ) (b : Bool) (o : Option A) (a : A)
    → (b ≡ false → P a)
    → ForSome P o
    → ForSome P (if b then o else some a)
ForSome-if P true o a f h = h
ForSome-if P false o a f h = f refl
