-- ===== src/Action.antt =====
-- Fallible operations on a state: what one gives, and the state that it leaves. The state is
-- returned with an error too.
use ssh_mountmate.Base.{◌≡◌, Result, ok, err, subst}

abbrev pub Action : Type 0 → Type 0 → Type 0 → Type 0
Action E S A = S → Result E A × S

module _ {E S A : Type 0} where
  abbrev pub pure : A → Action E S A
  pure a s = (ok a, s)

  abbrev pub throw : E → Action E S A
  throw e s = (err e, s)

  -- A result that the state has no part in.
  abbrev pub lift : Result E A → Action E S A
  lift r s = (r, s)

-- The rest of an operation after a part of it: `?`, or the two arms of a `match`.
abbrev pub next : {E S A B : Type 0} → (A → Action E S B) → Result E A × S → Result E B × S
next f (ok a, s) = f a s
next f (err e, s) = (err e, s)

abbrev pub next_or :
    {D E S A B : Type 0} → (A → Action E S B) → (D → Action E S B) → Result D A × S → Result E B × S
next_or f g (ok a, s) = f a s
next_or f g (err e, s) = g e s

infixl 10 ◌>>=◌ ◌>>◌
abbrev pub ◌>>=◌ : {E S A B : Type 0} → Action E S A → (A → Action E S B) → Action E S B
◌>>=◌ m f s = next f (m s)

abbrev pub ◌>>◌ : {E S B : Type 0} → Action E S (Unit {0}) → Action E S B → Action E S B
◌>>◌ m k s = next (λ u. k) (m s)

-- What holds of a value and the state after success, and of an error and the state after failure.
abbrev pub Ends : {E S A : Type 0} → (A → S → Type 0) → (E → S → Type 0) → Result E A × S → Type 0
Ends P Q (ok a, s) = P a s
Ends P Q (err e, s) = Q e s

module _ {D E S A B : Type 0} (P : A → S → Type 0) (Q : D → S → Type 0) (P' : B → S → Type 0)
    (Q' : E → S → Type 0) where
  pub Ends-next_or :
      (f : A → Action E S B) (g : D → Action E S B) (r : Result D A × S)
      → Ends P Q r
      → ((a : A) (s : S) → P a s → Ends P' Q' (f a s))
      → ((e : D) (s : S) → Q e s → Ends P' Q' (g e s))
      → Ends P' Q' (next_or f g r)
  Ends-next_or f g (ok a, s) h k l = k a s h
  Ends-next_or f g (err e, s) h k l = l e s h

module _ {E S A B : Type 0} (P : A → S → Type 0) (Q : E → S → Type 0) (P' : B → S → Type 0)
    (Q' : E → S → Type 0) where
  pub Ends-next :
      (f : A → Action E S B) (r : Result E A × S)
      → Ends P Q r
      → ((a : A) (s : S) → P a s → Ends P' Q' (f a s))
      → ((e : E) (s : S) → Q e s → Q' e s)
      → Ends P' Q' (next f r)
  Ends-next f (ok a, s) h k l = k a s h
  Ends-next f (err e, s) h k l = l e s h

module _ {E S A : Type 0} (P : A → S → Type 0) (Q : E → S → Type 0) where
  pub Ends-ok : (r : Result E A × S) {a : A} {s : S} → Ends P Q r → r ≡ (ok a, s) → P a s
  Ends-ok r h e = subst (Ends P Q) e h

  pub Ends-err : (r : Result E A × S) {e : E} {s : S} → Ends P Q r → r ≡ (err e, s) → Q e s
  Ends-err r h e = subst (Ends P Q) e h

pub Ends-both :
    {E S A : Type 0} (P P' : A → S → Type 0) (Q Q' : E → S → Type 0) (r : Result E A × S)
    → Ends P Q r
    → Ends P' Q' r
    → Ends (λ a s. P a s × P' a s) (λ e s. Q e s × Q' e s) r
Ends-both P P' Q Q' (ok a, s) h k = (h, k)
Ends-both P P' Q Q' (err e, s) h k = (h, k)
