-- ===== src/Base/Results.antt =====
-- Rust's `Result<A, E>` with the `?` operator.
use mathlib.Core.Bool.{Bool, true, false}
use mathlib.Core.Option.{Option, none, some}
use mathlib.Core.Path.{◌≡◌, refl, subst}
use ssh_mountmate.Base.Tests.{if◌then◌else◌}
use ssh_mountmate.Base.Lists.{ForSome}

pub data Result {ℓ} (E A : Type ℓ) : Type ℓ where
  ok : A → Result E A
  err : E → Result E A

infixl 10 ◌>>=◌
abbrev pub ◌>>=◌ {ℓ} : {E A B : Type ℓ} → Result E A → (A → Result E B) → Result E B
ok a >>= f = f a
err e >>= f = err e

-- `ok_or`
abbrev pub ok_or {ℓ} : {E A : Type ℓ} → Option A → E → Result E A
ok_or none e = err e
ok_or (some a) e = ok a

-- `if failed { return Err(e) }`
abbrev pub refuse_if {ℓ} : {E : Type ℓ} → Bool → E → Result E Unit
refuse_if true e = err e
refuse_if false e = ok tt

infixl 10 ◌>>◌
abbrev pub ◌>>◌ {ℓ} : {E A B : Type ℓ} → Result E A → Result E B → Result E B
ok a >> r = r
err e >> r = err e

pub ok_or-ok {ℓ} : {E A : Type ℓ} (o : Option A) (e : E) (a : A) → ok_or o e ≡ ok a → o ≡ some a
ok_or-ok none e a h = absurd (cc)
ok_or-ok (some b) e a h = cc

pub refuse_if-ok {ℓ} : {E : Type ℓ} (b : Bool) (e : E) (u : Unit) → refuse_if b e ≡ ok u → b ≡ false
refuse_if-ok true e u h = absurd (cc)
refuse_if-ok false e u h = refl

-- A chain that succeeds has gone through a first success.
pub bind-ok {ℓ} :
    {E A B : Type ℓ} (r : Result E A) (f : A → Result E B) (b : B)
    → (r >>= f) ≡ ok b
    → (a : A) × (r ≡ ok a) × (f a ≡ ok b)
bind-ok (ok a) f b h = (a, refl, h)
bind-ok (err e) f b h = absurd (cc)

-- A result, if it is one, satisfies the predicate.
abbrev pub ForOk {ℓ κ} : {E A : Type ℓ} → (A → Type κ) → Result E A → Type κ
ForOk P (ok a) = P a
ForOk P (err e) = Unit

pub ForOk-ok {ℓ κ} :
    {E A : Type ℓ} (P : A → Type κ) (r : Result E A) {a : A} → ForOk P r → r ≡ ok a → P a
ForOk-ok P (ok b) h e = subst (ForOk P) e h
ForOk-ok P (err c) h e = absurd (cc)

pub ForOk-bind {ℓ κ} :
    {E A B : Type ℓ} (P : B → Type κ) (r : Result E A) (f : A → Result E B)
    → ((a : A) → r ≡ ok a → ForOk P (f a))
    → ForOk P (r >>= f)
ForOk-bind P (ok a) f h = h a refl
ForOk-bind P (err e) f h = tt

pub ForOk-then {ℓ κ} :
    {E : Type ℓ} {B : Type ℓ} (P : B → Type κ) (r : Result E Unit) (s : Result E B)
    → (r ≡ ok tt → ForOk P s)
    → ForOk P (r >> s)
ForOk-then P (ok tt) s h = h refl
ForOk-then P (err e) s h = tt

pub ForOk-if {ℓ κ} :
    {E A : Type ℓ} (P : A → Type κ) (b : Bool) (r s : Result E A)
    → (b ≡ true → ForOk P r)
    → (b ≡ false → ForOk P s)
    → ForOk P (if b then r else s)
ForOk-if P true r s h k = h refl
ForOk-if P false r s h k = k refl

pub ForOk-ok_or {ℓ κ} :
    {E A : Type ℓ} (P : A → Type κ) (o : Option A) (e : E) → ForSome P o → ForOk P (ok_or o e)
ForOk-ok_or P none e h = tt
ForOk-ok_or P (some a) e h = h

pub then-ok {ℓ} :
    {E A B : Type ℓ} (r : Result E A) (s : Result E B) (b : B)
    → (r >> s) ≡ ok b
    → ((a : A) × (r ≡ ok a)) × (s ≡ ok b)
then-ok (ok a) s b h = ((a, refl), h)
then-ok (err e) s b h = absurd (cc)

pub ok-injective {ℓ} : {E A : Type ℓ} (a b : A) → ◌≡◌ {A = Result E A} (ok a) (ok b) → a ≡ b
ok-injective a b h = cc

pub unless-ok {ℓ} :
    {E A : Type ℓ} (b : Bool) (e : E) (a p : A)
    → (if b then err e else ok a) ≡ ok p
    → (b ≡ false) × (a ≡ p)
unless-ok true e a p h = absurd (cc)
unless-ok false e a p h = (refl, cc)
