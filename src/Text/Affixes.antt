-- ===== src/Text/Affixes.antt =====
-- What stands at the start and at the end of a text that was put together.
use ssh_mountmate.Base.{
  ℕ, ◌≡◌, refl, ap, Bool, true, false, ◌||◌, some, [], ◌∷◌, ◌++◌, arith, length, length-append,
  ==_refl,
}
use ssh_mountmate.Text.{
  Text, text_eq, text_eq-false, text_eq_refl, ends_with, strip_suffix, strip_prefix,
}

text_eq-longer : (c : ℕ) (s p : Text) → text_eq (c ∷ s ++ p) p ≡ false
text_eq-longer c s p =
    text_eq-false (c ∷ s ++ p) p (λ e. omega (arith, ap (λ t. length t) e, length-append s p))

pub strip_suffix-append : (s p : Text) → strip_suffix (s ++ p) p ≡ some s
unfolding strip_suffix
strip_suffix-append [] [] = refl
strip_suffix-append [] (d ∷ p) = rw (text_eq_refl (d ∷ p)) refl
strip_suffix-append (c ∷ s) p = rw (text_eq-longer c s p) (rw (strip_suffix-append s p) refl)

pub ends_with-append : (s p : Text) → ends_with (s ++ p) p ≡ true
unfolding ends_with
ends_with-append [] [] = refl
ends_with-append [] (c ∷ p) = rw (text_eq_refl (c ∷ p)) refl
ends_with-append (c ∷ s) p = rw (ends_with-append s p) (or_true (text_eq (c ∷ (s ++ p)) p))
  where
    or_true : (b : Bool) → (b || true) ≡ true
    or_true true = refl
    or_true false = refl

pub strip_prefix-append :
    (s p r : Text) → strip_prefix (s ++ (p ++ r)) (s ++ p) ≡ strip_prefix (p ++ r) p
unfolding strip_prefix
strip_prefix-append [] p r = refl
strip_prefix-append (c ∷ s) p r = rw (==_refl c) (strip_prefix-append s p r)
