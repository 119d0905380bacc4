-- ===== src/Text/Equality.antt =====
-- `text_eq` decides equality.
use ssh_mountmate.Base.{
  ◌≡◌, refl, ◌↔◌, ◌≢◌, true, false, [], ◌∷◌, arith, ==_iff, ==_refl, ◌==◌, &&-eq_true,
}
use ssh_mountmate.Text.Defs.{Text, text_eq}

pub text_eq_sound : (s t : Text) → text_eq s t ≡ true → s ≡ t
unfolding text_eq
text_eq_sound [] [] h = refl
text_eq_sound [] (d ∷ t) h = cc
text_eq_sound (c ∷ s) [] h = cc
text_eq_sound (c ∷ s) (d ∷ t) h =
    let (p, q) = &&-eq_true (c == d) (text_eq s t) h in cc ((==_iff c d).0 p, text_eq_sound s t q)

pub text_eq_refl : (s : Text) → text_eq s s ≡ true
unfolding text_eq
text_eq_refl [] = refl
text_eq_refl (c ∷ s) = rw ==_refl (text_eq_refl s)

pub text_eq_iff : (s t : Text) → (text_eq s t ≡ true) ↔ (s ≡ t)
text_eq_iff s t = (text_eq_sound s t, λ e. rw e (text_eq_refl t))

pub text_eq_comm : (s t : Text) → text_eq s t ≡ text_eq t s
text_eq_comm s t = ground (arith, text_eq_iff s t, text_eq_iff t s)

pub text_eq-false : (s t : Text) → s ≢ t → text_eq s t ≡ false
text_eq-false s t h = ground (arith, text_eq_iff s t)
