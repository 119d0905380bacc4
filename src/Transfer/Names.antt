-- ===== src/Transfer/Names.antt =====
-- `transfer_matches`, the test by which a queue item finds its running transfer.
use ssh_mountmate.Base.{◌≡◌, refl, not, [], ◌∷◌, arith}
use ssh_mountmate.Text.{Text, is_empty, text_eq_comm, text_eq_refl}
use ssh_mountmate.Transfer.{normalized_transfer_name, names_agree, transfer_matches}

names_agree_comm : (a b : Text) → names_agree a b ≡ names_agree b a
unfolding names_agree
names_agree_comm a b = ground (arith, text_eq_comm a b)

names_agree_self : (a : Text) → names_agree a a ≡ not (is_empty a)
unfolding names_agree
names_agree_self [] = refl
names_agree_self (c ∷ s) = ground (arith, text_eq_refl (c ∷ s))

-- For all names, the order of the two is immaterial to `transfer_matches`; and a name matches
-- itself exactly when its normal form, with slashes for backslashes and none at its ends, is not
-- empty.
pub transfer_matches_lem :
    (a b : Text)
    → (transfer_matches a b ≡ transfer_matches b a)
      × (transfer_matches a a ≡ not (is_empty (normalized_transfer_name a)))
unfolding transfer_matches
transfer_matches_lem a b = (
  names_agree_comm (normalized_transfer_name a) (normalized_transfer_name b),
  names_agree_self (normalized_transfer_name a),
)
