-- ===== src/Transfer/Claim.antt =====
-- What the search of the first loop finds, and what it marks.
use ssh_mountmate.Base.{
  ℕ, ◌+◌, ◌≡◌, inl, inr, refl, ap, Bool, true, false, not, ◌&&◌, Option, none, some, List, [], ◌∷◌,
  ◌++◌, length, keep_if, all, arith, Bool-cases, All,
}
use ssh_mountmate.Text.{Text}
use ssh_mountmate.Transfer.{
  ActiveTransfer, Candidate, claim, transfer_matches, is_matched, is_unmatched,
}

module _ {F : Type 0} where
  -- A transfer that `claim` may take for that name.
  abbrev pub is_available : Text → Candidate F → Bool
  is_available name c = not c.matched && transfer_matches name c.transfer.name

  abbrev pub is_taken : Text → Candidate F → Bool
  is_taken name c = not (is_available name c)

  -- The two results of `claim`.
  pub data Claims (name : Text) (cs : List (Candidate F)) : Type 0 where
    nothing : all (is_taken name) cs ≡ true → claim name cs ≡ (none, cs) → Claims name cs
    first :
        (before : List (Candidate F)) (c : Candidate F) (after : List (Candidate F))
        → cs ≡ before ++ c ∷ after
        → all (is_taken name) before ≡ true
        → is_available name c ≡ true
        → claim name cs ≡ (some c.transfer, before ++ record c { matched = true } ∷ after)
        → Claims name cs

  claim_here :
      (name : Text) (c : Candidate F) (cs : List (Candidate F))
      → is_available name c ≡ true
      → claim name (c ∷ cs) ≡ (some c.transfer, record c { matched = true } ∷ cs)
  unfolding claim
  claim_here name c cs h = rw h

  claim_later :
      (name : Text) (c : Candidate F) (cs : List (Candidate F))
      → is_available name c ≡ false
      → claim name (c ∷ cs) ≡ ((claim name cs).0, c ∷ (claim name cs).1)
  unfolding claim
  claim_later name c cs h = rw h

  Claims-cons :
      (name : Text) (c : Candidate F) (cs : List (Candidate F))
      → is_available name c ≡ false
      → Claims name cs
      → Claims name (c ∷ cs)
  Claims-cons name c cs h (nothing u e) = nothing (rw h u) (rw (claim_later name c cs h, e))
  Claims-cons name c cs h (first before d after s u a e) =
      first (c ∷ before) d after (ap (◌∷◌ c) s) (rw h u) a (rw (claim_later name c cs h, e))

  -- For every name and every state of the marks, `claim` takes the first transfer that matches the
  -- name and is not marked, and marks that one and no other; if there is none it takes none and
  -- changes no mark.
  pub claim-Claims : (name : Text) (cs : List (Candidate F)) → Claims name cs
  claim-Claims name [] = nothing refl (unfold claim in refl)
  claim-Claims name (c ∷ cs) = elim (Bool-cases (is_available name c)) [
    | inl a ↦ first [] c cs refl refl a (claim_here name c cs a)
    | inr n ↦ Claims-cons name c cs n (claim-Claims name cs)
  ]

  -- How many transfers are marked after a claim.
  abbrev pub added : Option (ActiveTransfer F) → ℕ
  added none = 0
  added (some t) = 1

  pub matched-claim :
      (name : Text) (cs : List (Candidate F))
      → length (keep_if is_matched (claim name cs).1)
        ≡ length (keep_if is_matched cs) + added (claim name cs).0
  unfolding claim
  matched-claim name [] = omega arith
  matched-claim name (c ∷ cs) = ground (arith, matched-claim name cs)

  pub length-claim : (name : Text) (cs : List (Candidate F)) → length (claim name cs).1 ≡ length cs
  unfolding claim
  length-claim name [] = refl
  length-claim name (c ∷ cs) = ground (arith, length-claim name cs)

  pub matched-unmatched :
      (cs : List (Candidate F))
      → length (keep_if is_matched cs) + length (keep_if is_unmatched cs) ≡ length cs
  matched-unmatched [] = omega arith
  matched-unmatched (c ∷ cs) = ground (arith, matched-unmatched cs)

  -- A property of transfers, not of marks, is kept.
  pub All-claim :
      (P : ActiveTransfer F → Type 0) (name : Text) (cs : List (Candidate F))
      → All (λ c. P c.transfer) cs
      → All (λ c. P c.transfer) (claim name cs).1
  unfolding claim
  All-claim P name [] h = h
  All-claim P name (c ∷ cs) h = elim (Bool-cases (is_available name c)) [
    | inl a ↦ rw a h
    | inr n ↦ rw n (h.0, All-claim P name cs h.1)
  ]
