-- ===== src/Feedback/Stale.antt =====
-- Observations belong to one mounted session: a request of an earlier session of a mount is never
-- accepted again.
use ssh_mountmate.Base.{
  ℕ, suc, ◌+◌, ◌≡◌, ◌≤◌, ◌<◌, refl, sym, subst, Bool, true, Option, none, some, List, [], ◌∷◌,
  arith, ◌==◌, length, u64_max, wrapping_succ, ForSome, Bool-cases, inl, inr,
}
use ssh_mountmate.Text.{Text, text_eq, text_eq_refl, text_eq_sound}
use ssh_mountmate.Dict.{lookup}
use ssh_mountmate.Dict.Laws.{lookup-insert, lookup-remove, lookup-retain}
use ssh_mountmate.Feedback.{
  FeedbackRequest, MountFeedback, MountFeedbacks, new_feedback, open_session, start_read,
  of_generation, accept, accept_with, store_accepted, write_feedback, forget, retain_mounts,
}

-- What the application does to the map of sessions.
pub data Operation (F : Type 0) : Type 0 where
  start : Text → Operation F
  write : FeedbackRequest → (MountFeedback F → MountFeedback F) → Operation F
  drop_mount : Text → Operation F
  keep_mounts : (Text → Bool) → Operation F

module _ {F : Type 0} where
  abbrev pub operate : MountFeedbacks F → Operation F → MountFeedbacks F
  operate s (start id) = (start_read s id).0
  operate s (write request f) = accept_with s request f
  operate s (drop_mount id) = forget s id
  operate s (keep_mounts keep) = retain_mounts s keep

  unfoldable pub operate_all : MountFeedbacks F → List (Operation F) → MountFeedbacks F
  operate_all s [] = s
  operate_all s (o ∷ os) = operate_all (operate s o) os

  -- A predicate on generations, of the entry of one mount.
  abbrev pub EntryIs : (ℕ → Type 0) → Text → MountFeedbacks F → Type 0
  EntryIs P k s = ForSome (λ m. P m.generation) (lookup k s.mounts)

  pub open_session-EntryIs :
      (P : ℕ → Type 0) (k id : Text) (s : MountFeedbacks F) (o : Option (MountFeedback F))
      → P (wrapping_succ s.next_generation)
      → EntryIs P k s
      → EntryIs P k (open_session id s o).0
  open_session-EntryIs P k id s (some m) new h = h
  open_session-EntryIs P k id s none new h =
      rw (lookup-insert id k (new_feedback (wrapping_succ s.next_generation)) s.mounts)
        (elim (Bool-cases (text_eq id k)) [ inl e ↦ rw e new | inr e ↦ rw e h ])

  store_accepted-EntryIs :
      (P : ℕ → Type 0) (g : ℕ) (k id : Text) (s : MountFeedbacks F)
      (f : MountFeedback F → MountFeedback F) (o : Option (MountFeedback F))
      → (text_eq id k ≡ true → ForSome (λ m. P m.generation) o)
      → EntryIs P k s
      → EntryIs P k (store_accepted s id f (of_generation g o))
  store_accepted-EntryIs P g k id s f none p h = h
  store_accepted-EntryIs P g k id s f (some m) p h = elim (Bool-cases (m.generation == g)) [
    | inl e ↦ rw e (
        rw (lookup-insert id k (write_feedback f m) s.mounts)
          (elim (Bool-cases (text_eq id k)) [ inl q ↦ rw q (p q) | inr q ↦ rw q h ]))
    | inr e ↦ rw e h
  ]

  pub accept_with-EntryIs :
      (P : ℕ → Type 0) (k : Text) (s : MountFeedbacks F) (request : FeedbackRequest)
      (f : MountFeedback F → MountFeedback F)
      → EntryIs P k s
      → EntryIs P k (accept_with s request f)
  unfolding accept_with
  accept_with-EntryIs P k s request f h =
      store_accepted-EntryIs P request.generation k request.id s f (lookup request.id s.mounts)
        (λ e. subst (λ (x : Text). EntryIs P x s) (sym (text_eq_sound request.id k e)) h) h

  pub remove-EntryIs :
      (P : ℕ → Type 0) (k id : Text) (s : MountFeedbacks F)
      → EntryIs P k s
      → EntryIs P k (forget s id)
  unfolding forget
  remove-EntryIs P k id s h =
      rw (lookup-remove id k s.mounts)
        (elim (Bool-cases (text_eq id k)) [ inl e ↦ rw e tt | inr e ↦ rw e h ])

  pub retain-EntryIs :
      (P : ℕ → Type 0) (k : Text) (keep : Text → Bool) (s : MountFeedbacks F)
      → EntryIs P k s
      → EntryIs P k (retain_mounts s keep)
  unfolding retain_mounts
  retain-EntryIs P k keep s h =
      rw (lookup-retain keep k s.mounts)
        (elim (Bool-cases (keep k)) [ inl e ↦ rw e h | inr e ↦ rw e tt ])

  next-store_accepted :
      (s : MountFeedbacks F) (id : Text) (f : MountFeedback F → MountFeedback F)
      (o : Option (MountFeedback F))
      → (store_accepted s id f o).next_generation ≡ s.next_generation
  next-store_accepted s id f none = refl
  next-store_accepted s id f (some m) = refl

  pub next-accept_with :
      (s : MountFeedbacks F) (request : FeedbackRequest) (f : MountFeedback F → MountFeedback F)
      → (accept_with s request f).next_generation ≡ s.next_generation
  unfolding accept_with
  next-accept_with s request f = next-store_accepted s request.id f (accept s request)

  -- One operation takes at most one generation, as long as the counter does not wrap.
  pub next-open_session :
      (id : Text) (s : MountFeedbacks F) (o : Option (MountFeedback F))
      → s.next_generation < u64_max
      → let n = (open_session id s o).0.next_generation in
        (s.next_generation ≤ n) × (n ≤ suc s.next_generation)
  next-open_session id s (some m) h = (omega arith, omega arith)
  next-open_session id s none h = (omega arith, omega arith)

  pub next-operate :
      (s : MountFeedbacks F) (o : Operation F)
      → s.next_generation < u64_max
      → let n = (operate s o).next_generation in
        (s.next_generation ≤ n) × (n ≤ suc s.next_generation)
  unfolding start_read forget retain_mounts
  next-operate s (start id) h = next-open_session id s (lookup id s.mounts) h
  next-operate s (write request f) h =
      let e = next-accept_with s request f in (omega arith, omega arith)
  next-operate s (drop_mount id) h = (omega arith, omega arith)
  next-operate s (keep_mounts keep) h = (omega arith, omega arith)

  pub operate-EntryIs :
      (P : ℕ → Type 0) (k : Text) (s : MountFeedbacks F) (o : Operation F)
      → P (wrapping_succ s.next_generation)
      → EntryIs P k s
      → EntryIs P k (operate s o)
  unfolding start_read
  operate-EntryIs P k s (start id) new h = open_session-EntryIs P k id s (lookup id s.mounts) new h
  operate-EntryIs P k s (write request f) new h = accept_with-EntryIs P k s request f h
  operate-EntryIs P k s (drop_mount id) new h = remove-EntryIs P k id s h
  operate-EntryIs P k s (keep_mounts keep) new h = retain-EntryIs P k keep s h

  -- From a state where the mount has no older entry, no operations bring the generation back.
  newer_entries :
      (g : ℕ) (k : Text) (s : MountFeedbacks F) (os : List (Operation F))
      → g ≤ s.next_generation
      → s.next_generation + length os ≤ u64_max
      → EntryIs (λ n. g < n) k s
      → EntryIs (λ n. g < n) k (operate_all s os)
  unfolding operate_all
  newer_entries g k s [] le room h = h
  newer_entries g k s (o ∷ os) le room h =
      let (grows, by_one) = next-operate s o (omega arith) in
      newer_entries g k (operate s o) os (omega arith) (omega arith)
        (operate-EntryIs (λ n. g < n) k s o (omega arith) h)

  of_generation_older :
      (g : ℕ) (o : Option (MountFeedback F))
      → ForSome (λ m. g < m.generation) o
      → of_generation g o ≡ none
  of_generation_older g none h = refl
  of_generation_older g (some m) h = ground arith

  -- Once a mount is forgotten, a request of a generation that was given out before is refused,
  -- whatever sessions are started, written, forgotten or retained afterwards, as long as the
  -- 64-bit counter of generations does not wrap.
  pub accept_stale :
      (s : MountFeedbacks F) (request : FeedbackRequest) (os : List (Operation F))
      → request.generation ≤ s.next_generation
      → s.next_generation + length os ≤ u64_max
      → accept (operate_all (forget s request.id) os) request ≡ none
  unfolding accept forget
  accept_stale s request os le room = of_generation_older request.generation _ (
      newer_entries request.generation request.id (forget s request.id) os le room
        (rw (lookup-remove request.id request.id s.mounts) (rw (text_eq_refl request.id) tt)))
