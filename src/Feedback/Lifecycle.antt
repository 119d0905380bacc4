-- ===== src/Feedback/Lifecycle.antt =====
-- A request lives exactly as long as its session: from the start of a read to `forget`.
use ssh_mountmate.Base.{
  ℕ, ◌+◌, ◌≡◌, ◌≤◌, ◌<◌, ◌-◌, refl, subst, Option, none, some, List, [], ◌∷◌, arith, length,
  u64_max, wrapping_succ, ForSome, ==_refl,
}
use ssh_mountmate.Text.{Text, text_eq_refl}
use ssh_mountmate.Dict.{lookup}
use ssh_mountmate.Dict.Laws.{lookup-insert}
use ssh_mountmate.Feedback.{
  MountFeedback, MountFeedbacks, no_mounts, new_feedback, open_session, start_read, accept, forget,
  retain_mounts,
}
use ssh_mountmate.Feedback.Stale.{
  Operation, start, write, drop_mount, keep_mounts, operate, operate_all, EntryIs,
  open_session-EntryIs, accept_with-EntryIs, remove-EntryIs, retain-EntryIs, next-operate,
  next-accept_with, accept_stale,
}

module _ {F : Type 0} where
  -- The entry that a read starts with: the one of the session, or a fresh one.
  abbrev pub session_entry : ℕ → Option (MountFeedback F) → MountFeedback F
  session_entry next none = new_feedback next
  session_entry next (some m) = m

  accept-open_session :
      (id : Text) (s : MountFeedbacks F) (o : Option (MountFeedback F))
      → lookup id s.mounts ≡ o
      → accept (open_session id s o).0 (open_session id s o).1
        ≡ some (session_entry (wrapping_succ s.next_generation) o)
  unfolding accept
  accept-open_session id s none e =
      rw (lookup-insert id id (new_feedback (wrapping_succ s.next_generation)) s.mounts)
        (rw (text_eq_refl id) (rw (==_refl (wrapping_succ s.next_generation))))
  accept-open_session id s (some m) e = rw e (rw (==_refl m.generation))

  -- The request of a started read is accepted: it gives the entry that the mount has, or a fresh
  -- one, with no observation, if it has none.
  pub accept-start_read :
      (s : MountFeedbacks F) (id : Text)
      → accept (start_read s id).0 (start_read s id).1
        ≡ some (session_entry (wrapping_succ s.next_generation) (lookup id s.mounts))
  unfolding start_read
  accept-start_read s id = accept-open_session id s (lookup id s.mounts) refl

  weaken :
      (a b : ℕ) (o : Option (MountFeedback F))
      → a ≤ b
      → ForSome (λ m. m.generation ≤ a) o
      → ForSome (λ m. m.generation ≤ b) o
  weaken a b none le h = tt
  weaken a b (some m) le h = omega arith

  abbrev IsBounded : Text → MountFeedbacks F → Type 0
  IsBounded k s = EntryIs (λ n. n ≤ s.next_generation) k s

  open_session-IsBounded :
      (k id : Text) (s : MountFeedbacks F) (o : Option (MountFeedback F))
      → s.next_generation < u64_max
      → IsBounded k s
      → IsBounded k (open_session id s o).0
  open_session-IsBounded k id s (some m) room h = h
  open_session-IsBounded k id s none room h =
      let next = wrapping_succ s.next_generation in
      open_session-EntryIs (λ n. n ≤ next) k id s none (omega arith)
        (weaken s.next_generation next (lookup k s.mounts) (omega arith) h)

  -- No entry is ahead of the counter.
  operate-IsBounded :
      (k : Text) (s : MountFeedbacks F) (o : Operation F)
      → s.next_generation < u64_max
      → IsBounded k s
      → IsBounded k (operate s o)
  operate-IsBounded k s (start id) room h =
      unfold start_read in open_session-IsBounded k id s (lookup id s.mounts) room h
  operate-IsBounded k s (write request f) room h =
      rw (next-accept_with s request f)
        (accept_with-EntryIs (λ n. n ≤ s.next_generation) k s request f h)
  operate-IsBounded k s (drop_mount id) room h =
      unfold forget in remove-EntryIs (λ n. n ≤ s.next_generation) k id s h
  operate-IsBounded k s (keep_mounts keep) room h =
      unfold retain_mounts in retain-EntryIs (λ n. n ≤ s.next_generation) k keep s h

  operate_all-IsBounded :
      (k : Text) (s : MountFeedbacks F) (os : List (Operation F))
      → s.next_generation + length os ≤ u64_max
      → IsBounded k s
      → IsBounded k (operate_all s os)
        × (s.next_generation ≤ (operate_all s os).next_generation)
        × ((operate_all s os).next_generation ≤ s.next_generation + length os)
  unfolding operate_all
  operate_all-IsBounded k s [] room h = (h, omega arith, omega arith)
  operate_all-IsBounded k s (o ∷ os) room h =
      let (grows, by_one) = next-operate s o (omega arith) in
      let (a, b, c) =
        operate_all-IsBounded k (operate s o) os (omega arith)
          (operate-IsBounded k s o (omega arith) h) in
      (a, omega arith, omega arith)

  generation-open_session :
      (id : Text) (s : MountFeedbacks F) (o : Option (MountFeedback F))
      → ForSome (λ m. m.generation ≤ s.next_generation) o
      → (open_session id s o).1.generation ≤ (open_session id s o).0.next_generation
  generation-open_session id s none h = omega arith
  generation-open_session id s (some m) h = h

  id-open_session :
      (id : Text) (s : MountFeedbacks F) (o : Option (MountFeedback F))
      → (open_session id s o).1.id ≡ id
  id-open_session id s none = refl
  id-open_session id s (some m) = refl

  -- From the empty map, after any operations, a read of a mount is started; after any others the
  -- mount is forgotten, and any more follow, a new session of the same mount among them. The
  -- result of that first read is then refused, if there are fewer than 2^64 - 2 operations.
  pub accept_after_forget :
      (before between after : List (Operation F)) (id : Text)
      → length before + length between + length after < u64_max - 1
      → let (s, request) = start_read (operate_all no_mounts before) id in
        accept (operate_all (forget (operate_all s between) id) after) request ≡ none
  accept_after_forget before between after id room =
      let s0 = operate_all no_mounts before in
      let (b0, _, c0) =
        operate_all-IsBounded id no_mounts before (omega arith) (unfold lookup in tt) in
      let s = (start_read s0 id).0 in
      let request = (start_read s0 id).1 in
      let (grows, by_one) = next-operate s0 (start id) (omega arith) in
      let b1 = operate-IsBounded id s0 (start id) (omega arith) b0 in
      let (_, b, c) = operate_all-IsBounded id s between (omega arith) b1 in
      let known : request.generation ≤ s.next_generation =
        unfold start_read in generation-open_session id s0 (lookup id s0.mounts) b0 in
      let same : request.id ≡ id =
        unfold start_read in id-open_session id s0 (lookup id s0.mounts) in
      subst
        (λ (x : Text). accept (operate_all (forget (operate_all s between) x) after) request ≡ none)
        same (accept_stale (operate_all s between) request after (omega arith) (omega arith))
