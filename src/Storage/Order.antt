-- ===== src/Storage/Order.antt =====
-- What `reorder_servers` and `remove_servers` write.
use ssh_mountmate.Base.{
  ◌≡◌, refl, sym, ap, ◌∙◌, subst, Bool, true, false, not, ◌&&◌, ◌⊎◌, inl, inr, some, List, [], ◌∷◌,
  ◌++◌, map, All, arith, length, ◌==◌, keep_if, Bool-cases, if◌then◌else◌, Result, ok, ok_or,
  ok_or-ok, refuse_if, refuse_if-ok, bind-ok, then-ok, ok-injective, ◌>>=◌, ◌>>◌,
}
use ssh_mountmate.Text.{Text, codes, text_eq, text_eq_sound, text_eq_comm}
use ssh_mountmate.Dict.{Dict, mem, lookup, insert}
use ssh_mountmate.Dict.Laws.{lookup-insert}
use ssh_mountmate.Model.{ServerConfig}
use ssh_mountmate.Model.Tags.{distinct}
use ssh_mountmate.Storage.{
  StorageError, has_id, check_ids, remove_servers, by_id, pick, reorder_servers,
}

-- The server stands somewhere in the list.
abbrev pub IsIn : List ServerConfig → ServerConfig → Type 0
IsIn servers s =
    (before : List ServerConfig) × (after : List ServerConfig) × (servers ≡ before ++ s ∷ after)

IsIn-later : (x s : ServerConfig) (xs : List ServerConfig) → IsIn xs s → IsIn (x ∷ xs) s
IsIn-later x s xs h = (x ∷ h.0, h.1, ap (λ t. x ∷ t) h.2)

-- What a map that is built from the list holds for an identifier.
abbrev Found : Dict ServerConfig → List ServerConfig → Text → ServerConfig → Type 0
Found m servers id s = (lookup id m ≡ some s) ⊎ ((s.id ≡ id) × IsIn servers s)

lookup-by_id :
    (m : Dict ServerConfig) (servers : List ServerConfig) (id : Text) (s : ServerConfig)
    → lookup id (by_id m servers) ≡ some s
    → Found m servers id s
unfolding by_id
lookup-by_id m [] id s h = inl h
lookup-by_id m (x ∷ xs) id s h = go (lookup-by_id (insert x.id x m) xs id s h)
  where
    now :
        (b : Bool)
        → text_eq x.id id ≡ b
        → (if b then some x else lookup id m) ≡ some s
        → Found m (x ∷ xs) id s
    now true e h =
        let same : x ≡ s = ground (arith, h) in
        inr (ap (λ t. t.id) (sym same) ∙ text_eq_sound x.id id e, ([], xs, ap (λ t. t ∷ xs) same))
    now false e h = inl h

    go : Found (insert x.id x m) xs id s → Found m (x ∷ xs) id s
    go (inl e) = now (text_eq x.id id) refl (sym (lookup-insert x.id id x m) ∙ e)
    go (inr e) = inr (e.0, IsIn-later x s xs e.1)

-- One server for each identifier.
abbrev Picked : Dict ServerConfig → List Text → List ServerConfig → Type 0
Picked m [] [] = Unit
Picked m [] (s ∷ r) = ⊥
Picked m (id ∷ ids) [] = ⊥
Picked m (id ∷ ids) (s ∷ r) = (lookup id m ≡ some s) × Picked m ids r

abbrev AllNew : List Text → List Text → Type 0
AllNew seen ids = All (λ id. mem id seen ≡ false) ids

later_new :
    (id : Text) (seen ids : List Text)
    → AllNew (id ∷ seen) ids
    → AllNew seen ids × (mem id ids ≡ false)
unfolding mem
later_new id seen [] h = (tt, refl)
later_new id seen (x ∷ ids) h =
    let r = later_new id seen ids h.1 in
    ((ground (arith, h.0), r.0), ground (arith, h.0, r.1, text_eq_comm id x))

pick-ok :
    (m : Dict ServerConfig) (seen ids : List Text) (r : List ServerConfig)
    → pick m seen ids ≡ ok r
    → Picked m ids r × AllNew seen ids × (distinct ids ≡ true)
unfolding pick distinct
pick-ok m seen [] r h = (subst (Picked m []) (ok-injective [] r h) tt, tt, refl)
pick-ok m seen (id ∷ ids) r h =
    let twice = StorageError.invalid_preference_update (codes "duplicate connection ID: " ++ id) in
    let unknown = StorageError.missing_connection id in
    let more : ServerConfig → Result StorageError (List ServerConfig) =
      λ s. pick m (id ∷ seen) ids >>= λ rest. ok (s ∷ rest) in
    let n = then-ok (refuse_if (mem id seen) twice) (ok_or (lookup id m) unknown >>= more) r h in
    let f = bind-ok (ok_or (lookup id m) unknown) more r n.1 in
    let p = bind-ok (pick m (id ∷ seen) ids) (λ rest. ok (f.0 ∷ rest)) r f.2 in
    let q = pick-ok m (id ∷ seen) ids p.0 p.1 in
    let l = later_new id seen ids q.1 in
    (
      subst (Picked m (id ∷ ids)) (ok-injective (f.0 ∷ p.0) r p.2)
          (ok_or-ok (lookup id m) unknown f.0 f.1, q.0),
      (refuse_if-ok (mem id seen) twice n.0.0 n.0.1, l.0),
      rw l.1 q.2,
    )

Picked-ids :
    (servers : List ServerConfig) (ids : List Text) (r : List ServerConfig)
    → Picked (by_id [] servers) ids r
    → (map (λ s. s.id) r ≡ ids) × All (IsIn servers) r
Picked-ids servers [] [] h = (refl, tt)
Picked-ids servers [] (s ∷ r) h = absurd h
Picked-ids servers (id ∷ ids) [] h = absurd h
Picked-ids servers (id ∷ ids) (s ∷ r) h =
    let q = Picked-ids servers ids r h.1 in go (lookup-by_id [] servers id s h.0) q
  where
    go :
        Found [] servers id s
        → (map (λ s. s.id) r ≡ ids) × All (IsIn servers) r
        → (map (λ s. s.id) (s ∷ r) ≡ id ∷ ids) × All (IsIn servers) (s ∷ r)
    go (inl e) q = absurd (unfold lookup in cc e)
    go (inr e) q = (rw e.0 (ap (λ t. id ∷ t) q.0), (e.1, q.1))

-- A list that `reorder_servers` accepts has exactly the identifiers that were asked for, in that
-- order and none twice; it is as long as the saved list, and each of its servers stands in the
-- saved list, unchanged.
pub reorder_servers-IsIn :
    (ids : List Text) (servers r : List ServerConfig)
    → reorder_servers ids servers ≡ ok r
    → (map (λ s. s.id) r ≡ ids)
      × (distinct ids ≡ true)
      × (length ids ≡ length servers)
      × All (IsIn servers) r
unfolding reorder_servers
reorder_servers-IsIn ids servers r h =
    let wrong =
      StorageError.invalid_preference_update
        (codes "reorder must include every connection exactly once") in
    let n =
      then-ok (refuse_if (not (length ids == length servers)) wrong)
        (pick (by_id [] servers) [] ids) r h in
    let l = refuse_if-ok (not (length ids == length servers)) wrong n.0.0 n.0.1 in
    let p = pick-ok (by_id [] servers) [] ids r n.1 in
    let q = Picked-ids servers ids r p.0 in (q.0, p.2, ground (arith, l), q.1)

check_ids-ok :
    (servers : List ServerConfig) (seen ids : List Text) (u : Unit)
    → check_ids servers seen ids ≡ ok u
    → AllNew seen ids × (distinct ids ≡ true) × All (λ id. has_id id servers ≡ true) ids
unfolding check_ids distinct
check_ids-ok servers seen [] u h = (tt, refl, tt)
check_ids-ok servers seen (id ∷ ids) u h =
    let twice = StorageError.invalid_preference_update (codes "duplicate connection ID: " ++ id) in
    let unknown = StorageError.missing_connection id in
    let more = check_ids servers (id ∷ seen) ids in
    let n =
      then-ok (refuse_if (mem id seen) twice) (refuse_if (not (has_id id servers)) unknown >> more)
        u h in
    let k = then-ok (refuse_if (not (has_id id servers)) unknown) more u n.1 in
    let q = check_ids-ok servers (id ∷ seen) ids u k.1 in
    let l = later_new id seen ids q.0 in
    let known = refuse_if-ok (not (has_id id servers)) unknown k.0.0 k.0.1 in
    ((refuse_if-ok (mem id seen) twice n.0.0 n.0.1, l.0), rw l.1 q.1, (ground (arith, known), q.2))

has_id-keep :
    (j : Text) (ids : List Text) (servers : List ServerConfig)
    → has_id j (keep_if (λ s. not (mem s.id ids)) servers) ≡ (has_id j servers && not (mem j ids))
unfolding has_id
has_id-keep j ids [] = refl
has_id-keep j ids (s ∷ rest) = elim (Bool-cases (text_eq s.id j)) [
  | inl e ↦ ground (arith, has_id-keep j ids rest, ap (λ t. mem t ids) (text_eq_sound s.id j e), e)
  | inr e ↦ ground (arith, has_id-keep j ids rest, e)
]

-- Where `remove_servers` accepts the identifiers, they are all different and all saved; and an
-- identifier is saved afterwards exactly if it was saved before and is none of them.
pub remove_servers-has_id :
    (ids : List Text) (servers r : List ServerConfig) (j : Text)
    → remove_servers ids servers ≡ ok r
    → (distinct ids ≡ true)
      × All (λ id. has_id id servers ≡ true) ids
      × (has_id j r ≡ (has_id j servers && not (mem j ids)))
unfolding remove_servers
remove_servers-has_id ids servers r j h =
    let kept = keep_if (λ s. not (mem s.id ids)) servers in
    let c = then-ok (check_ids servers [] ids) (ok kept) r h in
    let q = check_ids-ok servers [] ids c.0.0 c.0.1 in
    (q.1, q.2, ap (λ t. has_id j t) (sym (ok-injective kept r c.1)) ∙ has_id-keep j ids servers)
