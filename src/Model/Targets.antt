-- ===== src/Model/Targets.antt =====
-- `mount_targets`: the servers that a connection with several mount mappings stands for.
use ssh_mountmate.Base.{
  ℕ, suc, ◌+◌, ◌≡◌, refl, ap, Bool, true, false, List, [], ◌∷◌, ◌++◌, map, arith, length, All,
  if◌then◌else◌,
}
use ssh_mountmate.Text.{Text, codes, text_eq, is_empty}
use ssh_mountmate.Dict.{mem}
use ssh_mountmate.Model.{
  MountMapping, ServerConfig, mount_targets, mapping_target, mapping_id, connection_id,
  primary_target,
}
use ssh_mountmate.Model.Tags.{distinct}

length-map {ℓ κ} :
    {A : Type ℓ} {B : Type κ} (f : A → B) (xs : List A) → length (map f xs) ≡ length xs
length-map f [] = refl
length-map f (x ∷ xs) = ap suc (length-map f xs)

-- One target for each mapping, and one for the connection itself where it has a mount of its own.
pub length-mount_targets :
    (s : ServerConfig)
    → length (mount_targets s) ≡ (if s.primary_mount then 1 else 0) + length s.mounts
unfolding mount_targets
length-mount_targets s = ground (arith, length-map (mapping_target s) s.mounts)

-- A target of the connection: it has no mappings of its own, it is a mount, and it reaches the
-- same host over the same connection.
abbrev pub IsTarget : ServerConfig → ServerConfig → Type 0
IsTarget s t =
    (t.mounts ≡ [])
    × (t.primary_mount ≡ true)
    × (connection_id t ≡ connection_id s)
    × (t.host ≡ s.host)
    × (t.port ≡ s.port)
    × (t.user ≡ s.user)

kept_connection :
    (s : ServerConfig) (i : Text)
    → is_empty (connection_id s) ≡ false
    → (if is_empty (connection_id s) then i else connection_id s) ≡ connection_id s
kept_connection s i h = rw h refl

mapping_targets :
    (s : ServerConfig) (ms : List MountMapping)
    → is_empty (connection_id s) ≡ false
    → All (IsTarget s) (map (mapping_target s) ms)
unfolding mapping_target
mapping_targets s [] h = tt
mapping_targets s (m ∷ ms) h = (
  (refl, refl, unfold connection_id in kept_connection s (mapping_id s m) h, refl, refl, refl),
  mapping_targets s ms h,
)

-- Where the connection has an identifier, every mount target is a target of the connection.
pub mount_targets-IsTarget :
    (s : ServerConfig) → is_empty (connection_id s) ≡ false → All (IsTarget s) (mount_targets s)
unfolding mount_targets
mount_targets-IsTarget s h = go s.primary_mount
  where
    go :
        (b : Bool)
        → All
            (IsTarget s)
            ((if b then primary_target s ∷ [] else []) ++ map (mapping_target s) s.mounts)
    go false = mapping_targets s s.mounts h
    go true = (
      (refl, refl, unfold connection_id in kept_connection s s.id h, refl, refl, refl),
      mapping_targets s s.mounts h,
    )

text_eq-prefix : (p s t : Text) → text_eq (p ++ s) (p ++ t) ≡ text_eq s t
unfolding text_eq
text_eq-prefix [] s t = refl
text_eq-prefix (c ∷ p) s t = ground (arith, text_eq-prefix p s t)

text_eq-longer : (p : Text) (c : ℕ) (t : Text) → text_eq (p ++ c ∷ t) p ≡ false
unfolding text_eq
text_eq-longer [] c t = refl
text_eq-longer (d ∷ p) c t = ground (arith, text_eq-longer p c t)

abbrev ids : List ServerConfig → List Text
ids ts = map (λ t. t.id) ts

mem-target_ids :
    (s : ServerConfig) (m : MountMapping) (ms : List MountMapping)
    → mem (mapping_id s m) (ids (map (mapping_target s) ms)) ≡ mem m.id (map (λ x. x.id) ms)
unfolding mem mapping_target mapping_id
mem-target_ids s m [] = refl
mem-target_ids s m (x ∷ ms) =
    rw (text_eq-prefix s.id (codes "--mount-" ++ x.id) (codes "--mount-" ++ m.id))
      (rw (text_eq-prefix (codes "--mount-") x.id m.id) (rw (mem-target_ids s m ms) refl))

distinct-target_ids :
    (s : ServerConfig) (ms : List MountMapping)
    → distinct (ids (map (mapping_target s) ms)) ≡ distinct (map (λ x. x.id) ms)
unfolding distinct mapping_target
distinct-target_ids s [] = refl
distinct-target_ids s (m ∷ ms) = ground (arith, mem-target_ids s m ms, distinct-target_ids s ms)

primary_not_among :
    (s : ServerConfig) (ms : List MountMapping) → mem s.id (ids (map (mapping_target s) ms)) ≡ false
unfolding mem mapping_target mapping_id
primary_not_among s [] = refl
primary_not_among s (m ∷ ms) =
    ground (arith, primary_not_among s ms, text_eq-longer s.id b'-' (codes "-mount-" ++ m.id))

-- The identifiers of the mount targets are all different exactly if those of the mappings are.
pub distinct-mount_targets :
    (s : ServerConfig)
    → distinct (map (λ t. t.id) (mount_targets s)) ≡ distinct (map (λ m. m.id) s.mounts)
unfolding mount_targets
distinct-mount_targets s = go s.primary_mount
  where
    go :
        (b : Bool)
        → distinct
            (ids ((if b then primary_target s ∷ [] else []) ++ map (mapping_target s) s.mounts))
          ≡ distinct (map (λ m. m.id) s.mounts)
    go false = distinct-target_ids s s.mounts
    go true = unfold distinct in rw (primary_not_among s s.mounts) (distinct-target_ids s s.mounts)
