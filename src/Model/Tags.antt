-- ===== src/Model/Tags.antt =====
-- `normalize_tags`: which tags stay, in which form, and that a second pass changes nothing.
use ssh_mountmate.Base.{
  ◌≡◌, refl, sym, ap, ◌∙◌, Bool, true, false, not, ◌&&◌, ◌||◌, List, [], ◌∷◌, ◌++◌, arith, all, any,
  Bool-cases, inl, inr, any-append, append_assoc, append-nil,
}
use ssh_mountmate.Text.{Text, text_eq, text_eq_sound, text_eq_comm, text_eq_refl, is_empty, trim}
use ssh_mountmate.Text.Trim.{trim_idem}
use ssh_mountmate.Dict.{mem}
use ssh_mountmate.Model.{collect_tags, normalize_tags}

-- Not blank, and with no white space at its ends.
unfoldable pub is_tag : Text → Bool
is_tag t = not (is_empty t) && text_eq (trim t) t

unfoldable pub distinct : List Text → Bool
distinct [] = true
distinct (t ∷ ts) = not (mem t ts) && distinct ts

-- The normal form of a list of tags.
abbrev pub is_normal : List Text → Bool
is_normal tags = all is_tag tags && distinct tags

pub mem-append : (t : Text) (xs ys : List Text) → mem t (xs ++ ys) ≡ (mem t xs || mem t ys)
unfolding mem
mem-append t xs ys = any-append (λ x. text_eq x t) xs ys

mem-cons : (t x : Text) (xs : List Text) → mem t (x ∷ xs) ≡ (text_eq x t || mem t xs)
unfolding mem
mem-cons t x xs = refl

mem-nil : (t : Text) → mem t [] ≡ false
unfolding mem
mem-nil t = refl

distinct-concat :
    (xs : List Text) (t : Text)
    → distinct xs ≡ true
    → mem t xs ≡ false
    → distinct (xs ++ t ∷ []) ≡ true
unfolding distinct
distinct-concat [] t h k = ground (arith, mem-nil t)
distinct-concat (x ∷ xs) t h k = ground (
  arith,
  distinct-concat xs t,
  mem-append x xs (t ∷ []),
  mem-cons x t [],
  mem-nil x,
  mem-cons t x xs,
  text_eq_comm t x,
)

distinct-drop : (xs ys : List Text) → distinct (xs ++ ys) ≡ true → distinct ys ≡ true
unfolding distinct
distinct-drop [] ys h = h
distinct-drop (x ∷ xs) ys h = distinct-drop xs ys (ground arith)

all-concat :
    (xs : List Text) (t : Text)
    → all is_tag xs ≡ true
    → is_tag t ≡ true
    → all is_tag (xs ++ t ∷ []) ≡ true
all-concat [] t h k = ground arith
all-concat (x ∷ xs) t h k = ground (arith, all-concat xs t)

is_tag-trim : (t : Text) → is_empty (trim t) ≡ false → is_tag (trim t) ≡ true
unfolding is_tag
is_tag-trim t h = rw h (rw (trim_idem t) (text_eq_refl (trim t)))

collect_tags-normal :
    (kept tags : List Text)
    → all is_tag kept ≡ true
    → distinct kept ≡ true
    → is_normal (collect_tags kept tags) ≡ true
unfolding collect_tags
collect_tags-normal kept [] h k = ground arith
collect_tags-normal kept (t ∷ ts) h k = elim (Bool-cases (is_empty (trim t))) [
  | inl e ↦ rw e (collect_tags-normal kept ts h k)
  | inr e ↦ elim (Bool-cases (mem (trim t) kept)) [
    | inl m ↦ rw e (rw m (collect_tags-normal kept ts h k))
    | inr m ↦ rw e (
        rw m (
          collect_tags-normal (kept ++ trim t ∷ []) ts
            (all-concat kept (trim t) h (is_tag-trim t e)) (distinct-concat kept (trim t) k m)))
  ]
]

singleton-normal : (t : Text) → is_empty (trim t) ≡ false → is_normal (trim t ∷ []) ≡ true
unfolding distinct
singleton-normal t e = ground (arith, is_tag-trim t e, mem-nil (trim t))

-- Every tag that `normalize_tags` leaves is not blank and has no white space at its ends, and no
-- tag is left twice.
pub normalize_tags-is_normal :
    (tags : List Text) (legacy : Text) → is_normal (normalize_tags tags legacy) ≡ true
unfolding normalize_tags distinct
normalize_tags-is_normal tags legacy = elim (Bool-cases (is_empty (collect_tags [] tags))) [
  | inr e ↦ rw e (collect_tags-normal [] tags refl refl)
  | inl e ↦ elim (Bool-cases (is_empty (trim legacy))) [
    | inl l ↦ rw e (rw l refl)
    | inr l ↦ rw e (rw l (singleton-normal legacy l))
  ]
]

-- What may be added is not there yet.
new :
    (kept : List Text) (t : Text) (ts : List Text)
    → distinct (kept ++ t ∷ ts) ≡ true
    → mem t kept ≡ false
unfolding distinct
new [] t ts k = mem-nil t
new (x ∷ xs) t ts k = ground (
  arith,
  new xs t ts,
  mem-append x xs (t ∷ ts),
  mem-cons x t ts,
  mem-cons t x xs,
  text_eq_comm t x,
)

-- `collect_tags` adds tags in normal form that it has not seen as they are.
collect_tags-id :
    (kept tags : List Text)
    → all is_tag tags ≡ true
    → distinct (kept ++ tags) ≡ true
    → collect_tags kept tags ≡ kept ++ tags
unfolding collect_tags is_tag
collect_tags-id kept [] h k = sym (append-nil kept)
collect_tags-id kept (t ∷ ts) h k =
    let e : trim t ≡ t = text_eq_sound (trim t) t (ground arith) in
    let n : is_empty t ≡ false = ground arith in
    let m : mem t kept ≡ false = new kept t ts k in
    rw e (
      rw n (
        rw m (
          collect_tags-id (kept ++ t ∷ []) ts (ground arith) (rw (append_assoc kept (t ∷ []) ts) k)
          ∙ append_assoc kept (t ∷ []) ts)))

normal-id : (tags : List Text) → is_normal tags ≡ true → collect_tags [] tags ≡ tags
normal-id tags h = collect_tags-id [] tags (ground arith) (ground arith)

-- Tags in normal form, one at least, are left as they are, whatever the legacy folder is.
pub normalize_tags-id :
    (tags : List Text) (legacy : Text)
    → is_normal tags ≡ true
    → is_empty tags ≡ false
    → normalize_tags tags legacy ≡ tags
unfolding normalize_tags
normalize_tags-id tags legacy h e = rw (normal-id tags h) (rw e refl)

normalize_tags-empty :
    (tags : List Text) (legacy : Text)
    → is_empty (normalize_tags tags legacy) ≡ true
    → normalize_tags (normalize_tags tags legacy) legacy ≡ normalize_tags tags legacy
unfolding normalize_tags collect_tags
normalize_tags-empty tags legacy h = elim (Bool-cases (is_empty (trim legacy))) [
  | inl e ↦ rw (nil (normalize_tags tags legacy) h) (rw e refl)
  | inr e ↦ elim (Bool-cases (is_empty (collect_tags [] tags))) [
    | inl k ↦ ground arith
    | inr k ↦ ground arith
  ]
]
  where
    nil : (xs : List Text) → is_empty xs ≡ true → xs ≡ []
    nil [] e = refl
    nil (x ∷ xs) e = cc

-- A second pass with the same legacy folder changes nothing.
pub normalize_tags_idem :
    (tags : List Text) (legacy : Text)
    → normalize_tags (normalize_tags tags legacy) legacy ≡ normalize_tags tags legacy
normalize_tags_idem tags legacy = elim (Bool-cases (is_empty (normalize_tags tags legacy))) [
  | inr e ↦
      normalize_tags-id (normalize_tags tags legacy) legacy (normalize_tags-is_normal tags legacy) e
  | inl e ↦ normalize_tags-empty tags legacy e
]

-- The tag is one of the trimmed texts.
unfoldable pub is_among : Text → List Text → Bool
is_among t tags = any (λ tag. not (is_empty (trim tag)) && text_eq (trim tag) t) tags

seen :
    (t x : Text) (kept xs : List Text)
    → mem (trim x) kept ≡ true
    → (mem t kept || is_among t xs) ≡ (mem t kept || (text_eq (trim x) t || is_among t xs))
seen t x kept xs m = elim (Bool-cases (text_eq (trim x) t)) [
  | inr e ↦ rw e refl
  | inl e ↦
      let k : mem t kept ≡ true = ap (λ y. mem y kept) (sym (text_eq_sound (trim x) t e)) ∙ m in
      rw k refl
]

mem-collect_tags :
    (t : Text) (kept tags : List Text)
    → mem t (collect_tags kept tags) ≡ (mem t kept || is_among t tags)
unfolding collect_tags is_among
mem-collect_tags t kept [] = ground arith
mem-collect_tags t kept (x ∷ xs) = elim (Bool-cases (is_empty (trim x))) [
  | inl e ↦ rw e (mem-collect_tags t kept xs)
  | inr e ↦ elim (Bool-cases (mem (trim x) kept)) [
    | inl m ↦ rw e (rw m (mem-collect_tags t kept xs ∙ seen t x kept xs m))
    | inr m ↦ rw e (
        rw m (
          mem-collect_tags t (kept ++ trim x ∷ []) xs
          ∙ ground (arith, mem-append t kept (trim x ∷ []), mem-cons t (trim x) [], mem-nil t)))
  ]
]

-- Nothing is left only of nothing but blank tags.
collect_tags-empty :
    (kept tags : List Text)
    → is_empty (collect_tags kept tags)
      ≡ (is_empty kept && not (any (λ tag. not (is_empty (trim tag))) tags))
unfolding collect_tags
collect_tags-empty kept [] = ground arith
collect_tags-empty kept (x ∷ xs) = elim (Bool-cases (is_empty (trim x))) [
  | inl e ↦ rw e (collect_tags-empty kept xs)
  | inr e ↦ elim (Bool-cases (mem (trim x) kept)) [
    | inl m ↦ rw e (rw m (collect_tags-empty kept xs ∙ there (trim x) kept xs m))
    | inr m ↦ rw e (rw m (collect_tags-empty (kept ++ trim x ∷ []) xs ∙ added kept (trim x) xs))
  ]
]
  where
    there :
        (t : Text) (kept xs : List Text)
        → mem t kept ≡ true
        → (is_empty kept && not (any (λ tag. not (is_empty (trim tag))) xs))
          ≡ (is_empty kept && false)
    there t [] xs m = absurd (cc (m, mem-nil t))
    there t (y ∷ ys) xs m = refl

    added :
        (kept : List Text) (t : Text) (xs : List Text)
        → (is_empty (kept ++ t ∷ []) && not (any (λ tag. not (is_empty (trim tag))) xs))
          ≡ (is_empty kept && false)
    added [] t xs = refl
    added (y ∷ ys) t xs = refl

-- Where a tag is not blank, what is left is exactly the trimmed texts of the tags that are not
-- blank: none is lost and none is invented.
pub mem-normalize_tags :
    (t : Text) (tags : List Text) (legacy : Text)
    → any (λ tag. not (is_empty (trim tag))) tags ≡ true
    → mem t (normalize_tags tags legacy) ≡ is_among t tags
unfolding normalize_tags
mem-normalize_tags t tags legacy h =
    let e : is_empty (collect_tags [] tags) ≡ false = rw (collect_tags-empty [] tags) (rw h refl) in
    rw e (mem-collect_tags t [] tags ∙ ground (arith, mem-nil t))
