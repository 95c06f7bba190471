-- ===== src/Tracker/Blacklist.antt =====
-- The list of failed trackers grows by those that are asked and fail.
use rakoshare.Base.{
  ◌≡◌, refl, sym, ap, subst, ◌∙◌, inl, inr, List, [], ◌∷◌, ◌==◌, ==_iff, if◌then◌else◌, true,
  Bool-cases, All,
}
use rakoshare.Files.{name_eq}
use rakoshare.Files.Names.{name_eq_refl}
use rakoshare.Tracker.{Text, is_failed}

pub name_eq_sound : (a b : Text) → name_eq a b ≡ true → a ≡ b
unfolding name_eq
name_eq_sound [] [] h = refl
name_eq_sound [] (y ∷ b) h = absurd (cc h)
name_eq_sound (x ∷ a) [] h = absurd (cc h)
name_eq_sound (x ∷ a) (y ∷ b) h = elim (Bool-cases (x == y)) [
  | inl e ↦
      let same : x ≡ y = (==_iff x y).0 e in
      let rest : a ≡ b = name_eq_sound a b (rw e at h) in cc (same, rest)
  | inr e ↦ absurd (cc (rw e at h))
]

pub is_failed-cons :
    (t x : Text) (failed : List Text) → is_failed t failed ≡ true → is_failed t (x ∷ failed) ≡ true
is_failed-cons t x failed h = elim (Bool-cases (name_eq x t)) [ inl e ↦ rw e refl | inr e ↦ rw e h ]

is_failed-head : (t : Text) (failed : List Text) → is_failed t (t ∷ failed) ≡ true
is_failed-head t failed = rw (name_eq_refl t) refl

-- The trackers that are asked of these, which all fail, are added to the failed ones.
abbrev pub failed_after : List Text → List Text → List Text
failed_after [] failed = failed
failed_after (tracker ∷ level) failed =
    let rest = failed_after level in
    if is_failed tracker failed then rest failed else rest (tracker ∷ failed)

abbrev pub failed_levels : List (List Text) → List Text → List Text
failed_levels [] failed = failed
failed_levels (level ∷ levels) failed = failed_levels levels (failed_after level failed)

-- Every one of these is on the list of failed ones.
abbrev pub AreFailed : List Text → List Text → Type 0
AreFailed failed level = All (λ (t : Text). is_failed t failed ≡ true) level

is_failed-failed_after :
    (t : Text) (level failed : List Text)
    → is_failed t failed ≡ true
    → is_failed t (failed_after level failed) ≡ true
is_failed-failed_after t [] failed h = h
is_failed-failed_after t (x ∷ level) failed h = elim (Bool-cases (is_failed x failed)) [
  | inl e ↦ rw e (is_failed-failed_after t level failed h)
  | inr e ↦ rw e (is_failed-failed_after t level (x ∷ failed) (is_failed-cons t x failed h))
]

is_failed-failed_levels :
    (t : Text) (levels : List (List Text)) (failed : List Text)
    → is_failed t failed ≡ true
    → is_failed t (failed_levels levels failed) ≡ true
is_failed-failed_levels t [] failed h = h
is_failed-failed_levels t (level ∷ levels) failed h =
    is_failed-failed_levels t levels (failed_after level failed)
      (is_failed-failed_after t level failed h)

pub failed_after-AreFailed :
    (level failed : List Text) → AreFailed (failed_after level failed) level
failed_after-AreFailed [] failed = tt
failed_after-AreFailed (x ∷ level) failed = elim (Bool-cases (is_failed x failed)) [
  | inl e ↦
      let same : failed_after (x ∷ level) failed ≡ failed_after level failed = rw e refl in
      subst (λ (f : List Text). AreFailed f (x ∷ level)) (sym same)
        (is_failed-failed_after x level failed e, failed_after-AreFailed level failed)
  | inr e ↦
      let same : failed_after (x ∷ level) failed ≡ failed_after level (x ∷ failed) = rw e refl in
      subst (λ (f : List Text). AreFailed f (x ∷ level)) (sym same)
        (
          is_failed-failed_after x level (x ∷ failed) (is_failed-head x failed),
          failed_after-AreFailed level (x ∷ failed),
        )
]

AreFailed-failed_after :
    (more failed level : List Text)
    → AreFailed failed level
    → AreFailed (failed_after more failed) level
AreFailed-failed_after more failed [] h = tt
AreFailed-failed_after more failed (t ∷ level) (a, h) =
    (is_failed-failed_after t more failed a, AreFailed-failed_after more failed level h)

AreFailed-failed_levels :
    (levels : List (List Text)) (failed level : List Text)
    → AreFailed failed level
    → AreFailed (failed_levels levels failed) level
AreFailed-failed_levels [] failed level h = h
AreFailed-failed_levels (l ∷ levels) failed level h =
    AreFailed-failed_levels levels (failed_after l failed) level
      (AreFailed-failed_after l failed level h)

pub failed_levels-AreFailed :
    (levels : List (List Text)) (failed : List Text)
    → All (AreFailed (failed_levels levels failed)) levels
failed_levels-AreFailed [] failed = tt
failed_levels-AreFailed (level ∷ levels) failed = (
  AreFailed-failed_levels levels (failed_after level failed) level
      (failed_after-AreFailed level failed),
  failed_levels-AreFailed levels (failed_after level failed),
)

pub AreFailed-levels :
    (more failed : List Text) (levels : List (List Text))
    → All (AreFailed failed) levels
    → All (AreFailed (failed_after more failed)) levels
AreFailed-levels more failed [] h = tt
AreFailed-levels more failed (level ∷ levels) (a, h) =
    (AreFailed-failed_after more failed level a, AreFailed-levels more failed levels h)

failed_after-same :
    (level failed : List Text) → AreFailed failed level → failed_after level failed ≡ failed
failed_after-same [] failed h = refl
failed_after-same (t ∷ level) failed (a, h) = rw a (failed_after-same level failed h)

pub failed_levels-same :
    (levels : List (List Text)) (failed : List Text)
    → All (AreFailed failed) levels
    → failed_levels levels failed ≡ failed
failed_levels-same [] failed h = refl
failed_levels-same (level ∷ levels) failed (a, h) =
    ap (failed_levels levels) (failed_after-same level failed a)
    ∙ failed_levels-same levels failed h
