-- ===== src/Tracker/Asking.antt =====
-- The first tracker that answers ends the search: those before it are asked, or skipped.
use rakoshare.Base.{
  ◌≡◌, refl, sym, subst, ◌⊎◌, inl, inr, List, [], ◌∷◌, ◌++◌, append-nil, append_assoc, Bool, true,
  false, Bool-cases, Option, All,
}
use rakoshare.Files.{name_eq}
use rakoshare.Tracker.{Text, TrackerResponse, is_failed, query_level, query_levels}
use rakoshare.Tracker.Blacklist.{is_failed-cons, failed_after, failed_levels, name_eq_sound}

module _ (query : Text → Option TrackerResponse × Bool) where
  -- A tracker that fails, or is on the list of failed ones.
  abbrev pub IsDown : List Text → Text → Type 0
  IsDown failed tracker = (is_failed tracker failed ≡ true) ⊎ ((query tracker).1 ≡ true)

  IsDown-cons : (t x : Text) (failed : List Text) → IsDown failed t → IsDown (x ∷ failed) t
  IsDown-cons t x failed (inl e) = inl (is_failed-cons t x failed e)
  IsDown-cons t x failed (inr e) = inr e

  All-IsDown-cons :
      (level : List Text) (x : Text) (failed : List Text)
      → All (IsDown failed) level
      → All (IsDown (x ∷ failed)) level
  All-IsDown-cons [] x failed h = tt
  All-IsDown-cons (t ∷ level) x failed (a, h) =
      (IsDown-cons t x failed a, All-IsDown-cons level x failed h)

  -- A tracker that works is none of those that fail.
  up-cons :
      (up x : Text) (failed : List Text)
      → (query up).1 ≡ false
      → is_failed up failed ≡ false
      → (query x).1 ≡ true
      → is_failed up (x ∷ failed) ≡ false
  up-cons up x failed works free down = elim (Bool-cases (name_eq x up)) [
    | inl e ↦ absurd (cc (name_eq_sound x up e, works, down))
    | inr e ↦ rw e free
  ]

  -- A level of trackers that are down is left as it is.
  query_level-down :
      (level seen failed : List Text) (answer : Option TrackerResponse)
      → All (IsDown failed) level
      → (last : Option TrackerResponse) × (query_level query seen level failed answer ≡ record {
        order = seen ++ level;
        failed = failed_after level failed;
        answer = last;
        found = false;
      })
  unfolding query_level
  query_level-down [] seen failed answer h = (answer, rw (append-nil seen) refl)
  query_level-down (t ∷ level) seen failed answer (a, h) = elim (Bool-cases (is_failed t failed)) [
    | inl e ↦
        let (last, f) = query_level-down level (seen ++ (t ∷ [])) failed answer h in
        (last, rw (e, f) (rw (append_assoc seen (t ∷ []) level) refl))
    | inr e ↦
        let down : (query t).1 ≡ true = elim a [ inl g ↦ absurd (cc (e, g)) | inr g ↦ g ] in
        let (last, f) =
          query_level-down level (seen ++ (t ∷ [])) (t ∷ failed) (query t).0
            (All-IsDown-cons level t failed h) in
        (last, rw (e, down, f) (rw (append_assoc seen (t ∷ []) level) refl))
  ]

  module _ (up : Text) (works : (query up).1 ≡ false) where
    pub is_failed-up :
        (level failed : List Text)
        → is_failed up failed ≡ false
        → All (IsDown failed) level
        → is_failed up (failed_after level failed) ≡ false
    is_failed-up [] failed free h = free
    is_failed-up (t ∷ level) failed free (a, h) = elim (Bool-cases (is_failed t failed)) [
      | inl e ↦ rw e (is_failed-up level failed free h)
      | inr e ↦
          let down : (query t).1 ≡ true = elim a [ inl g ↦ absurd (cc (e, g)) | inr g ↦ g ] in
          rw e (
            is_failed-up level (t ∷ failed) (up-cons up t failed works free down)
              (All-IsDown-cons level t failed h))
    ]

    query_level-up :
        (before after seen failed : List Text) (answer : Option TrackerResponse)
        → is_failed up failed ≡ false
        → All (IsDown failed) before
        → query_level query seen (before ++ (up ∷ after)) failed answer ≡ record {
          order = up ∷ ((seen ++ before) ++ after);
          failed = failed_after before failed;
          answer = (query up).0;
          found = true;
        }
    unfolding query_level
    query_level-up [] after seen failed answer free h = rw (free, works) (rw (append-nil seen) refl)
    query_level-up (t ∷ before) after seen failed answer free (a, h) =
        elim (Bool-cases (is_failed t failed)) [
          | inl e ↦
              rw (e, query_level-up before after (seen ++ (t ∷ [])) failed answer free h)
                (rw (append_assoc seen (t ∷ []) before) refl)
          | inr e ↦
              let down : (query t).1 ≡ true = elim a [ inl g ↦ absurd (cc (e, g)) | inr g ↦ g ] in
              rw
                (
                  e,
                  down,
                  query_level-up before after (seen ++ (t ∷ [])) (t ∷ failed) (query t).0
                      (up-cons up t failed works free down) (All-IsDown-cons before t failed h),
                )
                (rw (append_assoc seen (t ∷ []) before) refl)
        ]

    pub All-IsDown-failed_after :
        (more level failed : List Text)
        → All (IsDown failed) level
        → All (IsDown (failed_after more failed)) level
    All-IsDown-failed_after [] level failed h = h
    All-IsDown-failed_after (t ∷ more) level failed h = elim (Bool-cases (is_failed t failed)) [
      | inl e ↦
          let same : failed_after (t ∷ more) failed ≡ failed_after more failed = rw e refl in
          subst (λ (f : List Text). All (IsDown f) level) (sym same)
            (All-IsDown-failed_after more level failed h)
      | inr e ↦
          let same : failed_after (t ∷ more) failed ≡ failed_after more (t ∷ failed) = rw e refl in
          subst (λ (f : List Text). All (IsDown f) level) (sym same)
            (All-IsDown-failed_after more level (t ∷ failed) (All-IsDown-cons level t failed h))
    ]

    pub All-levels :
        (more : List Text) (levels : List (List Text)) (failed : List Text)
        → All (All (IsDown failed)) levels
        → All (All (IsDown (failed_after more failed))) levels
    All-levels more [] failed h = tt
    All-levels more (level ∷ levels) failed (a, h) =
        (All-IsDown-failed_after more level failed a, All-levels more levels failed h)

    pub query_levels-up :
        (levels rest : List (List Text)) (before after failed : List Text)
        (answer : Option TrackerResponse)
        → is_failed up failed ≡ false
        → All (All (IsDown failed)) levels
        → All (IsDown failed) before
        → query_levels query (levels ++ ((before ++ (up ∷ after)) ∷ rest)) failed answer ≡ record {
          order = levels ++ ((up ∷ (before ++ after)) ∷ rest);
          failed = failed_after before (failed_levels levels failed);
          answer = (query up).0;
          found = true;
        }
    unfolding query_levels
    query_levels-up [] rest before after failed answer free h k =
        rw (query_level-up before after [] failed answer free k) refl
    query_levels-up (level ∷ levels) rest before after failed answer free (a, h) k =
        let (last, e) = query_level-down level [] failed answer a in
        rw
          (
            e,
            query_levels-up levels rest before after (failed_after level failed) last
                (is_failed-up level failed free a) (All-levels level levels failed h)
                (All-IsDown-failed_after level before failed k),
          )
          refl
