-- ===== src/Main/Sequence.antt =====
-- What is kept between the turns of the main loop, and that it is once the old session ends and a new
-- one begins.
use rakoshare.Base.{
  ◌≡◌, refl, List, [], ◌∷◌, ◌++◌, arith, Bool, true, false, Option-cases, Option, none, some, inl,
  inr,
}
use rakoshare.Control.{Text, Wire}
use rakoshare.ShareSession.{Sql, get_from_meta}
use rakoshare.Main.{
  TorrentSessionI, SessionCall, do_torrent, quit, Program, MainEvent, Outcome, is_running, magnet,
  quit_current, hint_all, open_session, main_turn,
}

-- Whether a session runs after these calls, if each begins one where none runs or ends the one that runs.
abbrev next_call : Bool → SessionCall → Option Bool
next_call false do_torrent = some true
next_call true quit = some false
next_call running call = none

abbrev pub after : Bool → List SessionCall → Option Bool
after running [] = some running
after running (call ∷ calls) = elim (next_call running call) [
  | none ↦ none
  | some running' ↦ after running' calls
]

after-last :
    (a b c : Bool) (calls : List SessionCall) (call : SessionCall)
    → after a calls ≡ some b
    → next_call b call ≡ some c
    → after a (calls ++ (call ∷ [])) ≡ some c
after-last a b c [] call h k = let e : a ≡ b = cc h in rw (e, after, k) refl
after-last false b c (do_torrent ∷ calls) call h k = after-last true b c calls call h k
after-last false b c (quit ∷ calls) call h k = absurd (cc h)
after-last true b c (do_torrent ∷ calls) call h k = absurd (cc h)
after-last true b c (quit ∷ calls) call h k = after-last false b c calls call h k

pub quit_current-calls :
    {S : Type 0} (p : Program S)
    → after false p.calls ≡ some (is_running p.current)
    → after false (quit_current p).calls ≡ some false
unfolding quit_current
quit_current-calls p h = elim (Option-cases p.current) [
  | inl e ↦ rw (quit_current, e) (rw e at h)
  | inr (s, e) ↦ rw (quit_current, e) (after-last false true false p.calls quit (rw e at h) refl)
]

pub quit_current-control : {S : Type 0} (p : Program S) → (quit_current p).control ≡ p.control
unfolding quit_current
quit_current-control p = ground arith

module _ {S C E : Type 0} (session : TorrentSessionI S C E) (Saved : Text → Text → Type 0) where
  -- A session that was started from the link of the infohash, or from a torrent that is saved for it,
  -- and was given peers since.
  pub data IsFrom (ih : Text) : S → Type 0 where
    linked :
        (env : E) (s : S)
        → session.new_torrent_session env (magnet (session.hex ih)) ≡ some s
        → IsFrom ih s
    saved :
        (env : E) (torrent : Text) (s : S)
        → Saved ih torrent
        → session.new_torrent_session env torrent ≡ some s
        → IsFrom ih s
    hinted : (peer : Text) (s : S) → IsFrom ih s → IsFrom ih (session.hint_new_peer peer s)
    accepted : (c : C) (s : S) → IsFrom ih s → IsFrom ih (session.accept_new_peer c s)

  abbrev pub HasSource : Option S → Text → Type 0
  HasSource none ih = Unit
  HasSource (some s) ih = IsFrom ih s

  -- The calls have begun and ended one session after the other, the one that runs is not ended, and it
  -- was started for the infohash that the control session announces.
  pub record IsFollowing (p : Program S) : Type 0 where
    pub alone : after false p.calls ≡ some (is_running p.current)
    pub source : HasSource p.current p.control.current_ih

  -- After the program is interrupted every session that was begun is ended.
  abbrev pub IsHandled : Outcome S → Type 0
  IsHandled (Outcome.going p) = IsFollowing p
  IsHandled (Outcome.done p) = after false p.calls ≡ some false
  IsHandled Outcome.exited = Unit

  -- The torrent in the database when the watcher tells of an infohash is one that is saved for it.
  abbrev pub IsInStep : MainEvent C E → Program S → Type 0
  IsInStep (MainEvent.pinged env ih) p = Saved ih (get_from_meta (λ r. r.torrent) p.tables)
  IsInStep event p = Unit

  abbrev pub WhenGoing : (Program S → Type 0) → Outcome S → Type 0
  WhenGoing P (Outcome.going p) = P p
  WhenGoing P (Outcome.done p) = Unit
  WhenGoing P Outcome.exited = Unit

  -- That holds whenever the watcher has told of one.
  abbrev pub AreInStep : Wire → Sql → List (MainEvent C E) → Program S → Type 0
  AreInStep wire sql [] p = Unit
  AreInStep wire sql (event ∷ events) p =
      IsInStep event p × WhenGoing (AreInStep wire sql events) (main_turn session wire sql event p)

  hint_all-IsFrom :
      (ih : Text) (peers : List Text) (s : S) → IsFrom ih s → IsFrom ih (hint_all session peers s)
  unfolding hint_all
  hint_all-IsFrom ih [] s from = from
  hint_all-IsFrom ih (peer ∷ peers) s from =
      hint_all-IsFrom ih peers (session.hint_new_peer peer s) (hinted peer s from)

  -- A session that is opened where none runs.
  pub open_session-IsFollowing :
      (env : E) (torrent : Text) (peers : List Text) (p : Program S)
      → after false p.calls ≡ some false
      → ((s : S) → session.new_torrent_session env torrent ≡ some s → IsFrom p.control.current_ih s)
      → IsFollowing (open_session session env torrent peers p)
  unfolding open_session
  open_session-IsFollowing env torrent peers p none_runs from =
      elim (Option-cases (session.new_torrent_session env torrent)) [
        | inl e ↦ rw (open_session, e) (record { alone = none_runs; source = tt })
        | inr (s, e) ↦
            rw (open_session, e)
              (record {
                alone = after-last false false true p.calls do_torrent none_runs refl;
                source = hint_all-IsFrom p.control.current_ih peers s (from s e);
              })
      ]
