-- ===== src/Main/Infohash.antt =====
-- The infohash that a control session announces: messages leave it, and SetCurrent sets it.
use rakoshare.Base.{ℕ, ◌≡◌, refl, List, [], ◌∷◌, arith, Option, none, some, Ensures}
use rakoshare.Control.{Text, Wire, ControlPeer, ControlSession, ControlError, set_current}
use rakoshare.Control.Incoming.{do_metadata, do_other, control_message}
use rakoshare.Tracker.Blacklist.{name_eq_sound}

do_metadata-current_ih :
    (wire : Wire) (msg : List ℕ) (q : ControlPeer) (cs : ControlSession)
    → (do_metadata wire msg q cs).1.current_ih ≡ cs.current_ih
unfolding do_metadata
do_metadata-current_ih wire msg q cs = ground arith

pub control_message-current_ih :
    (wire : Wire) (msg : Option (List ℕ)) (q : ControlPeer) (cs : ControlSession)
    → Ensures
        (λ (r : Option ControlError × ControlPeer × ControlSession). r.2.current_ih ≡ cs.current_ih)
        (control_message wire msg q cs)
unfolding control_message do_other
control_message-current_ih wire none q cs = refl
control_message-current_ih wire (some []) q cs = refl
control_message-current_ih wire (some (id ∷ [])) q cs = ground arith
control_message-current_ih wire (some (id ∷ code ∷ msg)) q cs =
    ground (arith, do_metadata-current_ih wire msg q cs)

pub set_current-current_ih :
    (wire : Wire) (ih : Text) (cs : ControlSession) (peers : List ControlPeer)
    → (set_current wire ih cs peers).0 ≡ none
    → (set_current wire ih cs peers).1.current_ih ≡ ih
unfolding set_current
set_current-current_ih wire ih cs peers h = ground (arith, name_eq_sound cs.current_ih ih)
