-- ===== src/Life/Idle.antt =====
-- A session without its torrent does not outlive its first tick.
use rakoshare.Base.{ℕ, ◌+◌, ◌≡◌, refl, List, [], ◌∷◌, length, ltb, arith, true, panic}
use rakoshare.Requesting.{Session, request_block, try_active, choose_piece}
use rakoshare.Life.{Member, request_all, rechoke}

-- Where a session has no pieces yet and at least one peer, the tick that asks for blocks panics.
pub rechoke-panic :
    (fuel now start : ℕ) (m : Member) (members : List (ℕ × Member)) (t : Session)
    → t.total_pieces ≡ 0
    → t.active_pieces ≡ []
    → rechoke fuel now ((start, m) ∷ members) t ≡ panic
unfolding rechoke request_all request_block try_active choose_piece
rechoke-panic fuel now start m members t e f =
    let few : ltb (length t.active_pieces) (length ((start, m) ∷ members) + 1) ≡ true =
      rw f (ground arith) in
    rw (rechoke, few, request_all, request_block, f, try_active, choose_piece, e) refl
