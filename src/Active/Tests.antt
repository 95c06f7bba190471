-- ===== src/Active/Tests.antt =====
-- Runs of the choice of blocks, and the theorems at concrete inputs.
use rakoshare.Base.{◌+◌, ◌≡◌, refl, List, [], ◌∷◌, ℤ, pos, negsuc, ok, false}
use rakoshare.Active.{request_loop}
use rakoshare.Active.Normal.{idle, filled, request_loop-normal}

-- Downloaded, idle, requested twice, idle.
abbrev sample : List ℤ
sample = negsuc 0 ∷ pos 0 ∷ pos 2 ∷ pos 0 ∷ []

requests : request_loop 5 false sample ≡ ok (1 ∷ 3 ∷ [], negsuc 0 ∷ pos 1 ∷ pos 2 ∷ pos 1 ∷ [])
unfolding request_loop
requests = refl

request_loop-normal_example :
    (request_loop (4 + 1) false sample ≡ ok (idle 0 sample, filled sample))
    × (idle 0 (filled sample) ≡ [])
request_loop-normal_example = request_loop-normal sample
