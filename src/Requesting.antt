-- ===== src/Requesting.antt =====
-- torrent.go: which blocks a session requests from a peer (`RequestBlock` and what it calls). The
-- map `activePieces` is the list of its entries in the order in which the run ranges over it; the
-- random start of `ChoosePiece` and the time of a request are arguments.
pub mod Frame
pub mod Choice
pub mod Blocks
pub mod Starved
mod Tests
use rakoshare.Base.{
  ℕ, zero, suc, ◌+◌, ◌-◌, ◌*◌, ◌/◌, ◌%◌, ◌^◌, List, [], ◌∷◌, ◌++◌, length, replicate, ltb, ◌==◌,
  if◌then◌else◌, Bool, true, false, not, Option, none, some, ℤ, pos, negsuc, Run, ok, panic,
  out_of_fuel, ◌>>=◌,
}
use rakoshare.Bitset.{Bitset, is_set}
use rakoshare.Active.{ActivePiece, request_loop}
use rakoshare.Peer.{
  PeerState, Message, standard_block_length, put_uint32, request_key, send_message, set_interested,
}

pub record Session : Type 0 where
  pub piece_set : Bitset
  pub total_pieces : ℕ
  pub piece_length : ℕ
  pub last_piece_length : ℕ
  pub active_pieces : List (ℕ × ActivePiece)

-- The only error that `RequestBlock` tells from others.
pub data RequestError : Type 0 where
  eof : RequestError

abbrev pub Requested : Type 0
Requested = Option RequestError × Session × PeerState

-- `v, ok := t.activePieces[piece]`
abbrev pub lookup : ℕ → List (ℕ × ActivePiece) → Option ActivePiece
lookup piece [] = none
lookup piece ((k, a) ∷ active) = if k == piece then some a else lookup piece active

-- `t.activePieces[piece] = a`, or a write through the pointer that the map holds.
unfoldable pub put : ℕ → ActivePiece → List (ℕ × ActivePiece) → List (ℕ × ActivePiece)
put piece a [] = (piece, a) ∷ []
put piece a ((k, b) ∷ active) =
    let rest = put piece a active in if k == piece then (k, a) ∷ active else (k, b) ∷ rest

-- `p.have.IsSet(i)`, where a nil bitset panics.
unfoldable pub peer_has : PeerState → ℕ → Run Bool
peer_has p i = elim p.have [ none ↦ panic | some have ↦ is_set have (pos i) ]

-- `uint32(length)` of the block, by the arithmetic of `int`.
unfoldable pub block_length : Session → ℕ → ℕ → ℕ
block_length t piece block =
    let begin = block * standard_block_length in
    if piece + 1 == t.total_pieces
    then (if ltb t.last_piece_length (begin + standard_block_length)
        then (t.last_piece_length + 2 ^ 64 - begin) % 2 ^ 32
        else standard_block_length)
    else standard_block_length

-- The message, whose first byte is REQUEST or CANCEL.
unfoldable pub request_message : Session → ℕ → ℕ → Bool → Message
unfolding put_uint32 block_length
request_message t piece block request =
    (if request then 6 else 8)
    ∷ (put_uint32 piece
        ++ (put_uint32 (block * standard_block_length) ++ put_uint32 (block_length t piece block)))

-- `delete(p.our_requests, key)`
unfoldable pub delete_request : ℕ → List (ℕ × ℕ) → List (ℕ × ℕ)
delete_request key [] = []
delete_request key ((k, time) ∷ requests) =
    let rest = delete_request key requests in if k == key then rest else (k, time) ∷ rest

unfoldable pub request_block_imp : Session → ℕ → ℕ → ℕ → Bool → PeerState → PeerState
unfolding request_message delete_request request_key send_message
request_block_imp t now piece block request p =
    let key = request_key piece (block * standard_block_length) in
    let others = delete_request key p.our_requests in
    let requests = if request then (key, now) ∷ others else others in
    send_message (request_message t piece block request) (record p { our_requests = requests })

-- The requests of one loop of `RequestBlock2`, in order.
unfoldable pub request_blocks : Session → ℕ → ℕ → List ℕ → PeerState → PeerState
unfolding request_block_imp
request_blocks t now piece [] p = p
request_blocks t now piece (block ∷ blocks) p =
    request_blocks t now piece blocks (request_block_imp t now piece block true p)

-- A piece that is not active is a nil pointer. The error is always nil.
unfoldable pub request_block2 : ℕ → ℕ → ℕ → Bool → Session → PeerState → Run Requested
unfolding request_blocks put
request_block2 fuel now piece end_game t p = elim (lookup piece t.active_pieces) [
  | none ↦ panic
  | some v ↦ request_loop fuel end_game v.downloader_count >>= λ (blocks, counts). ok (
    none,
    record t { active_pieces = put piece (record v { downloader_count = counts }) t.active_pieces },
    request_blocks t now piece blocks p,
  )
]

-- A piece that this session lacks, the peer has, and no peer downloads.
unfoldable pub is_wanted : Session → PeerState → ℕ → Run Bool
unfolding peer_has
is_wanted t p i = is_set t.piece_set (pos i) >>= λ ours.
    if ours
    then ok false
    else (peer_has p i >>= λ theirs.
        if theirs
        then ok (elim (lookup i t.active_pieces) [ none ↦ true | some a ↦ false ])
        else ok false)

-- The loop of `checkRange`, with the rounds left as the first argument.
unfoldable pub check_range : ℕ → (ℕ → Run Bool) → ℕ → Run ℤ
check_range zero wanted i = ok (negsuc 0)
check_range (suc rounds) wanted i =
    let rest = check_range rounds wanted (i + 1) in
    wanted i >>= λ found. if found then ok (pos i) else rest

-- `rand.Intn(n)` panics where there is no piece, and is below `n` otherwise.
unfoldable pub choose_piece : ℕ → Session → PeerState → Run ℤ
unfolding check_range is_wanted
choose_piece start t p =
    let n = t.total_pieces in
    let later = check_range (n - start) (is_wanted t p) start in
    let earlier = check_range start (is_wanted t p) 0 in
    if n == 0
    then panic
    else (later >>= λ piece. elim piece [ pos i ↦ ok (pos i) | negsuc i ↦ earlier ])

-- `for k, _ := range t.activePieces { … }` of `RequestBlock`: `none` where the loop ends.
unfoldable pub try_active :
    ℕ
    → ℕ
    → Bool
    → List (ℕ × ActivePiece)
    → Session
    → PeerState
    → Run (Option Requested × Session × PeerState)
unfolding request_block2 peer_has
try_active fuel now end_game [] t p = ok (none, t, p)
try_active fuel now end_game ((k, a) ∷ active) t p =
    let rest = try_active fuel now end_game active in
    peer_has p k >>= λ has.
    if has
    then (request_block2 fuel now k end_game t p >>= λ (err, t', p'). elim err [
      | some eof ↦ rest t' p'
      | none ↦ ok (some (none, t', p'), t', p')
    ])
    else rest t p

-- `make([]int, pieceCount)` and the length of the piece.
unfoldable pub new_active : Session → ℕ → ActivePiece
new_active t piece =
    let size = if piece + 1 == t.total_pieces then t.last_piece_length else t.piece_length in
    record {
      downloader_count =
          replicate ((size + standard_block_length - 1) / standard_block_length) (pos 0);
      piece_length = size;
    }

unfoldable pub request_block : ℕ → ℕ → ℕ → Session → PeerState → Run Requested
unfolding try_active choose_piece new_active request_block2 put
request_block fuel now start t p =
    try_active fuel now false t.active_pieces t p >>= λ (returned, t1, p1). elim returned [
      | some result ↦ ok result
      | none ↦ choose_piece start t1 p1 >>= λ piece. elim piece [
        | pos i ↦
            request_block2 fuel now i false
              (record t1 { active_pieces = put i (new_active t1 i) t1.active_pieces }) p1
        | negsuc i ↦ try_active fuel now true t1.active_pieces t1 p1 >>= λ (returned', t2, p2).
            elim returned' [
              | some result ↦ ok result
              | none ↦ ok (none, t2, set_interested false p2)
            ]
      ]
    ]
