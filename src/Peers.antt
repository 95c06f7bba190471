-- ===== src/Peers.antt =====
-- peers.go: the list of the connected peers. `net.SplitHostPort` and `strconv.Atoi` are parameters.
-- A peer is a pointer in the program: `handle` stands for it. The mutex of the list makes every
-- operation one step.
pub mod Add
pub mod Delete
mod Tests
use rakoshare.Base.{
  ℕ, zero, suc, ◌+◌, ◌-◌, String, str_eq, List, [], ◌∷◌, ◌++◌, length, take, get_or, set, ltb, ◌==◌,
  if◌then◌else◌, not, ◌&&◌, ◌||◌, Bool, true, false, Option, none, some, ℤ, pos, negsuc,
}

pub record Peer : Type 0 where
  pub handle : ℕ
  pub address : String
  pub id : String
  pub local_addr : String
  pub remote_addr : String

-- `closed` is the peers whose `Close` was called, in order.
pub record Peers : Type 0 where
  pub peer_list : List Peer
  pub closed : List ℕ

-- The library functions on addresses, with `none` for an error.
pub record Net : Type 0 where
  pub split_host_port : String → Option (String × String)
  pub atoi : String → Option ℤ

-- `a < b` and `a == b` on `int`.
unfoldable pub int_ltb : ℤ → ℤ → Bool
int_ltb (pos a) (pos b) = ltb a b
int_ltb (pos a) (negsuc b) = false
int_ltb (negsuc a) (pos b) = true
int_ltb (negsuc a) (negsuc b) = ltb b a

unfoldable pub int_eqb : ℤ → ℤ → Bool
int_eqb (pos a) (pos b) = a == b
int_eqb (pos a) (negsuc b) = false
int_eqb (negsuc a) (pos b) = false
int_eqb (negsuc a) (negsuc b) = a == b

pub record ConnInfo : Type 0 where
  pub host : String
  pub lower : ℤ
  pub upper : ℤ

abbrev pub bind : {A B : Type 0} → Option A → (A → Option B) → Option B
bind none f = none
bind (some a) f = f a

-- "Remove old ones": the last line of the loop cuts the list to its own length.
unfoldable pub remove_old : List ℕ → Peers → Peers
remove_old [] lp = lp
remove_old (i ∷ indices) lp = elim lp.peer_list [
  | [] ↦ lp
  | p ∷ peers ↦
      let old = get_or (p ∷ peers) i p in
      let last = get_or (p ∷ peers) (length peers) p in
      let moved = set (p ∷ peers) i last in
      remove_old indices
        (record { peer_list = take (length moved) moved; closed = lp.closed ++ (old.handle ∷ []) })
]

module _ (net : Net) where
  unfoldable pub get_conn_info : Peer → Option ConnInfo
  unfolding int_ltb
  get_conn_info p = bind (net.split_host_port p.local_addr) (λ local.
      bind (net.split_host_port p.remote_addr) (λ remote. bind (net.atoi local.1) (λ local_port.
        bind (net.atoi remote.1) (λ remote_port. some (
          if int_ltb local_port remote_port
          then record { host = remote.0; lower = local_port; upper = remote_port }
          else record { host = remote.0; lower = remote_port; upper = local_port })))))

  -- `lower < thisLower || (lower == thisLower && upper < thisUpper)`
  unfoldable pub is_preferred : ConnInfo → ConnInfo → Bool
  unfolding int_ltb int_eqb
  is_preferred old this =
      int_ltb old.lower this.lower || (int_eqb old.lower this.lower && int_ltb old.upper this.upper)

  -- The loop of `Add` from index `i` on: the indices to delete, or `none` where it returns false.
  unfoldable pub scan : ConnInfo → ℕ → List Peer → Option (List ℕ)
  unfolding get_conn_info is_preferred
  scan this i [] = some []
  scan this i (p ∷ peers) =
      let rest = scan this (i + 1) peers in
      elim (get_conn_info p) [
        | none ↦ rest
        | some old ↦
            if not (str_eq this.host old.host)
            then rest
            else if is_preferred old this
            then none
            else bind rest (λ indices. some (i ∷ indices))
      ]

  unfoldable pub add : Peer → Peers → Bool × Peers
  unfolding scan remove_old get_conn_info
  add peer lp = elim (get_conn_info peer) [
    | none ↦ (false, lp)
    | some this ↦ elim (scan this 0 lp.peer_list) [
      | none ↦ (false, lp)
      | some indices ↦
          let left = remove_old indices lp in
          (true, record left { peer_list = left.peer_list ++ (peer ∷ []) })
    ]
  ]

  unfoldable pub know : String → String → List Peer → Bool
  know peer id [] = false
  know peer id (p ∷ peers) =
      let rest = know peer id peers in
      if not (str_eq p.id id) then rest else elim (net.split_host_port p.address) [
        | none ↦ false
        | some known ↦ elim (net.split_host_port peer) [
          | none ↦ false
          | some candidate ↦ if str_eq known.0 candidate.0 then true else rest
        ]
      ]

-- The loop of `Delete` from index `i` on, where `peers` is what follows it in `all`.
unfoldable pub delete_from : String → ℕ → List Peer → List Peer → List Peer
delete_from address i all [] = all
delete_from address i all (p ∷ peers) =
    let rest = delete_from address (i + 1) all peers in
    if str_eq p.address address
    then take (length all - 1) (set all i (get_or all (length all - 1) p))
    else rest

unfoldable pub delete : Peer → Peers → Peers
unfolding delete_from
delete peer lp = record lp { peer_list = delete_from peer.address 0 lp.peer_list lp.peer_list }

unfoldable pub has_peer : String → List Peer → Bool
has_peer address [] = false
has_peer address (p ∷ peers) = if str_eq p.address address then true else has_peer address peers
