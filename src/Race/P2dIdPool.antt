-- ===== src/Race/P2dIdPool.antt =====
-- P2dIdPool of include/server/race/P2dIdPool.hpp. The mutex makes each call one step. `free_list` is
-- the vector from its back to its front.
pub mod Exclusive
use alicia_server.Common.{ℕ, ◌+◌, ◌%◌, ◌^◌, List, [], ◌∷◌, Option, none, some, ltb, if◌then◌else◌}

pub record P2dIdPool : Type 0 where
  pub next_new_id : ℕ
  pub free_list : List ℕ

abbrev pub empty : P2dIdPool
empty = record { next_new_id = 0; free_list = [] }

-- std::numeric_limits<P2dId>::max()
abbrev pub max_p2d_id : ℕ
max_p2d_id = 65535

-- P2dIdPool::Acquire
unfoldable pub acquire : P2dIdPool → Option ℕ × P2dIdPool
acquire p = elim p.free_list [
  | id ∷ rest ↦ (some id, record p { free_list = rest })
  | [] ↦
      if ltb max_p2d_id p.next_new_id
      then (none, p)
      else (some (p.next_new_id % 2 ^ 16), record p { next_new_id = (p.next_new_id + 1) % 2 ^ 32 })
]

-- P2dIdPool::Release
unfoldable pub release : ℕ → P2dIdPool → P2dIdPool
release id p = record p { free_list = id ∷ p.free_list }
