-- ===== src/Network/CommandDeferrer.antt =====
-- CommandDeferrer of include/libserver/network/command/CommandDeferrer.hpp: commands are kept for a
-- later tick. The list with its iterator is the pair of the commands in front of the iterator and
-- those from it on. The handler is outside: it may defer further commands, and it may throw.
pub mod Fifo
use alicia_server.Common.{ℕ, List, [], ◌∷◌, ◌++◌, Bool, false, Option, none, some}

pub record CommandContext (C : Type 0) : Type 0 where
  pub client_id : ℕ
  pub command : C

pub record CommandDeferrer (C : Type 0) : Type 0 where
  pub passed : List (CommandContext C)
  pub ahead : List (CommandContext C)

pub record Handler (C : Type 0) : Type 0 where
  pub deferred : CommandContext C → List (CommandContext C)
  pub throws : CommandContext C → Bool

pub record Ticked (C : Type 0) : Type 0 where
  pub deferrer : CommandDeferrer C
  pub handled : Option (CommandContext C)
  pub rethrown : Bool

module _ {C : Type 0} where
  -- the constructor: no commands, the iterator at the end
  unfoldable pub empty : CommandDeferrer C
  empty = record { passed = []; ahead = [] }

  -- CommandDeferrer::Defer
  unfoldable pub defer : CommandContext C → CommandDeferrer C → CommandDeferrer C
  defer c d = elim d.ahead [
    | [] ↦ record { passed = d.passed ++ c ∷ []; ahead = [] }
    | x ∷ xs ↦ record { passed = d.passed; ahead = (x ∷ xs) ++ c ∷ [] }
  ]

  -- The rest of CommandDeferrer::Tick: the command at the iterator is handled and erased, also where
  -- the handler throws.
  unfoldable pub handle : Handler C → List (CommandContext C) → List (CommandContext C) → Ticked C
  handle h passed [] = record {
    deferrer = record { passed = passed; ahead = [] };
    handled = none;
    rethrown = false;
  }
  handle h passed (c ∷ ahead) = record {
    deferrer = record { passed = passed; ahead = ahead ++ h.deferred c };
    handled = some c;
    rethrown = h.throws c;
  }

  -- CommandDeferrer::Tick
  unfoldable pub tick : Handler C → CommandDeferrer C → Ticked C
  unfolding handle
  tick h d = elim d.ahead [ [] ↦ handle h [] d.passed | x ∷ xs ↦ handle h d.passed (x ∷ xs) ]
