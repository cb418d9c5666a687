-- ===== src/Network/CommandDeferrer/Fifo.antt =====
-- Deferred commands are handled in the order in which they were deferred.
use mathlib.Core.List.{append-nil, append_assoc}
use alicia_server.Common.{
  ◌≡◌, ◌⊎◌, inl, inr, refl, sym, arith, List, [], ◌∷◌, ◌++◌, false, none, some,
}
use alicia_server.Network.CommandDeferrer.{
  CommandContext, CommandDeferrer, Handler, Ticked, defer, handle, tick,
}

module _ {C : Type 0} where
  -- the whole list of commands, which is the queue that a client of the deferrer sees
  abbrev pub waiting : CommandDeferrer C → List (CommandContext C)
  waiting d = d.passed ++ d.ahead

  -- Either nothing stands in front of the iterator, or it is at the end.
  abbrev pub IsQueue : CommandDeferrer C → Type 0
  IsQueue d = (d.passed ≡ []) ⊎ (d.ahead ≡ [])

  defer_cases :
      (c : CommandContext C) (d : CommandDeferrer C) (ahead : List (CommandContext C))
      → d.ahead ≡ ahead
      → IsQueue d
      → (waiting (defer c d) ≡ waiting d ++ c ∷ []) × IsQueue (defer c d)
  unfolding defer
  defer_cases c d [] e q = rw (e, defer) (simp append-nil, inr refl)
  defer_cases c d (x ∷ xs) e q =
      rw (e, defer) (sym (append_assoc d.passed (x ∷ xs) (c ∷ [])), ground arith)

  -- Deferring puts a command at the end of the queue.
  pub waiting-defer :
      (c : CommandContext C) (d : CommandDeferrer C)
      → IsQueue d
      → (waiting (defer c d) ≡ waiting d ++ c ∷ []) × IsQueue (defer c d)
  waiting-defer c d q = defer_cases c d d.ahead refl q

  abbrev FirstHandled : Handler C → List (CommandContext C) → Ticked C → Type 0
  FirstHandled h [] t = (t.handled ≡ none) × (t.rethrown ≡ false) × (waiting t.deferrer ≡ [])
  FirstHandled h (c ∷ rest) t =
      (t.handled ≡ some c) × (t.rethrown ≡ h.throws c) × (waiting t.deferrer ≡ rest ++ h.deferred c)

  tick_cases :
      (h : Handler C) (d : CommandDeferrer C) (passed ahead : List (CommandContext C))
      → d.passed ≡ passed
      → d.ahead ≡ ahead
      → IsQueue d
      → FirstHandled h (waiting d) (tick h d) × IsQueue (tick h d).deferrer
  unfolding tick handle
  tick_cases h d [] [] ep ea q = rw (ep, ea, tick, ep, handle) ((refl, refl, refl), inl refl)
  tick_cases h d (p ∷ ps) [] ep ea q =
      rw (ep, ea, tick, ep, handle) ((refl, refl, rw append-nil), inl refl)
  tick_cases h d [] (x ∷ xs) ep ea q = rw (ep, ea, tick, ep) ((refl, refl, refl), inl refl)
  tick_cases h d (p ∷ ps) (x ∷ xs) ep ea q = absurd (ground arith)

  -- A tick handles the command that was deferred first and takes it out, also where the handler
  -- throws; what the handler defers goes to the end. An empty deferrer stays empty.
  pub tick-FirstHandled :
      (h : Handler C) (d : CommandDeferrer C)
      → IsQueue d
      → FirstHandled h (waiting d) (tick h d) × IsQueue (tick h d).deferrer
  tick-FirstHandled h d q = tick_cases h d d.passed d.ahead refl refl q
