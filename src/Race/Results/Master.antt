-- ===== src/Race/Results/Master.antt =====
-- Who becomes the master of the room at the end of a race, in src/server/race/RaceInstance.cpp.
use alicia_server.Common.{
  ℕ, ◌∙◌, ◌≡◌, ◌⊎◌, inl, inr, refl, arith, List, [], ◌∷◌, ◌++◌, true, false, none, some, All,
  Bool-cases,
}
use alicia_server.Common.Map.{Map, size, contains, lookup}
use alicia_server.Room.{Room, has_player}
use alicia_server.Race.Results.{choose_master, next_best, set_master, invalid_uid}

-- None of the racers is in the room.
abbrev pub AreGone : List ℕ → Room → Type 0
AreGone scores room = All (λ uid. has_player uid room ≡ false) scores

next_best-cases :
    (scores : List ℕ) (room : Room)
    → ((next_best scores room ≡ none) × AreGone scores room)
      ⊎ ((before : List ℕ) × (uid : ℕ) × (after : List ℕ) × (next_best scores room ≡ some uid)
          × (scores ≡ before ++ uid ∷ after)
          × AreGone before room
          × (has_player uid room ≡ true))
unfolding next_best
next_best-cases [] room = inl (refl, tt)
next_best-cases (uid ∷ scores) room = elim (Bool-cases (has_player uid room)) [
  | inl e ↦ inr ([], uid, scores, rw (e) refl, refl, tt, e)
  | inr e ↦ elim (next_best-cases scores room) [
    | inl (f, gone) ↦ inl (rw (e) f, (e, gone))
    | inr (before, other, after, f, same, gone, there) ↦
        inr (uid ∷ before, other, after, rw (e) f, rw (same) refl, (e, gone), there)
  ]
]

contains_empty : {A : Type 0} (key : ℕ) (m : Map A) → size m ≡ 0 → contains key m ≡ false
unfolding size contains lookup
contains_empty key [] e = refl
contains_empty key (entry ∷ m) e = absurd (omega (arith, e))

-- Nobody is found in an empty room.
next_best_empty :
    (scores : List ℕ) (room : Room) → size room.players ≡ 0 → next_best scores room ≡ none
unfolding next_best has_player
next_best_empty [] room e = refl
next_best_empty (uid ∷ scores) room e =
    rw (contains_empty uid room.players e) (next_best_empty scores room e)

-- The shortcuts of the choice find what the search through the score board finds.
choose_master_lem :
    (scores : List ℕ) (room : Room)
    → choose_master scores room ≡ elim (next_best scores room) [
      | none ↦ (invalid_uid, room)
      | some uid ↦ (uid, set_master uid room)
    ]
unfolding choose_master next_best has_player contains
choose_master_lem [] room = refl
choose_master_lem (first ∷ scores) room = ground (
  arith,
  λ (e : size room.players ≡ 0). next_best_empty (first ∷ scores) room e,
  Bool-cases (contains first room.players),
)

-- The new master is the first racer of the score board who is still in the room, and nothing else of
-- the room changes; when none of them is, nobody is announced and the room is left as it is.
pub choose_master-cases :
    (scores : List ℕ) (room : Room)
    → (AreGone scores room × (choose_master scores room ≡ (invalid_uid, room)))
      ⊎ ((before : List ℕ) × (uid : ℕ) × (after : List ℕ) × (scores ≡ before ++ uid ∷ after)
          × AreGone before room
          × (has_player uid room ≡ true)
          × (choose_master scores room ≡ (uid, set_master uid room)))
choose_master-cases scores room = elim (next_best-cases scores room) [
  | inl (e, gone) ↦ inl (gone, choose_master_lem scores room ∙ simp e)
  | inr (before, uid, after, e, same, gone, there) ↦
      inr (before, uid, after, same, gone, there, choose_master_lem scores room ∙ simp e)
]
