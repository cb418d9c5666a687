-- ===== src/Race/P2dIdPool/Exclusive.antt =====
-- No two holders have the same id.
use alicia_server.Common.{
  ℕ, ◌+◌, ◌≤◌, ◌<◌, ◌≡◌, ◌≢◌, inl, inr, refl, sym, arith, List, [], ◌∷◌, Option, none, some,
  if◌then◌else◌, ◌==◌, length, All, Among, ap, ◌↔◌, Bool-cases, ==_iff,
}
use mathlib.Core.Path.{subst}
use native.Mathlib.Decide.{dec_lt}
use alicia_server.Race.P2dIdPool.{P2dIdPool, empty, max_p2d_id, acquire, release}

abbrev pub Fresh : ℕ → List ℕ → Type 0
Fresh a [] = Unit {0}
Fresh a (x ∷ xs) = (a ≢ x) × Fresh a xs

abbrev pub Distinct : List ℕ → Type 0
Distinct [] = Unit {0}
Distinct (x ∷ xs) = Fresh x xs × Distinct xs

-- What the holders have, beside the pool: they hold the ids of `held` and no others.
pub record Inv (p : P2dIdPool) (held : List ℕ) : Type 0 where
  pub held_distinct : Distinct held
  pub free_distinct : Distinct p.free_list
  pub apart : All (λ a. Fresh a held) p.free_list
  pub held_issued : All (λ a. a < p.next_new_id) held
  pub free_issued : All (λ a. a < p.next_new_id) p.free_list
  pub counted : length held + length p.free_list ≡ p.next_new_id
  pub in_range : p.next_new_id ≤ max_p2d_id + 1

Fresh-above : (n : ℕ) (xs : List ℕ) → All (λ a. a < n) xs → Fresh n xs
Fresh-above n [] h = tt
Fresh-above n (x ∷ xs) h = (ground (arith, h.0), Fresh-above n xs h.1)

All-wider : (n : ℕ) (xs : List ℕ) → All (λ a. a < n) xs → All (λ a. a < n + 1) xs
All-wider n [] h = tt
All-wider n (x ∷ xs) h = (omega (arith, h.0), All-wider n xs h.1)

apart-cons :
    (x : ℕ) (held xs : List ℕ)
    → Fresh x xs
    → All (λ a. Fresh a held) xs
    → All (λ a. Fresh a (x ∷ held)) xs
apart-cons x held [] f h = tt
apart-cons x held (y ∷ xs) f h = ((λ e. f.0 (sym e), h.0), apart-cons x held xs f.1 h.1)

-- The id that a holder gives back leaves the ids that are held.
pub give_back : ℕ → List ℕ → List ℕ
give_back id [] = []
give_back id (x ∷ xs) = if x == id then xs else x ∷ give_back id xs

All-give_back : (P : ℕ → Type 0) (id : ℕ) (xs : List ℕ) → All P xs → All P (give_back id xs)
unfolding give_back
All-give_back P id [] h = tt
All-give_back P id (x ∷ xs) h = ground (arith, All-give_back P id xs h.1)

Fresh-give_back : (a id : ℕ) (xs : List ℕ) → Fresh a xs → Fresh a (give_back id xs)
unfolding give_back
Fresh-give_back a id [] h = tt
Fresh-give_back a id (x ∷ xs) h = ground (arith, Fresh-give_back a id xs h.1)

Distinct-give_back :
    (id : ℕ) (xs : List ℕ) → Distinct xs → Distinct (give_back id xs) × Fresh id (give_back id xs)
unfolding give_back
Distinct-give_back id [] d = (tt, tt)
Distinct-give_back id (x ∷ xs) d = elim (Bool-cases (x == id)) [
  | inl same ↦ rw same (d.1, subst (λ a. Fresh a xs) ((==_iff x id).0 same) d.0)
  | inr other ↦
      let (d', f) = Distinct-give_back id xs d.1 in
      rw other ((Fresh-give_back x id xs d.0, d'), (ground arith, f))
]

length-give_back : (id : ℕ) (xs : List ℕ) → Among id xs → length (give_back id xs) + 1 ≡ length xs
unfolding give_back
length-give_back id [] h = absurd h
length-give_back id (x ∷ xs) (inl e) = ground arith
length-give_back id (x ∷ xs) (inr h) = ground (arith, length-give_back id xs h)

apart-give_back :
    (id : ℕ) (held xs : List ℕ)
    → All (λ a. Fresh a held) xs
    → All (λ a. Fresh a (give_back id held)) xs
apart-give_back id held [] h = tt
apart-give_back id held (x ∷ xs) h = (Fresh-give_back x id held h.0, apart-give_back id held xs h.1)

not-Fresh : (a : ℕ) (xs : List ℕ) → Among a xs → Fresh a xs → ⊥
not-Fresh a [] h f = absurd h
not-Fresh a (x ∷ xs) (inl e) f = f.0 e
not-Fresh a (x ∷ xs) (inr h) f = not-Fresh a xs h f.1

Fresh-free : (id : ℕ) (held xs : List ℕ) → Among id held → All (λ a. Fresh a held) xs → Fresh id xs
Fresh-free id held [] h f = tt
Fresh-free id held (x ∷ xs) h f =
    (λ e. not-Fresh id held h (subst (λ a. Fresh a held) (sym e) f.0), Fresh-free id held xs h f.1)

issued : (P : ℕ → Type 0) (a : ℕ) (xs : List ℕ) → Among a xs → All P xs → P a
issued P a [] m h = absurd m
issued P a (x ∷ xs) (inl e) h = subst P (sym e) h.0
issued P a (x ∷ xs) (inr m) h = issued P a xs m h.1

empty-Inv : Inv empty []
empty-Inv = record {
  held_distinct = tt;
  free_distinct = tt;
  apart = tt;
  held_issued = tt;
  free_issued = tt;
  counted = refl;
  in_range = omega arith;
}

-- What the holders hold after a call of Acquire.
abbrev pub held_after : Option ℕ → List ℕ → List ℕ
held_after none held = held
held_after (some id) held = id ∷ held

acquire_free :
    (p : P2dIdPool) (held rest : List ℕ) (id : ℕ)
    → Inv p held
    → p.free_list ≡ id ∷ rest
    → Inv (record p { free_list = rest }) (id ∷ held)
acquire_free p held rest id v e = record {
  held_distinct = ((rw e at v.apart).0, v.held_distinct);
  free_distinct = (rw e at v.free_distinct).1;
  apart = apart-cons id held rest (rw e at v.free_distinct).0 (rw e at v.apart).1;
  held_issued = ((rw e at v.free_issued).0, v.held_issued);
  free_issued = (rw e at v.free_issued).1;
  counted = omega (arith, v.counted, ap (λ (l : List ℕ). length l) e);
  in_range = v.in_range;
}

acquire_new :
    (p : P2dIdPool) (held : List ℕ)
    → Inv p held
    → p.free_list ≡ []
    → p.next_new_id ≤ max_p2d_id
    → Inv (record p { next_new_id = p.next_new_id + 1 }) (p.next_new_id ∷ held)
acquire_new p held v e h = record {
  held_distinct = (Fresh-above p.next_new_id held v.held_issued, v.held_distinct);
  free_distinct = v.free_distinct;
  apart = rw e tt;
  held_issued = (omega arith, All-wider p.next_new_id held v.held_issued);
  free_issued = All-wider p.next_new_id p.free_list v.free_issued;
  counted = omega (arith, v.counted);
  in_range = omega arith;
}

-- the three ways in which Acquire ends
acquire-recycled :
    (p : P2dIdPool) (rest : List ℕ) (id : ℕ)
    → p.free_list ≡ id ∷ rest
    → acquire p ≡ (some id, record p { free_list = rest })
unfolding acquire
acquire-recycled p rest id e = ground arith

acquire-exhausted :
    (p : P2dIdPool) → p.free_list ≡ [] → max_p2d_id < p.next_new_id → acquire p ≡ (none, p)
unfolding acquire
acquire-exhausted p e h = ground arith

acquire-fresh :
    (p : P2dIdPool)
    → p.free_list ≡ []
    → p.next_new_id ≤ max_p2d_id
    → acquire p ≡ (some p.next_new_id, record p { next_new_id = p.next_new_id + 1 })
unfolding acquire
acquire-fresh p e h = ground arith

acquire_cases :
    (p : P2dIdPool) (held free : List ℕ)
    → Inv p held
    → p.free_list ≡ free
    → Inv (acquire p).1 (held_after (acquire p).0 held)
      × (((acquire p).0 ≡ none) ↔ (length held ≡ 65536))
acquire_cases p held (id ∷ rest) v e = rw (acquire-recycled p rest id e) (
  acquire_free p held rest id v e,
  (λ h. cc, λ h. absurd (omega (arith, h, v.counted, v.in_range, ap (λ (l : List ℕ). length l) e))),
)
acquire_cases p held [] v e = elim (dec_lt max_p2d_id p.next_new_id) [
  | yes out ↦
      rw (acquire-exhausted p e out)
        (v, (λ h. omega (arith, v.counted, v.in_range, ap (λ (l : List ℕ). length l) e), λ h. refl))
  | no room ↦ rw (acquire-fresh p e (omega arith)) (
    acquire_new p held v e (omega arith),
    (
      λ h. cc,
      λ h. absurd (omega (arith, h, v.counted, v.in_range, ap (λ (l : List ℕ). length l) e)),
    ),
  )
]

-- Where the holders' ids and the pool's are apart: Acquire gives an id that nobody holds, or reports that the pool is exhausted; the latter happens
-- exactly when all 65536 ids are held.
pub acquire-Inv :
    (p : P2dIdPool) (held : List ℕ)
    → Inv p held
    → Inv (acquire p).1 (held_after (acquire p).0 held)
      × (((acquire p).0 ≡ none) ↔ (length held ≡ 65536))
acquire-Inv p held v = acquire_cases p held p.free_list v refl

-- Where the holders' ids and the pool's are apart, giving back an id that is held keeps them so.
pub release-Inv :
    (p : P2dIdPool) (held : List ℕ) (id : ℕ)
    → Inv p held
    → Among id held
    → Inv (release id p) (give_back id held)
unfolding release
release-Inv p held id v h = record {
  held_distinct = (Distinct-give_back id held v.held_distinct).0;
  free_distinct = (Fresh-free id held p.free_list h v.apart, v.free_distinct);
  apart =
      ((Distinct-give_back id held v.held_distinct).1, apart-give_back id held p.free_list v.apart);
  held_issued = All-give_back (λ a. a < p.next_new_id) id held v.held_issued;
  free_issued = (issued (λ a. a < p.next_new_id) id held h v.held_issued, v.free_issued);
  counted = omega (arith, v.counted, length-give_back id held h);
  in_range = v.in_range;
}
