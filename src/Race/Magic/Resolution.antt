-- ===== src/Race/Magic/Resolution.antt =====
-- Which effect a spell has on its target, and which spells an attack strips.
use alicia_server.Common.{
  ℕ, ◌≤◌, ◌<◌, ◌≡◌, ◌≢◌, ◌↔◌, ◌⊎◌, inl, inr, refl, arith, true, false, [], ◌∷◌, Option-cases,
  Bool-cases,
}
use alicia_server.Common.Map.{lookup, contains}
use alicia_server.Common.Outcome.{returned}
use alicia_server.Race.Tracker.{Racer}
use alicia_server.Race.Magic.{
  MagicRegistry, SlotInfo, EffectResolution, resolve_effect, resolution, occupied_effect_id,
  get_slot_info, shield_threshold, hot_rodding_blocks, effect_at, is_set, is_any,
  is_stripped_by_attack,
}

resolved :
    (registry : MagicRegistry) (slot : SlotInfo) (racer : Racer)
    → (is_set slot.replace_effect ≡ true) ⊎ (contains slot.basic_type registry.slot_info ≡ true)
    → (occupied : ℕ) × (resolve_effect registry slot racer
        ≡ returned (resolution occupied slot racer))
unfolding resolve_effect occupied_effect_id get_slot_info contains
resolved registry slot racer h = elim (Bool-cases (is_set slot.replace_effect)) [
  | inl e ↦ (slot.skill_effect_id, rw (e, resolve_effect, occupied_effect_id) refl)
  | inr e ↦ elim (Option-cases (lookup slot.basic_type registry.slot_info)) [
    | inl f ↦ ground (arith, h, e, f)
    | inr (basic, f) ↦
        (basic.skill_effect_id, rw (e, f, resolve_effect, occupied_effect_id, get_slot_info) refl)
  ]
]

shielded :
    (occupied : ℕ) (slot : SlotInfo) (racer : Racer)
    → let res = resolution occupied slot racer in
      ((res.shield_blocks ≡ true) ↔ (
        (1 ≤ slot.attack_value)
        × (((effect_at 3 racer ≡ true) × (slot.attack_value < 200))
            ⊎ ((effect_at 2 racer ≡ true) × (slot.attack_value < 100)))))
      × (res.shield_blocks ≡ true → effect_at res.effect_id racer ≡ true)
      × (res.shield_blocks ≡ false → res.effect_id ≡ slot.skill_effect_id)
unfolding resolution shield_threshold
shielded occupied slot racer = ground arith

blocked_lem :
    (slot : SlotInfo) (racer : Racer)
    → 1 ≤ slot.attack_value
    → (hot_rodding_blocks slot racer ≡ false) ↔ (
        ((effect_at 6 racer ≡ false) ⊎ (slot.remove_hot_rodding ≢ 0))
        × ((effect_at 7 racer ≡ false)
            ⊎ ((slot.remove_hot_rodding ≢ 0) × (slot.critical_type ≡ 0))))
unfolding hot_rodding_blocks
blocked_lem slot racer a = ground arith

duplicated_lem :
    (occupied : ℕ) (slot : SlotInfo) (racer : Racer)
    → 1 ≤ slot.attack_value
    → 1 ≤ slot.attack_rank
    → ((resolution occupied slot racer).is_duplicated ≡ false)
      ↔ ((hot_rodding_blocks slot racer ≡ false) × (racer.attack_rank < slot.attack_rank))
unfolding resolution
duplicated_lem occupied slot racer a k = ground arith

-- Where the spell replaces effects or its basic slot is in the registry, ResolveEffect answers. A
-- shield blocks exactly an attack weaker than it, of 200 for the critical and 100 for the plain one;
-- then the effect is that of a shield which the target has, else that of the spell.
pub resolve_effect-shield :
    (registry : MagicRegistry) (slot : SlotInfo) (racer : Racer)
    → (is_set slot.replace_effect ≡ true) ⊎ (contains slot.basic_type registry.slot_info ≡ true)
    → (res : EffectResolution) × (resolve_effect registry slot racer ≡ returned res)
      × ((res.shield_blocks ≡ true) ↔ (
          (1 ≤ slot.attack_value)
          × (((effect_at 3 racer ≡ true) × (slot.attack_value < 200))
              ⊎ ((effect_at 2 racer ≡ true) × (slot.attack_value < 100)))))
      × (res.shield_blocks ≡ true → effect_at res.effect_id racer ≡ true)
      × (res.shield_blocks ≡ false → res.effect_id ≡ slot.skill_effect_id)
resolve_effect-shield registry slot racer h =
    let (occupied, e) = resolved registry slot racer h in
    let facts = shielded occupied slot racer in
    (resolution occupied slot racer, e, facts.0, facts.1, facts.2)

-- Under the same condition a ranked attack takes effect exactly on a target that no hot rodding protects and whose own attack
-- has a lower rank. Hot rodding gives way to lightning, critical hot rodding to critical lightning only.
pub resolve_effect-attack :
    (registry : MagicRegistry) (slot : SlotInfo) (racer : Racer)
    → (is_set slot.replace_effect ≡ true) ⊎ (contains slot.basic_type registry.slot_info ≡ true)
    → 1 ≤ slot.attack_value
    → 1 ≤ slot.attack_rank
    → (res : EffectResolution) × (resolve_effect registry slot racer ≡ returned res)
      × ((res.is_duplicated ≡ false) ↔ (
          (racer.attack_rank < slot.attack_rank)
          × ((effect_at 6 racer ≡ false) ⊎ (slot.remove_hot_rodding ≢ 0))
          × ((effect_at 7 racer ≡ false)
              ⊎ ((slot.remove_hot_rodding ≢ 0) × (slot.critical_type ≡ 0)))))
resolve_effect-attack registry slot racer h a k =
    let (occupied, e) = resolved registry slot racer h in
    let fair = duplicated_lem occupied slot racer a k in
    let blocked = blocked_lem slot racer a in
    (
      resolution occupied slot racer,
      e,
      (
        λ f. (let safe = blocked.0 (fair.0 f).0 in ((fair.0 f).1, safe.0, safe.1)),
        λ (lower, plain, critical). fair.1 (blocked.1 (plain, critical), lower),
      ),
    )

-- Hot rodding and the buffs of power and gauge are never stripped. An attack that does not remove
-- magic strips at most a booster or a buff of speed, and that as a jump stun, and a plain shield, and
-- that as a critical jump stun or critical dark fire. A higher rank never strips less.
pub is_stripped_by_attack_lem :
    (attack active : SlotInfo)
    → (is_any active.skill_effect_id (6 ∷ 7 ∷ 18 ∷ 19 ∷ 20 ∷ 21 ∷ []) ≡ true
        → is_stripped_by_attack attack active ≡ false)
      × (attack.remove_magic ≡ 0
          → is_stripped_by_attack attack active ≡ true
          → ((attack.basic_type ≡ 12) × (is_any active.skill_effect_id (5 ∷ 22 ∷ 23 ∷ []) ≡ true))
            ⊎ ((active.skill_effect_id ≡ 2) × ((attack.type_ ≡ 13) ⊎ (attack.type_ ≡ 15))))
      × ((rank : ℕ)
          → attack.attack_rank ≤ rank
          → is_stripped_by_attack attack active ≡ true
          → is_stripped_by_attack (record attack { attack_rank = rank }) active ≡ true)
unfolding is_stripped_by_attack
is_stripped_by_attack_lem attack active = (ground arith, ground arith, λ rank le h. ground arith)
