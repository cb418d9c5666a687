-- ===== src/Race/Magic/Duration.antt =====
-- How long an effect lasts.
use alicia_server.Common.{
  ℕ, ◌+◌, ◌-◌, ◌*◌, ◌/◌, ◌^◌, ◌≤◌, ◌<◌, ◌≡◌, refl, arith, min, Option, none, some, Option-cases,
  inl, inr,
}
use alicia_server.Race.Tracker.{Racer}
use alicia_server.Race.Magic.{
  MagicRegistry, SlotInfo, StatScaling, get_stat_scaling, get_mount_stat_value,
  compute_effect_duration_ms, lengthen, shorten, uint32, max_duration_bonus_bp,
}
use native.Mathlib.Nat.{mul-le-mul_left}

-- A product that is scaled by at most `top` thousandths does not wrap, and scaling is monotone.
scaled :
    (duration low high top : ℕ)
    → low ≤ high
    → high ≤ top
    → duration * top < 2 ^ 32
    → (uint32 (duration * low) / 1000 ≤ uint32 (duration * high) / 1000)
      × (uint32 (duration * high) / 1000 ≤ duration * top / 1000)
scaled duration low high top le ge h =
    let a = mul-le-mul_left duration le in
    let b = mul-le-mul_left duration ge in omega (arith, a, b)

-- the stat that a scaling reads
abbrev stat_of : StatScaling → Racer → ℕ
stat_of scaling racer = get_mount_stat_value racer.mount_stats scaling.stat

lengthen-bounds :
    (scaling : StatScaling) (attacker : Option Racer) (duration : ℕ)
    → duration * 2150 < 2 ^ 32
    → (duration ≤ lengthen scaling attacker duration)
      × (lengthen scaling attacker duration ≤ duration * 2150 / 1000)
unfolding lengthen
lengthen-bounds scaling none duration h = omega arith
lengthen-bounds scaling (some attacker) duration h =
    let bonus =
      min (uint32 (scaling.duration_scale_bp * stat_of scaling attacker)) max_duration_bonus_bp in
    ground (arith, scaled duration 1000 (1000 + bonus) 2150 (omega arith) (omega arith) h)

lengthen_mono :
    (scaling : StatScaling) (weak strong : Racer) (duration : ℕ)
    → duration * 2150 < 2 ^ 32
    → stat_of scaling weak ≤ stat_of scaling strong
    → scaling.duration_scale_bp * stat_of scaling strong < 2 ^ 32
    → lengthen scaling (some weak) duration ≤ lengthen scaling (some strong) duration
unfolding lengthen
lengthen_mono scaling weak strong duration h le fits =
    let less =
      min (uint32 (scaling.duration_scale_bp * stat_of scaling weak)) max_duration_bonus_bp in
    let more =
      min (uint32 (scaling.duration_scale_bp * stat_of scaling strong)) max_duration_bonus_bp in
    let product = mul-le-mul_left scaling.duration_scale_bp le in
    ground (
      arith,
      scaled duration (1000 + less) (1000 + more) 2150 (omega (arith, product)) (omega arith) h,
    )

shorten-le :
    (scaling : StatScaling) (target : Racer) (duration : ℕ)
    → duration * 1000 < 2 ^ 32
    → shorten scaling target duration ≤ duration
unfolding shorten
shorten-le scaling target duration h =
    let reduction =
      min (uint32 (scaling.target_duration_reduction_bp * stat_of scaling target)) 1000 in
    ground (
      arith,
      scaled duration (1000 - reduction) (1000 - reduction) 1000 (omega arith) (omega arith) h,
    )

shorten_mono :
    (scaling : StatScaling) (target : Racer) (short long : ℕ)
    → short ≤ long
    → long * 1000 < 2 ^ 32
    → shorten scaling target short ≤ shorten scaling target long
unfolding shorten
shorten_mono scaling target short long le h =
    let reduction =
      min (uint32 (scaling.target_duration_reduction_bp * stat_of scaling target)) 1000 in
    let kept = 1000 - reduction in
    let product = mul-le-mul_left kept le in
    let whole : long * kept ≤ long * 1000 = mul-le-mul_left long (omega arith) in
    ground (arith, product, whole)

unreduced :
    (scaling : StatScaling) (target : Racer) (duration : ℕ)
    → scaling.target_duration_reduction_bp ≡ 0
    → shorten scaling target duration ≡ duration
unfolding shorten
unreduced scaling target duration e = ground arith

-- With a base duration that the greatest bonus does not take past 32 bits, an effect lasts at most
-- 2.15 times its base duration; and a target that no reduction is configured for has it for at least
-- its base duration.
pub compute_effect_duration_ms-bounds :
    (registry : MagicRegistry) (slot : SlotInfo) (attacker : Option Racer) (target : Racer)
    → slot.effect_delay_ms * 2150 < 2 ^ 32
    → let duration = compute_effect_duration_ms registry slot attacker target in
      (duration ≤ slot.effect_delay_ms * 2150 / 1000)
      × (((scaling : StatScaling)
            → get_stat_scaling slot.basic_type registry ≡ some scaling
            → scaling.target_duration_reduction_bp ≡ 0)
          → slot.effect_delay_ms ≤ duration)
unfolding compute_effect_duration_ms
compute_effect_duration_ms-bounds registry slot attacker target h =
    elim (Option-cases (get_stat_scaling slot.basic_type registry)) [
      | inl e ↦ rw (e, compute_effect_duration_ms) (omega arith, λ none_reduced. omega arith)
      | inr (scaling, e) ↦
          (let long : ℕ = lengthen scaling attacker slot.effect_delay_ms in
            let within = lengthen-bounds scaling attacker slot.effect_delay_ms h in
            let short = shorten-le scaling target long (omega (arith, within.1)) in
            rw (e, compute_effect_duration_ms)
              (
                omega (arith, short, within.1),
                λ none_reduced.
                    rw (unreduced scaling target long (none_reduced scaling refl)) (within.0),
              ))
    ]

-- Before the products wrap, an attacker with a higher stat never casts a shorter effect.
pub compute_effect_duration_ms_mono :
    (registry : MagicRegistry) (slot : SlotInfo) (weak strong target : Racer)
    → slot.effect_delay_ms * 2150 < 2 ^ 32
    → ((scaling : StatScaling)
        → get_stat_scaling slot.basic_type registry ≡ some scaling
        → (stat_of scaling weak ≤ stat_of scaling strong)
          × (scaling.duration_scale_bp * stat_of scaling strong < 2 ^ 32))
    → compute_effect_duration_ms registry slot (some weak) target
      ≤ compute_effect_duration_ms registry slot (some strong) target
unfolding compute_effect_duration_ms
compute_effect_duration_ms_mono registry slot weak strong target h order =
    elim (Option-cases (get_stat_scaling slot.basic_type registry)) [
      | inl e ↦ rw (e, compute_effect_duration_ms) (omega arith)
      | inr (scaling, e) ↦
          (let (le, fits) = order scaling e in
            let within = (lengthen-bounds scaling (some strong) slot.effect_delay_ms h).1 in
            rw (e, compute_effect_duration_ms)
              (shorten_mono scaling target (lengthen scaling (some weak) slot.effect_delay_ms)
                (lengthen scaling (some strong) slot.effect_delay_ms)
                (lengthen_mono scaling weak strong slot.effect_delay_ms h le fits)
                (omega (arith, within))))
    ]
