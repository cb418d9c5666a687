-- ===== src/System/Horse/Tests.antt =====
-- The horses of a character at concrete inputs.
use alicia_server.Common.{◌≡◌, refl, [], ◌∷◌, none, some}
use alicia_server.Common.Map.{Map, lookup}
use alicia_server.Ranch.Market.{HorseType}
use alicia_server.Ranch.Genetics.{Horse}
use alicia_server.System.Horse.{Character, repair_lineages, promote_matured_foals}
use alicia_server.System.Horse.Repaired.{repair_lineages-again}
use alicia_server.System.Horse.Matured.{promote_matured_foals-each}

-- A foal with the coat of its mother.
abbrev foal : Horse
foal = record {
  skin_tid = 4;
  mane_tid = 1;
  tail_tid = 1;
  mother = 8;
  father = 0;
  lineage = 1;
  potential_type = 0;
  type = HorseType.foal;
  date_of_birth = 100;
}

abbrev mother : Horse
mother = record {
  skin_tid = 4;
  mane_tid = 1;
  tail_tid = 1;
  mother = 0;
  father = 0;
  lineage = 1;
  potential_type = 0;
  type = HorseType.adult;
  date_of_birth = 0;
}

abbrev stable : Map Horse
stable = (7, foal) ∷ (8, mother) ∷ []

abbrev owner : Character
owner = record { horses = 7 ∷ []; mount_uid = 8 }

repair_lineages-again_example :
    repair_lineages (some owner) (repair_lineages (some owner) stable).0
    ≡ ((repair_lineages (some owner) stable).0, 0)
repair_lineages-again_example = repair_lineages-again (some owner) stable

-- The foal is grown up an hour after its birth.
promote_matured_foals-each_example :
    (lookup 7 (promote_matured_foals 3700 (some owner) stable).0
      ≡ some (record foal { type = HorseType.adult }))
    × (lookup 7 (promote_matured_foals 3700 (some owner) stable).1 ≡ none)
unfolding lookup
promote_matured_foals-each_example = promote_matured_foals-each 3700 owner stable 7 foal refl
