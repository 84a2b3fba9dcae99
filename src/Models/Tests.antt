-- ===== src/Models/Tests.antt =====
-- src/capabilityhub/models.py: three effects and the theorem at them.
use capabilityhub.Base.{◌≡◌, [], ◌∷◌}
use capabilityhub.Models.{none, read, reversible_write, maximum_side_effect}
use capabilityhub.Models.Effects.{gravest, maximum_side_effect-gravest}

maximum_side_effect-gravest_example :
    maximum_side_effect (read ∷ reversible_write ∷ none ∷ [])
    ≡ gravest (read ∷ reversible_write ∷ none ∷ [])
maximum_side_effect-gravest_example =
    maximum_side_effect-gravest (read ∷ reversible_write ∷ none ∷ [])
