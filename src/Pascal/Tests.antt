-- ===== src/Pascal/Tests.antt =====
-- Runs of the Pascal string functions, and the theorems at concrete inputs.
use netatalk_client.Base.{◌≡◌, refl, some, none, [], ◌∷◌}
use netatalk_client.Base.{All, arith}
use netatalk_client.Pascal.RoundTrip.{NotNul}
use netatalk_client.Pascal.{copy_from_pascal}

text : All NotNul (65 ∷ 66 ∷ 67 ∷ [])
text = ground arith

from_runs : copy_from_pascal [] (9 ∷ 3 ∷ 65 ∷ 66 ∷ 67 ∷ []) 1 3 ≡ some (65 ∷ 66 ∷ 0 ∷ [], 3)
unfolding copy_from_pascal
from_runs = refl

from_outside : copy_from_pascal [] (9 ∷ 3 ∷ 65 ∷ 66 ∷ []) 1 10 ≡ none
unfolding copy_from_pascal
from_outside = refl
