-- ===== src/Examples/Artifacts.antt =====
-- src/artifact_service/store.py at concrete inputs.
use litellm_gateway.Prelude.{◌<◌, ◌≡◌, refl, some, none, List, [], ◌∷◌, arith}
use litellm_gateway.Artifacts.Upload.{Bytes, cut}
use litellm_gateway.Artifacts.Upload.Parts.{Exactly, join, cut_exact}

abbrev body : List Bytes
body = (1 ∷ 2 ∷ []) ∷ [] ∷ (3 ∷ 4 ∷ 5 ∷ 6 ∷ 7 ∷ []) ∷ []

three_positive : 0 < 3
three_positive = omega arith

three_parts :
    cut 3 10 body
    ≡ some (record {
      parts = (1 ∷ 2 ∷ 3 ∷ []) ∷ (4 ∷ 5 ∷ 6 ∷ []) ∷ (7 ∷ []) ∷ [];
      buffer = 7 ∷ [];
      size = 7;
    })
unfolding cut
three_parts = refl

body_too_long : cut 3 6 body ≡ none
unfolding cut
body_too_long = refl

cut_exact_example : Exactly 3 three_positive 10 (join body) (cut 3 10 body)
cut_exact_example = cut_exact 3 three_positive 10 body
