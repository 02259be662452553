-- ===== src/Downloads/Tests.antt =====
-- The names of small archives.
use mallard.Common.{◌≡◌, refl, Text, codes, Option, none, some, List, [], ◌∷◌}
use mallard.Downloads.{fetch_images, digits, decimal, fetch_names}
use mallard.Downloads.Names.{numbered, fetch_images-numbered}

downloads : Unit {0}
unfolding digits decimal fetch_names fetch_images
downloads = tt

abbrev names : List (Option Text)
names = some (codes "a") ∷ none ∷ some (codes "a") ∷ some (codes "b") ∷ some (codes "a") ∷ []

-- The renamed second "a" and the third artifact have one name.
names_tests :
    (fetch_images names
      ≡ some (codes "a") ∷ none ∷ some (codes "1_a") ∷ some (codes "b") ∷ some (codes "2_a") ∷ [])
    × (fetch_images (some (codes "a") ∷ some (codes "a") ∷ some (codes "1_a") ∷ [])
        ≡ some (codes "a") ∷ some (codes "1_a") ∷ some (codes "1_a") ∷ [])
unfolding downloads
names_tests = (refl, refl)

fetch_images-numbered_example : fetch_images names ≡ numbered [] names
fetch_images-numbered_example = fetch_images-numbered names
