-- ===== src/Decode/Tests.antt =====
-- The text a%4a%2 in a buffer of eight bytes, and the theorem at it.
use jega.Base.{ok, ℕ, ◌≡◌, refl, Option, none, some, List, [], ◌∷◌, ◌++◌, arith}
use jega.Decode.{hex2int, unescaped, urldecode}
use jega.Decode.Place.{bytes, urldecode-decodes}

abbrev text : List ℕ
text = 97 ∷ 37 ∷ 52 ∷ 97 ∷ 37 ∷ 50 ∷ []

unescaped_j : unescaped 52 97 ≡ 74
unfolding hex2int
unescaped_j = refl

urldecode-decodes_example :
    (q : List (Option ℕ)) × (urldecode (bytes text ++ none ∷ none ∷ []) 6
      ≡ ok (bytes (97 ∷ 74 ∷ 37 ∷ 50 ∷ []) ++ (some 0 ∷ q), 4))
urldecode-decodes_example = urldecode-decodes text (none ∷ none ∷ []) (omega arith)
