-- ===== src/Lookup/Hostent.antt =====
-- gethost_data of src/lookup.c against a description by lists.
use mathlib.Core.Option
use jega.Base.{if◌then◌else◌, ℕ, Option, none, some, List, [], ◌∷◌, ◌++◌}
use jega.Lookup.{HostEntry, equal_text}

-- The aliases that are not the name.
abbrev pub without_name : List ℕ → List (List ℕ) → List (List ℕ)
without_name name [] = []
without_name name (a ∷ rest) =
    if equal_text a name then without_name name rest else a ∷ without_name name rest

abbrev pub named_aliases : List ℕ → Option (List (List ℕ)) → List (List ℕ)
named_aliases name none = []
named_aliases name (some aliases) = without_name name aliases

abbrev pub aliases_of : HostEntry → List (List ℕ)
aliases_of host = named_aliases host.h_name host.h_aliases

-- Every item is translated, or there is no result.
abbrev pub consed : Option (List ℕ) → Option (List (List ℕ)) → Option (List (List ℕ))
consed none rest = none
consed (some t) none = none
consed (some t) (some ts) = some (t ∷ ts)

abbrev pub traverse : (List ℕ → Option (List ℕ)) → List (List ℕ) → Option (List (List ℕ))
traverse f [] = some []
traverse f (a ∷ rest) = consed (f a) (traverse f rest)

abbrev prepended : List (List ℕ) → Option (List (List ℕ)) → Option (List (List ℕ))
prepended done none = none
prepended done (some ts) = some (done ++ ts)
