-- ===== src/Sockets/Pairs.antt =====
-- getaddrinfo of src/socket.c pairs every address with every socket type.
use mathlib.Core.List.{append-nil, append_assoc}
use jega.Base.{length, ℕ, ◌<◌, ◌≡◌, refl, ap, ◌∙◌, List, [], ◌∷◌, ◌++◌, arith}
use jega.Sockets.{
  Resolver, Entry, known_family, convert_socktypes, convert_hosts, convert_getaddrinfo_result,
}

module _ {Host Result : Type 0} (r : Resolver Host Result) (port : ℕ) where
  -- The entries of one address, and of a list of them.
  abbrev pub entries_of : ℕ → Host → List (ℕ × ℕ) → List (Entry Host)
  entries_of family host [] = []
  entries_of family host ((socktype, proto) ∷ rest) =
      record { family = family; socktype = socktype; proto = proto; host = host; port = port }
      ∷ entries_of family host rest

  abbrev pub all_entries : ℕ → List Host → List (ℕ × ℕ) → List (Entry Host)
  all_entries family [] socktypes = []
  all_entries family (host ∷ rest) socktypes =
      entries_of family host socktypes ++ all_entries family rest socktypes

  -- The family of every entry: the one asked for, or else the one of the first address.
  abbrev pub shared_family : ℕ → List Host → ℕ
  shared_family family [] = family
  shared_family family (host ∷ rest) = known_family r family host

  known_twice :
      (family : ℕ) (h k : Host)
      → known_family r (known_family r family h) k ≡ known_family r family h
  known_twice family h k = ground arith

  convert_socktypes_known :
      (host : Host) (types : List (ℕ × ℕ)) (family : ℕ) (done : List (Entry Host))
      → known_family r family host ≡ family
      → convert_socktypes r host port types (family, done)
        ≡ (family, done ++ entries_of family host types)
  unfolding convert_socktypes
  convert_socktypes_known host [] family done e = simp append-nil
  convert_socktypes_known host ((t, p) ∷ rest) family done e =
      rw e
        (convert_socktypes_known host rest family _ e ∙ ap (λ l. (family, l)) (simp append_assoc))

  convert_hosts_known :
      (hosts : List Host) (types : List (ℕ × ℕ)) (family : ℕ) (done : List (Entry Host))
      → ((h : Host) → known_family r family h ≡ family)
      → convert_hosts r hosts types port (family, done)
        ≡ (family, done ++ all_entries family hosts types)
  unfolding convert_hosts
  convert_hosts_known [] types family done e = simp append-nil
  convert_hosts_known (h ∷ rest) types family done e =
      ap (convert_hosts r rest types port) (convert_socktypes_known h types family done (e h))
      ∙ convert_hosts_known rest types family _ e
      ∙ ap (λ l. (family, l)) (simp append_assoc)

  -- The conversion gives every address with every socket type, the first address first, all under one
  -- family.
  pub convert-all_entries :
      (hosts : List Host) (types : List (ℕ × ℕ)) (family : ℕ)
      → 0 < length types
      → convert_getaddrinfo_result r hosts types port family
        ≡ all_entries (shared_family family hosts) hosts types
  unfolding convert_getaddrinfo_result convert_hosts convert_socktypes
  convert-all_entries [] types family some_type = refl
  convert-all_entries (h ∷ rest) [] family some_type = absurd (omega arith)
  convert-all_entries (h ∷ rest) ((t, p) ∷ types) family some_type =
      let f = known_family r family h in
      ap (λ s. (convert_hosts r rest ((t, p) ∷ types) port s).1)
        (convert_socktypes_known h types f _ (known_twice family h h))
      ∙ ap (λ s. s.1) (convert_hosts_known rest ((t, p) ∷ types) f _ (known_twice family h))
