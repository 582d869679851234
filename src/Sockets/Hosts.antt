-- ===== src/Sockets/Hosts.antt =====
-- The addresses that getaddrinfo of src/socket.c gets for a name.
use mathlib.Core.List.{append-nil, append_assoc}
use jega.Base.{
  if◌then◌else◌, Bool-cases, ℕ, ◌≡◌, refl, sym, ap, ◌∙◌, ◌↔◌, ◌⊎◌, inl, inr, true, false, ◌||◌,
  none, some, List, [], ◌∷◌, ◌++◌, arith,
}
use jega.Sockets.{
  answer, af_unspec, af_inet, af_inet6, Resolver, any_v4, local_v6, or_default, contains,
  append_iplists, getaddrinfohosts,
}

module _ {Host Result : Type 0} (r : Resolver Host Result) where
  -- The addresses that are not in `list` and not twice among themselves, in their order.
  abbrev pub fresh : List Host → List Host → List Host
  fresh list [] = []
  fresh list (h ∷ rest) =
      if contains r list h then fresh list rest else h ∷ fresh (list ++ h ∷ []) rest

  append_iplists-unchecked :
      (list hosts : List Host) → append_iplists r list hosts false ≡ list ++ hosts
  unfolding append_iplists
  append_iplists-unchecked list [] = simp append-nil
  append_iplists-unchecked list (h ∷ rest) =
      append_iplists-unchecked (list ++ h ∷ []) rest ∙ simp append_assoc

  append_iplists-fresh :
      (list hosts : List Host) → append_iplists r list hosts true ≡ list ++ fresh list hosts
  unfolding append_iplists
  append_iplists-fresh list [] = simp append-nil
  append_iplists-fresh list (h ∷ rest) = elim (Bool-cases (contains r list h)) [
    | inl old ↦ rw old (append_iplists-fresh list rest)
    | inr new ↦ rw new (append_iplists-fresh (list ++ h ∷ []) rest ∙ simp append_assoc)
  ]

  contains-append :
      (xs ys : List Host) (h : Host)
      → contains r (xs ++ ys) h ≡ (contains r xs h || contains r ys h)
  contains-append [] ys h = refl
  contains-append (x ∷ xs) ys h = ground (arith, contains-append xs ys h)

  module _ (same_iff : (a b : Host) → (r.same a b ≡ true) ↔ (a ≡ b)) where
    -- Each address stands once in the second list and not in the first.
    abbrev pub Distinct : List Host → List Host → Type 0
    Distinct list [] = Unit {0}
    Distinct list (h ∷ rest) = (contains r list h ≡ false) × Distinct (list ++ h ∷ []) rest

    fresh-Distinct : (list hosts : List Host) → Distinct list (fresh list hosts)
    fresh-Distinct list [] = tt
    fresh-Distinct list (h ∷ rest) = elim (Bool-cases (contains r list h)) [
      | inl old ↦ rw old (fresh-Distinct list rest)
      | inr new ↦ rw new (new, fresh-Distinct (list ++ h ∷ []) rest)
    ]

    fresh-contains :
        (list hosts : List Host) (a : Host)
        → (contains r list a || contains r (fresh list hosts) a)
          ≡ (contains r list a || contains r hosts a)
    fresh-contains list [] a = refl
    fresh-contains list (h ∷ rest) a = elim (Bool-cases (contains r list h)) [
      | inl old ↦ rw old (
          ground (
            arith,
            fresh-contains list rest a,
            same_iff h a,
            ap (contains r list) {x = h} {y = a},
            old,
          ))
      | inr new ↦
          rw new (
            ground (arith, fresh-contains (list ++ h ∷ []) rest a, contains-append list (h ∷ []) a))
    ]

    -- With no family asked for, the answer is the addresses of version 4, which have to be found, and
    -- behind them those of version 6, if any are found, that are not among them, each once.
    pub getaddrinfohosts-joins :
        (name : List ℕ) (v4 v6 : List Host)
        → r.resolve (or_default any_v4 name) af_inet ≡ some v4
        → (r.resolve (or_default local_v6 name) af_inet6 ≡ some v6)
          ⊎ ((r.resolve (or_default local_v6 name) af_inet6 ≡ none) × (v6 ≡ []))
        → (extra : List Host) × (getaddrinfohosts r name af_unspec ≡ answer (v4 ++ extra))
          × Distinct v4 extra
          × ((a : Host) → contains r (v4 ++ extra) a ≡ (contains r v4 a || contains r v6 a))
    unfolding getaddrinfohosts
    getaddrinfohosts-joins name v4 v6 found (inl more) = (
      fresh v4 v6,
      rw (getaddrinfohosts, found, more)
          (ap answer (rw (append_iplists-unchecked [] v4) (append_iplists-fresh v4 v6))),
      fresh-Distinct v4 v6,
      λ a. contains-append v4 (fresh v4 v6) a ∙ fresh-contains v4 v6 a,
    )
    getaddrinfohosts-joins name v4 v6 found (inr (no_more, empty)) = (
      [],
      rw (getaddrinfohosts, found, no_more)
          (ap answer (append_iplists-unchecked [] v4 ∙ sym (append-nil v4))),
      tt,
      λ a. rw (empty, append-nil v4) (ground arith),
    )
