-- ===== src/Sockets/Kinds.antt =====
-- The socket types of getaddrinfo in src/socket.c.
use jega.Base.{
  ltb, if◌then◌else◌, length, ℕ, ◌<◌, ◌≡◌, refl, sym, subst, ◌⊎◌, inl, inr, Bool, true, false, not,
  ◌&&◌, List, [], ◌∷◌, arith,
}
use jega.Sockets.{
  SocketError, Answer, answer, raised, and_then, sock_stream, sock_dgram, is_negative, has_stream,
  has_dgram, has_raw, match_proto, match_socktype, append_addrinfo_result, every_socktype,
  getsocktype_list,
}

-- The types that a request without a type and a protocol gets: a stream twice.
pub every_socktype_lem :
    every_socktype ≡ answer ((sock_stream, 6) ∷ (sock_dgram, 17) ∷ (sock_stream, 6) ∷ [])
unfolding every_socktype append_addrinfo_result
every_socktype_lem = refl

-- A stream over TCP or a datagram over UDP.
abbrev pub IsCommon : ℕ × ℕ → Type 0
IsCommon (t, p) = ((t ≡ sock_stream) × (p ≡ 6)) ⊎ ((t ≡ sock_dgram) × (p ≡ 17))

abbrev pub AllCommon : List (ℕ × ℕ) → Type 0
AllCommon [] = Unit {0}
AllCommon (x ∷ rest) = IsCommon x × AllCommon rest

-- There is a type, and each is common.
abbrev pub Usable : List (ℕ × ℕ) → Type 0
Usable types = (0 < length types) × AllCommon types

-- An answer, if there is one, has the property.
data Gives {ℓ κ} {A : Type ℓ} (P : A → Type κ) : Answer A → Type (ℓ ⊔ κ) where
  gives : {a : A} → P a → Gives P (answer a)
  raises : {e : SocketError} → Gives P (raised e)

Gives-and_then {ℓ κ μ} :
    {A : Type ℓ} {B : Type μ} {P : B → Type κ} (a : Answer A) {next : A → Answer B}
    → ((x : A) → Gives P (next x))
    → Gives P (and_then a next)
Gives-and_then (answer x) h = h x
Gives-and_then (raised e) h = raises

Gives-branch {ℓ κ} :
    {A : Type ℓ} {P : A → Type κ} (test : Bool) {x y : Answer A}
    → (test ≡ true → Gives P x)
    → (test ≡ false → Gives P y)
    → Gives P (if test then x else y)
Gives-branch true h k = h refl
Gives-branch false h k = k refl

Gives-answer {ℓ κ} :
    {A : Type ℓ} {P : A → Type κ} {r : Answer A} {a : A} → Gives P r → r ≡ answer a → P a
Gives-answer {P} (gives held) e = subst P (cc) held
Gives-answer raises e = cc

append-Usable : (socktype : ℕ) → Gives Usable (append_addrinfo_result [] socktype)
unfolding append_addrinfo_result
append-Usable socktype =
    Gives-branch (has_stream socktype) (λ _. gives (omega arith, (inl (refl, refl), tt)))
      λ no_stream.
        Gives-branch (has_dgram socktype) (λ _. gives (omega arith, (inr (refl, refl), tt)))
          λ no_dgram. Gives-branch (has_raw socktype) (λ raw. absurd (ground arith)) (λ _. raises)

getsocktype_list-gives : (socktype proto : ℕ) → Gives Usable (getsocktype_list socktype proto)
unfolding getsocktype_list
getsocktype_list-gives socktype proto = Gives-and_then (match_socktype socktype) λ t.
    Gives-branch (is_negative t) (λ _. raises)
      λ _. Gives-and_then (match_proto proto) λ s.
        Gives-branch (ltb 0 socktype) (λ _. append-Usable socktype)
          λ _.
            Gives-branch (ltb 0 proto && not (is_negative proto)) (λ _. append-Usable s)
              (λ _. subst (Gives Usable) (sym every_socktype_lem) (
                gives
                  (omega arith, (inl (refl, refl), (inr (refl, refl), (inl (refl, refl), tt))))))

pub getsocktype_list-Usable :
    (socktype proto : ℕ) (types : List (ℕ × ℕ))
    → getsocktype_list socktype proto ≡ answer types
    → Usable types
getsocktype_list-Usable socktype proto types e =
    Gives-answer (getsocktype_list-gives socktype proto) e

-- Whatever type and protocol are asked for, each entry of the list of socket types is a stream over TCP
-- or a datagram over UDP: a raw socket is never among them.
pub getsocktype_list-AllCommon :
    (socktype proto : ℕ) (types : List (ℕ × ℕ))
    → getsocktype_list socktype proto ≡ answer types
    → AllCommon types
getsocktype_list-AllCommon socktype proto types e =
    (getsocktype_list-Usable socktype proto types e).1
