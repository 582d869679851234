-- ===== src/Lookup/Start/Flags.antt =====
-- convert_nameinfo_flag of src/lookup.c against the flags bit by bit.
use jega.Base.{
  ltb, ◌==◌, if◌then◌else◌, Bool-cases, Option-cases, ℕ, zero, suc, ◌+◌, ◌-◌, ◌*◌, ◌/◌, ◌%◌, ◌<◌,
  ◌≡◌, refl, sym, ap, ◌∙◌, inl, inr, Bool, true, false, ◌&&◌, Option, none, some, List, [], ◌∷◌,
  arith, dec_lt, ℕ_discrete,
}
use jega.Lookup.Start.{flag_map, has_flag, convert_flags, convert_nameinfo_flag}

-- The bits of the five flags in the places that c-ares gives them, with the two that ask for host and
-- service.
abbrev pub ares_bits : ℕ → ℕ
ares_bits flag =
    768
    + 2 * (flag % 2)
    + 8 * (flag / 2 % 2)
    + flag / 4 % 2
    + 4 * (flag / 8 % 2)
    + 16 * (flag / 16 % 2)

-- The flags that a map still has to take.
abbrev total : List (ℕ × ℕ) → ℕ
total [] = 0
total ((n, ares) ∷ rest) = n + total rest

convert_flags-none :
    (entries : List (ℕ × ℕ)) (flag tmp nameflg : ℕ)
    → total entries < tmp
    → convert_flags entries flag tmp nameflg ≡ none
unfolding convert_flags
convert_flags-none [] flag tmp nameflg big = refl
convert_flags-none ((n, ares) ∷ rest) flag tmp nameflg big = elim (Bool-cases (has_flag flag n)) [
  | inl set_bit ↦
      rw set_bit
        (ground (arith, convert_flags-none rest flag (tmp - n) (nameflg + ares) (omega arith)))
  | inr clear ↦ rw clear (ground (arith, convert_flags-none rest flag tmp nameflg (omega arith)))
]

-- A function gives `some` of another at every number below a bound.
agrees_below : ℕ → (ℕ → Option ℕ) → (ℕ → ℕ) → Bool
agrees_below zero f g = true
agrees_below (suc n) f g = (elim (f n) [ none ↦ false | some k ↦ k == g n ]) && agrees_below n f g

agrees_below_sound :
    (n : ℕ) (f : ℕ → Option ℕ) (g : ℕ → ℕ) (x : ℕ)
    → agrees_below n f g ≡ true
    → x < n
    → f x ≡ some (g x)
unfolding agrees_below
agrees_below_sound zero f g x h lt = absurd (omega arith)
agrees_below_sound (suc n) f g x h lt = elim (ℕ_discrete n x) [
  | yes e ↦ elim (Option-cases (f n)) [
    | inl gone ↦ ground (arith, gone, e)
    | inr (k, found) ↦
        ap f (sym e) ∙ found ∙ ap some (ground (arith, found)) ∙ ap (λ i. some (g i)) e
  ]
  | no ne ↦ agrees_below_sound n f g x (ground arith) (omega (arith, ne))
]

small_flags : agrees_below 32 convert_nameinfo_flag ares_bits ≡ true
unfolding agrees_below convert_nameinfo_flag convert_flags
small_flags = refl

-- Five flags, in any combination, become those of c-ares, and any other bit is refused.
pub convert_nameinfo_flag-bits :
    (flag : ℕ) → convert_nameinfo_flag flag ≡ (if ltb flag 32 then some (ares_bits flag) else none)
unfolding convert_nameinfo_flag
convert_nameinfo_flag-bits flag = elim (dec_lt flag 32) [
  | yes small ↦
      agrees_below_sound 32 convert_nameinfo_flag ares_bits flag small_flags small ∙ ground arith
  | no large ↦ convert_flags-none flag_map flag flag 768 (omega arith) ∙ ground arith
]
