-- ===== src/Lookup/Start.antt =====
-- src/lookup.c: the wait for a callback of c-ares, the flags of getnameinfo, and the functions that
-- start a lookup.
pub mod Wait
pub mod Flags
mod Tests
use mathlib.Core.Option
use jega.Base.{
  ◌==◌, if◌then◌else◌, Run, out_of_fuel, ok, ◌>>=◌, ℕ, zero, suc, ◌+◌, ◌-◌, ◌/◌, ◌%◌, Bool, true,
  not, ◌||◌, Option, none, some, List, [], ◌∷◌,
}
use jega.Sockets.{af_inet, af_inet6}
use jega.Lookup.{Found, Context, World, context_at, put_context, dealloc_ctx, init_ctx}

-- `loop_switch` runs other greenlets until this one is switched back to; its NULL is false.
module _ {Rest : Type 0} (loop_switch : World Rest → Bool × World Rest) where
  pub wait_loop : ℕ → World Rest → ℕ → Run (World Rest)
  wait_loop zero w p = out_of_fuel
  wait_loop (suc fuel) w p =
      let (fine, w') = loop_switch w in
      let again = wait_loop fuel w' p in
      context_at w p >>= λ c. if c.called || w.error then ok w else if fine then again else ok w'

  -- The result and the world without the context.
  pub wait_lookup : ℕ → World Rest → ℕ → Run (Option Found × World Rest)
  wait_lookup fuel w p = wait_loop fuel w p >>= λ v. context_at v p >>= λ c.
      let u = if c.called || v.error then v else (loop_switch v).1 in
      context_at u p >>= λ d. ok (d.result, dealloc_ctx u p)

-- What is asked of c-ares; each request has its own callback.
pub data Request : Type 0 where
  by_name by_name_ex sockaddr_of : List ℕ → ℕ → Request
  by_address : List ℕ → ℕ → ℕ → Request
  name_of : List ℕ → Request
  name_of_ex : List ℕ → ℕ → Request

-- The pairs of flag_map, in its order: NI_NUMERICHOST, NI_NUMERICSERV, NI_NOFQDN, NI_NAMEREQD and
-- NI_DGRAM of Linux with what they are in ares.h. The bits of a flag are cleared and set by subtraction
-- and addition, at a bit that is set, or not.
abbrev pub flag_map : List (ℕ × ℕ)
flag_map = (1, 2) ∷ (2, 8) ∷ (4, 1) ∷ (8, 4) ∷ (16, 16) ∷ []

abbrev pub has_flag : ℕ → ℕ → Bool
has_flag flag n = not (flag / n % 2 == 0)

-- `tmp` holds the bits that no entry has taken yet.
pub convert_flags : List (ℕ × ℕ) → ℕ → ℕ → ℕ → Option ℕ
convert_flags [] flag tmp nameflg = none
convert_flags ((n, ares) ∷ rest) flag tmp nameflg =
    let taken = has_flag flag n in
    let tmp' = if taken then tmp - n else tmp in
    let nameflg' = if taken then nameflg + ares else nameflg in
    let more = convert_flags rest flag tmp' nameflg' in if tmp' == 0 then some nameflg' else more

-- ARES_NI_LOOKUPHOST | ARES_NI_LOOKUPSERVICE; `none` is -1.
pub convert_nameinfo_flag : ℕ → Option ℕ
convert_nameinfo_flag flag = convert_flags flag_map flag flag 768

-- `request` is what c-ares does when it is asked, calling back included; `pton` reads an address of a
-- family. `fresh` is the pointer that PyMem_Malloc gives, or none.
module _ {Rest : Type 0} (loop_switch : World Rest → Bool × World Rest)
    (request : Request → ℕ → World Rest → World Rest) (pton : ℕ → List ℕ → Option (List ℕ)) where
  abbrev pub asked : ℕ → Option ℕ → ℕ → World Rest → Request → Run (Option Found × World Rest)
  asked fuel none current w q = ok (none, w)
  asked fuel (some p) current w q =
      wait_lookup loop_switch fuel (request q p (init_ctx w p current)) p

  pub async_gethostbyname :
      ℕ → Option ℕ → ℕ → World Rest → List ℕ → ℕ → Run (Option Found × World Rest)
  async_gethostbyname fuel fresh current w name family =
      asked fuel fresh current w (by_name name family)

  pub async_gethostbyname_ex :
      ℕ → Option ℕ → ℕ → World Rest → List ℕ → ℕ → Run (Option Found × World Rest)
  async_gethostbyname_ex fuel fresh current w name family =
      asked fuel fresh current w (by_name_ex name family)

  -- A text that is no address is not looked up, and there is no exception.
  pub async_gethostbyaddr : ℕ → Option ℕ → ℕ → World Rest → List ℕ → Run (Option Found × World Rest)
  async_gethostbyaddr fuel fresh current w ip = elim (pton af_inet ip) [
    | some a ↦ asked fuel fresh current w (by_address a 4 af_inet)
    | none ↦ elim (pton af_inet6 ip) [
      | some a ↦ asked fuel fresh current w (by_address a 16 af_inet6)
      | none ↦ ok (none, w)
    ]
  ]

  abbrev pub with_family : ℕ → World Rest → ℕ → World Rest
  with_family family w p =
      put_context w p (Option.map {A = Context} (λ c. record c { family = family }) (w.contexts p))

  pub async_getsockaddr :
      ℕ → Option ℕ → ℕ → World Rest → List ℕ → ℕ → Run (Option Found × World Rest)
  async_getsockaddr fuel none current w name family = ok (none, w)
  async_getsockaddr fuel (some p) current w name family =
      wait_lookup loop_switch fuel
        (request (sockaddr_of name family) p (with_family family (init_ctx w p current) p)) p

  pub async_getnameinfo : ℕ → Option ℕ → ℕ → World Rest → List ℕ → Run (Option Found × World Rest)
  async_getnameinfo fuel fresh current w addr = asked fuel fresh current w (name_of addr)

  -- A flag that is not known leaves the context allocated.
  pub async_getnameinfo_ex :
      ℕ → Option ℕ → ℕ → World Rest → List ℕ → ℕ → Run (Option Found × World Rest)
  async_getnameinfo_ex fuel none current w addr flag = ok (none, w)
  async_getnameinfo_ex fuel (some p) current w addr flag =
      let begun = init_ctx w p current in
      elim (convert_nameinfo_flag flag) [
        | none ↦ ok (none, record begun { error = true })
        | some ares ↦ wait_lookup loop_switch fuel (request (name_of_ex addr ares) p begun) p
      ]
