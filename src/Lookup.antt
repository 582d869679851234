-- ===== src/Lookup.antt =====
-- src/lookup.c: the context of a lookup and the callbacks that c-ares calls with it; the wait for one
-- of them and the functions that start a lookup are in Start. A context lives in a store from its
-- pointer, and `none` is a block that is not allocated: an access to it is a fault. What c-ares and the
-- other greenlets do to the world is a parameter. Memory for Python objects is granted.
pub mod Start
pub mod Hostent
pub mod Watch
use mathlib.Core.Option
use jega.Base.{
  ◌==◌, if◌then◌else◌, Run, fault, ok, ◌>>=◌, ℕ, Bool, true, false, ◌&&◌, ◌||◌, Option, none, some,
  List, [], ◌∷◌, ◌++◌,
}
use jega.Sockets.{af_inet, af_inet6}

-- A struct hostent: `none` for its aliases is NULL.
pub record HostEntry : Type 0 where
  pub h_name : List ℕ
  pub h_aliases : Option (List (List ℕ))
  pub h_addrtype : ℕ
  pub h_length : ℕ
  pub h_addr_list : List (List ℕ)

-- What a lookup leaves in its context.
pub data Found : Type 0 where
  address_text : List ℕ → Found
  host_tuple : List ℕ → List (List ℕ) → List (List ℕ) → Found
  name_text : List ℕ → Found
  name_and_service : List ℕ → Option (List ℕ) → Found
  raw_address : List ℕ → Found

pub record Context : Type 0 where
  pub result : Option Found
  pub family : ℕ
  pub greenlet : Option ℕ
  pub called : Bool
  -- `retval`: false is -1.
  pub fine : Bool

pub record World (Rest : Type 0) : Type 0 where
  pub contexts : ℕ → Option Context
  -- PyErr_Occurred
  pub error : Bool
  pub rest : Rest

pub data Status : Type 0 where
  success cancelled destruction : Status
  other_status : ℕ → Status

abbrev pub is_ended : Status → Bool
is_ended success = false
is_ended cancelled = true
is_ended destruction = true
is_ended (other_status s) = false

abbrev pub is_success : Status → Bool
is_success success = true
is_success cancelled = false
is_success destruction = false
is_success (other_status s) = false

abbrev pub equal_text : List ℕ → List ℕ → Bool
equal_text [] [] = true
equal_text [] (d ∷ ds) = false
equal_text (c ∷ cs) [] = false
equal_text (c ∷ cs) (d ∷ ds) = c == d && equal_text cs ds

-- The loop over h_aliases; an alias that is the name itself is left out.
abbrev pub other_aliases : List ℕ → List (List ℕ) → List (List ℕ) → List (List ℕ)
other_aliases name done [] = done
other_aliases name done (a ∷ rest) =
    other_aliases name (if equal_text a name then done else done ++ a ∷ []) rest

abbrev pub alias_list : HostEntry → Option (List (List ℕ)) → List (List ℕ)
alias_list host none = []
alias_list host (some aliases) = other_aliases host.h_name [] aliases

abbrev pub all_texts : (List ℕ → Bool) → List (List ℕ) → Bool
all_texts utf8 [] = true
all_texts utf8 (a ∷ rest) = utf8 a && all_texts utf8 rest

abbrev pub append_some : List (List ℕ) → Option (List ℕ) → Option (List (List ℕ))
append_some done none = none
append_some done (some t) = some (done ++ t ∷ [])

abbrev pub tuple_of : HostEntry → Option (List (List ℕ)) → Option Found
tuple_of host none = none
tuple_of host (some texts) = some (host_tuple host.h_name (alias_list host host.h_aliases) texts)

-- `ntop` formats an address of a family; `none` is its error.
module _ (ntop : ℕ → List ℕ → Option (List ℕ)) where
  -- getaddr_inet4 and getaddr_inet6, or the error for another family.
  abbrev pub formatted : ℕ → List ℕ → Option (List ℕ)
  formatted family address =
      if family == af_inet
      then ntop af_inet address
      else if family == af_inet6
      then ntop af_inet6 address
      else none

  -- The loop over h_addr_list.
  pub address_list : ℕ → Option (List (List ℕ)) → List (List ℕ) → Option (List (List ℕ))
  address_list family done [] = done
  address_list family none (a ∷ rest) = none
  address_list family (some done) (a ∷ rest) =
      address_list family (append_some done (formatted family a)) rest

  -- `none` is NULL, with an exception set. The name and the aliases become texts of Python 3, and
  -- `utf8` says which bytes do.
  unfoldable pub gethost_data : (List ℕ → Bool) → HostEntry → Option Found
  gethost_data utf8 host =
      if all_texts utf8 (alias_list host host.h_aliases) && utf8 host.h_name
      then tuple_of host (address_list host.h_addrtype (some []) host.h_addr_list)
      else none

  -- The first address of the list: there is one, and it is formatted.
  abbrev pub first_address : ℕ → List (List ℕ) → Run Found
  first_address family [] = fault
  first_address family (a ∷ rest) = elim (ntop family a) [
    | none ↦ fault
    | some text ↦ ok (address_text text)
  ]

abbrev pub raw_first : List (List ℕ) → Run (Option Found)
raw_first [] = fault
raw_first (a ∷ rest) = ok (some (raw_address a))

abbrev pub has_none : Option Found → Bool
has_none none = true
has_none (some f) = false

-- memset and the fields that are set after it.
abbrev pub new_context : ℕ → Context
new_context current = record {
  result = none;
  family = 0;
  greenlet = some current;
  called = false;
  fine = true;
}

module _ {Rest : Type 0} where
  abbrev pub context_at : World Rest → ℕ → Run Context
  context_at w p = elim (w.contexts p) [ none ↦ fault | some c ↦ ok c ]

  abbrev pub put_context : World Rest → ℕ → Option Context → World Rest
  put_context w p c = record w { contexts = λ q. if q == p then c else w.contexts q }

  abbrev pub dealloc_ctx : World Rest → ℕ → World Rest
  dealloc_ctx w p = put_context w p none

  pub init_ctx : World Rest → ℕ → ℕ → World Rest
  init_ctx w p current = put_context w p (some (new_context current))

-- `switch` is greenlet_switch to the greenlet of a context.
module _ {Rest : Type 0} (switch : Option ℕ → World Rest → World Rest) where
  abbrev pub failed_reply : World Rest → ℕ → Context → World Rest
  failed_reply w p c =
      switch c.greenlet
        (record (put_context w p (some (record c { called = true; fine = false }))) {
          error = true;
        })

  abbrev pub filled_reply : World Rest → ℕ → Context → Option Found → World Rest
  filled_reply w p c found =
      switch c.greenlet
        (record (put_context w p (some (record c { called = true; result = found }))) {
          error = w.error || has_none found;
        })

  -- What the callbacks have in common: `reply` is `none` for a NULL host or name.
  abbrev pub replied :
      World Rest → ℕ → Status → Option (Context → Run (Option Found)) → Context → Run (World Rest)
  replied w p status none c = ok (failed_reply w p c)
  replied w p status (some fill) c =
      if is_success status
      then (fill c >>= λ found. ok (filled_reply w p c found))
      else ok (failed_reply w p c)

  abbrev pub called_back :
      World Rest → ℕ → Status → Option (Context → Run (Option Found)) → Run (World Rest)
  called_back w p status reply =
      if is_ended status then ok w else context_at w p >>= λ c. replied w p status reply c

  module _ (ntop : ℕ → List ℕ → Option (List ℕ)) where
    pub gethostbyname_cb : World Rest → ℕ → Status → Option HostEntry → Run (World Rest)
    gethostbyname_cb w p status host = called_back w p status (
        Option.map
          (λ h c. first_address ntop h.h_addrtype h.h_addr_list >>= λ found. ok (some found)) host)

    -- A context without a greenlet is left alone.
    pub gethostbyname_ex_cb :
        (List ℕ → Bool) → World Rest → ℕ → Status → Option HostEntry → Run (World Rest)
    gethostbyname_ex_cb utf8 w p status host =
        if is_ended status
        then ok w
        else context_at w p >>= λ c. elim c.greenlet [
          | none ↦ ok w
          | some g ↦ replied w p status (Option.map (λ h c'. ok (gethost_data ntop utf8 h)) host) c
        ]

    pub gethostbyaddr_cb :
        (List ℕ → Bool) → World Rest → ℕ → Status → Option HostEntry → Run (World Rest)
    gethostbyaddr_cb utf8 w p status host =
        called_back w p status (Option.map (λ h c. ok (gethost_data ntop utf8 h)) host)

  pub getnameinfo_cb : World Rest → ℕ → Status → Option (List ℕ) → Run (World Rest)
  getnameinfo_cb w p status name =
      called_back w p status (Option.map (λ n c. ok (some (name_text n))) name)

  pub getnameinfo_ex_cb :
      World Rest → ℕ → Status → Option (List ℕ) → Option (List ℕ) → Run (World Rest)
  getnameinfo_ex_cb w p status name service =
      called_back w p status (Option.map (λ n c. ok (some (name_and_service n service))) name)

  -- The result of a context for another family stays as it is.
  pub getsockaddr_cb : World Rest → ℕ → Status → Option HostEntry → Run (World Rest)
  getsockaddr_cb w p status host = called_back w p status (
      Option.map
        (λ h c.
          if c.family == af_inet || c.family == af_inet6
          then raw_first h.h_addr_list
          else ok c.result)
        host)
