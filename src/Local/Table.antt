-- ===== src/Local/Table.antt =====
-- The attributes of src/local.c against a table of greenlets and names.
use jega.Base.{
  ◌==◌, if◌then◌else◌, ==_iff, Bool-cases, length, Run, fault, ok, ◌>>=◌, ℕ, suc, ◌+◌, ◌-◌, ◌<◌,
  ◌≡◌, refl, sym, ap, ◌∙◌, subst, inl, inr, Bool, true, false, ◌||◌, Option, none, some, List, [],
  ◌∷◌, arith,
}
use jega.Calls.{put_at}
use jega.Events.{is_some}
use jega.Local.{
  Dict, Locals, raising, put_dict, new_dict, held, get_local_dict, give, drop_ref, borrowed,
  attribute, getattribute, replaced, changed, stored, setattribute,
}

-- The object, the name, and the greenlet that asks; a change has the value as well, or `none`.
pub data Access : Type 0 where
  read : ℕ → ℕ → ℕ → Access
  change : ℕ → ℕ → Option ℕ → ℕ → Access

pub data Answer : Type 0 where
  value : Option ℕ → Answer
  success : Bool → Answer

-- The one who reads gives the reference up that it was given.
abbrev pub answered : Option ℕ × Locals → Run (Answer × Locals)
answered (o, s) = drop_ref o s >>= λ s'. ok (value o, s')

abbrev pub succeeded : Bool × Locals → Answer × Locals
succeeded (b, s) = (success b, s)

unfoldable pub access : Access → Locals → Run (Answer × Locals)
access (read self attr g) s = getattribute true true (some g) self attr s >>= answered
access (change self attr v g) s =
    setattribute true true (some g) self attr v s >>= λ r. ok (succeeded r)

unfoldable pub performs : List Access → Locals → Run (List Answer × Locals)
performs [] s = ok ([], s)
performs (x ∷ xs) s = access x s >>= λ (a, s'). performs xs s' >>= λ (rest, s''). ok (a ∷ rest, s'')

-- Which value each name has for each greenlet.
abbrev pub Table : Type 0
Table = ℕ → ℕ → Option ℕ

abbrev pub specified : Access → Table → Answer × Table
specified (read self attr g) t = (value (t g attr), t)
specified (change self attr v g) t = (
  success (is_some v || is_some (t g attr)),
  λ h b. if h == g then put_at (t g) attr v b else t h b,
)

unfoldable pub answers : List Access → Table → List Answer × Table
answers [] t = ([], t)
answers (x ∷ xs) t = let r = specified x t in let rest = answers xs r.1 in (r.0 ∷ rest.0, rest.1)

abbrev look : Option Dict → ℕ → Option ℕ
look none b = none
look (some d) b = d b

abbrev pub Agrees : Table → Locals → Type 0
Agrees t s = (h b : ℕ) → t h b ≡ look (s.dicts h) b

put_dict-Agrees :
    (t : Table) (s : Locals) (g : ℕ) (x y : Dict)
    → Agrees t s
    → ((b : ℕ) → y b ≡ x b)
    → Agrees (λ h b. if h == g then y b else t h b) (put_dict g x s)
put_dict-Agrees t s g x y agrees same h b = elim (Bool-cases (h == g)) [
  | inl here ↦ rw here (same b)
  | inr there ↦ rw there (agrees h b)
]

-- The greenlet has a dictionary then, and every attribute is what it was.
abbrev Opens : Table → ℕ → (ℕ → ℕ) → Option Dict × Locals → Type 0
Opens t g refs r =
    (d : Dict) × (s : Locals) × (r ≡ (some d, s))
    × Agrees t s
    × ((b : ℕ) → t g b ≡ d b)
    × (s.refs ≡ refs)

held-Opens :
    (t : Table) (g : ℕ) (s : Locals) (o : Option Dict)
    → s.dicts g ≡ o
    → Agrees t s
    → Opens t g s.refs (held true true g s o)
held-Opens t g s (some d) e agrees =
    (d, s, refl, agrees, λ b. agrees g b ∙ ap (λ p. look p b) e, refl)
held-Opens t g s none e agrees =
    let blank : (b : ℕ) → t g b ≡ none = λ b. agrees g b ∙ ap (λ p. look p b) e in
    (
      new_dict,
      put_dict g new_dict s,
      refl,
      λ h b. elim (Bool-cases (h == g)) [
        | inl here ↦ rw here (ap (λ k. t k b) ((==_iff h g).0 here) ∙ blank b)
        | inr there ↦ rw there (agrees h b)
      ],
      blank,
      refl,
    )

is_some-none : (o : Option ℕ) → is_some o ≡ false → o ≡ none
is_some-none none e = refl
is_some-none (some v) e = absurd (cc e)

put_at-same :
    (f d : Dict) (a : ℕ) (v : Option ℕ)
    → ((b : ℕ) → f b ≡ d b)
    → (b : ℕ) → put_at f a v b ≡ put_at d a v b
put_at-same f d a v same b = ap (λ o. if b == a then v else o) (same b)

-- To delete what is missing changes nothing.
missing-Agrees :
    (t : Table) (s : Locals) (g a : ℕ)
    → Agrees t s
    → t g a ≡ none
    → Agrees (λ h b. if h == g then put_at (t g) a none b else t h b) s
missing-Agrees t s g a agrees e h b = elim (Bool-cases (h == g)) [
  | inl here ↦
      let at : h ≡ g = (==_iff h g).0 here in
      let stays : put_at (t g) a none b ≡ t g b = elim (Bool-cases (b == a)) [
        | inl there ↦ rw there (sym (ap (t g) ((==_iff b a).0 there) ∙ e))
        | inr off ↦ rw off refl
      ] in
      ap (λ z. if z then put_at (t g) a none b else t h b) here
      ∙ stays
      ∙ ap (λ k. t k b) (sym at)
      ∙ agrees h b
  | inr there ↦ rw there (agrees h b)
]

-- Every value has more references than that.
abbrev pub Backed : ℕ → (ℕ → ℕ) → Type 0
Backed n refs = (v : ℕ) → n < refs v

drop_ref-Backed :
    (n : ℕ) (o : Option ℕ) (s : Locals)
    → Backed (suc n) s.refs
    → (refs : ℕ → ℕ) × (drop_ref o s ≡ ok (record s { refs = refs })) × Backed n refs
drop_ref-Backed n none s back = (s.refs, refl, λ v. omega (arith, back v))
drop_ref-Backed n (some w) s back =
    let fewer = put_at s.refs w (s.refs w - 1) in
    let positive : (s.refs w == 0) ≡ false = ground (arith, back w) in
    (
      fewer,
      ap (λ b. if b then fault else ok (record s { refs = fewer })) positive,
      λ v. elim (Bool-cases (v == w)) [
        | inl here ↦
            let now : fewer v ≡ s.refs w - 1 =
              ap (λ b. if b then s.refs w - 1 else s.refs v) here in
            omega (arith, now, back w)
        | inr there ↦
            let now : fewer v ≡ s.refs v = ap (λ b. if b then s.refs w - 1 else s.refs v) there in
            omega (arith, now, back v)
      ],
    )

give-Backed : (n v : ℕ) (s : Locals) → Backed n s.refs → Backed n (give v s).refs
give-Backed n v s back w = elim (Bool-cases (w == v)) [
  | inl here ↦
      let now : (give v s).refs w ≡ s.refs v + 1 =
        ap (λ b. if b then s.refs v + 1 else s.refs w) here in
      omega (arith, now, back v)
  | inr there ↦
      let now : (give v s).refs w ≡ s.refs w =
        ap (λ b. if b then s.refs v + 1 else s.refs w) there in
      omega (arith, now, back w)
]

borrowed-Backed : (n : ℕ) (o : Option ℕ) (s : Locals) → Backed n s.refs → borrowed o s ≡ ok (o, s)
borrowed-Backed n none s back = refl
borrowed-Backed n (some v) s back =
    let positive : (s.refs v == 0) ≡ false = ground (arith, back v) in
    ap (λ b. if b then fault else ok (some v, s)) positive

abbrev Does : ℕ → Access → Table → Locals → Type 0
Does n x t s =
    (s' : Locals) × (access x s ≡ ok ((specified x t).0, s'))
    × Agrees (specified x t).1 s'
    × Backed n s'.refs

replaced-Does :
    (n : ℕ) (t : Table) (s : Locals) (d : Dict) (a g : ℕ) (v : Option ℕ)
    → Backed (suc n) s.refs
    → Agrees t s
    → ((b : ℕ) → t g b ≡ d b)
    → (s' : Locals) × (replaced a v d g s ≡ ok (true, s'))
      × Agrees (λ h b. if h == g then put_at (t g) a v b else t h b) s'
      × Backed n s'.refs
replaced-Does n t s d a g v back agrees same =
    let (refs, drops, left) = drop_ref-Backed n (d a) s back in
    let s' = record s { refs = refs } in
    (
      put_dict g (put_at d a v) s',
      ap (λ r. r >>= λ m. ok (true, put_dict g (put_at d a v) m)) drops,
      put_dict-Agrees t s' g (put_at d a v) (put_at (t g) a v) agrees
          (put_at-same (t g) d a v same),
      left,
    )

changed-Does :
    (n : ℕ) (t : Table) (s : Locals) (d : Dict) (self a g : ℕ) (v : Option ℕ)
    → Backed (suc n) s.refs
    → Agrees t s
    → ((b : ℕ) → t g b ≡ d b)
    → (s' : Locals) × (changed a v d g s ≡ ok (is_some v || is_some (t g a), s'))
      × Agrees (specified (change self a v g) t).1 s'
      × Backed n s'.refs
changed-Does n t s d self a g (some v) back agrees same =
    replaced-Does n t (give v s) d a g (some v) (give-Backed (suc n) v s back) agrees same
changed-Does n t s d self a g none back agrees same =
    let tested = λ (z : Bool). if z then replaced a none d g s else ok (false, raising s) in
    elim (Bool-cases (is_some (d a))) [
      | inl there ↦
          let (s', e, after, left) = replaced-Does n t s d a g none back agrees same in
          (
            s',
            ap tested there ∙ e ∙ ap (λ z. ok (z, s')) (sym (ap is_some (same a) ∙ there)),
            after,
            left,
          )
      | inr off ↦ (
        raising s,
        ap tested off ∙ ap (λ z. ok (z, raising s)) (sym (ap is_some (same a) ∙ off)),
        missing-Agrees t s g a agrees (same a ∙ is_some-none (d a) off),
        λ v. omega (arith, back v),
      )
    ]

access-Does :
    (n : ℕ) (x : Access) (t : Table) (s : Locals)
    → Backed (suc n) s.refs
    → Agrees t s
    → Does n x t s
unfolding access getattribute setattribute get_local_dict
access-Does n (read self a g) t s back agrees =
    let (d, s', e, agrees', same, refs) = held-Opens t g s (s.dicts g) refl agrees in
    let back' : Backed (suc n) s'.refs = subst (Backed (suc n)) (sym refs) back in
    let (left, drops, fewer) = drop_ref-Backed n (d a) s' back' in
    let s'' = record s' { refs = left } in
    (
      s'',
      ap (λ r. attribute a r >>= answered) e
          ∙ ap (λ r. r >>= answered) (borrowed-Backed (suc n) (d a) s' back')
          ∙ ap (λ r. r >>= λ m. ok (value (d a), m)) drops
          ∙ ap (λ v. ok (value v, s'')) (sym (same a)),
      agrees',
      fewer,
    )
access-Does n (change self a v g) t s back agrees =
    let (d, s', e, agrees', same, refs) = held-Opens t g s (s.dicts g) refl agrees in
    let back' : Backed (suc n) s'.refs = subst (Backed (suc n)) (sym refs) back in
    let (s2, does, after, left) = changed-Does n t s' d self a g v back' agrees' same in
    (
      s2,
      ap (λ r. stored a v (some g) r >>= λ r'. ok (succeeded r')) e
          ∙ ap (λ r. r >>= λ r'. ok (succeeded r')) does,
      after,
      left,
    )

-- Any sequence of reads, changes and deletions of attributes by any greenlets answers as a table does
-- in which each greenlet has one value for each name, when every new dictionary is granted and every
-- value has more references than there are accesses: each read takes one away that it was not given.
-- The object that the attribute is one of plays no part.
pub performs-answers :
    (xs : List Access) (t : Table) (s : Locals)
    → Backed (length xs) s.refs
    → Agrees t s
    → (s' : Locals) × (performs xs s ≡ ok ((answers xs t).0, s')) × Agrees (answers xs t).1 s'
unfolding performs answers
performs-answers [] t s back agrees = (s, refl, agrees)
performs-answers (x ∷ xs) t s back agrees =
    let (s', e, after, left) = access-Does (length xs) x t s back agrees in
    let (s'', same, last) = performs-answers xs (specified x t).1 s' left after in
    let then_rest =
      λ (r : Answer × Locals). (performs xs r.1 >>= λ (rest, m). ok (r.0 ∷ rest, m)) in
    (
      s'',
      ap (λ r. r >>= then_rest) e
          ∙ ap (λ r. r >>= λ (rest, m). ok ((specified x t).0 ∷ rest, m)) same,
      last,
    )
