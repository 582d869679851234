-- ===== src/Local/Tests.antt =====
-- Two greenlets and two objects, and the theorem there.
use jega.Base.{fault, ok, ◌≡◌, refl, true, false, none, some, List, [], ◌∷◌, arith}
use jega.Local.{Locals, put_dict, new_dict, get_thread_local, get_local_dict, getattribute}
use jega.Local.Table.{
  Access, read, change, value, success, access, performs, answers, Agrees, performs-answers,
}

abbrev nothing : Locals
nothing = record { dicts = λ g. none; refs = λ v. 9; raised = false }

-- Greenlet 1 sets the name 5 of the object 8 to 70; then the object 9 has it, greenlet 2 has not, and a
-- second deletion fails.
abbrev accesses : List Access
accesses =
    change 8 5 (some 70) 1 ∷ read 9 5 1 ∷ read 8 5 2 ∷ change 9 5 none 1 ∷ change 8 5 none 1 ∷ []

performs-answers_example :
    (s : Locals) × (performs accesses nothing
      ≡ ok (success true ∷ value (some 70) ∷ value none ∷ success true ∷ success false ∷ [], s))
    × Agrees (answers accesses (λ g b. none)).1 s
unfolding answers
performs-answers_example =
    performs-answers accesses (λ g b. none) nothing (λ v. omega arith) (λ h b. refl)

-- A name that nobody has set is NULL without an exception.
missing : getattribute true true (some 1) 8 5 nothing ≡ ok (none, put_dict 1 new_dict nothing)
unfolding getattribute get_local_dict
missing = refl

-- A value that only the dictionary refers to is freed by the first read.
read_twice :
    performs
      (read 8 5 1 ∷ read 8 5 1 ∷ [])
      (record { dicts = λ g. some (λ a. some 70); refs = λ v. 1; raised = false })
    ≡ fault
unfolding performs access getattribute get_local_dict
read_twice = refl

no_memory : get_thread_local false true 1 nothing ≡ (none, record nothing { raised = true })
unfolding get_thread_local
no_memory = refl
