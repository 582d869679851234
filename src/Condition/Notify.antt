-- ===== src/Condition/Notify.antt =====
-- notify of the Condition of src/locks.c: who is released.
use mathlib.Core.Logic.Or
use mathlib.Core.List.{
  mem-cons, mem-cons_of_mem, mem-cons_self, mem-append_left, not-mem-nil, Mem-prop,
}
use jega.Base.{
  ◌==◌, if◌then◌else◌, ==_iff, take, drop, ℕ, zero, suc, ◌≡◌, refl, sym, ap, ◌∙◌, subst, ◌≢◌, true,
  false, List, [], ◌∷◌, ◌++◌, Mem, arith, ℕ_discrete,
}
use jega.Locks.{Semaphore, done, release, RLock, is_owner}
use jega.Condition.{Condition, set_sem, is_failed, remove_from_list, notify_each, condition_notify}

abbrev pub IsDistinct : List ℕ → Type 0
IsDistinct [] = Unit
IsDistinct (x ∷ xs) = (¬ Mem x xs) × IsDistinct xs

-- `n` is `c` after the semaphores `taken` were released and left the list.
pub record Notified {L : Type 0} (taken rest : List ℕ) (c n : Condition L) : Type 0 where
  pub released : (j : ℕ) → Mem j taken → n.sems j ≡ (release true (c.sems j)).1
  pub others : (j : ℕ) → ¬ Mem j taken → n.sems j ≡ c.sems j
  pub left : n.waiters ≡ rest
  pub lock_kept : n.lock ≡ c.lock

pub release-succeeds : (s : Semaphore) → is_failed (release true s).0 ≡ false
unfolding release
release-succeeds s = ground arith

pub set_sem-same : (sems : ℕ → Semaphore) (i j : ℕ) (s : Semaphore) → j ≡ i → set_sem sems i s j ≡ s
set_sem-same sems i j s e = ap (λ b. if b then s else sems j) ((==_iff j i).1 e)

set_sem-other :
    (sems : ℕ → Semaphore) (i j : ℕ) (s : Semaphore) → j ≢ i → set_sem sems i s j ≡ sems j
set_sem-other sems i j s ne =
    let apart : (j == i) ≡ false = ground (arith, ne) in ap (λ b. if b then s else sems j) apart

pub notify_each-Notified :
    {L : Type 0} (taken rest : List ℕ) (c : Condition L)
    → IsDistinct taken
    → c.waiters ≡ taken ++ rest
    → (n : Condition L) × (notify_each true taken c ≡ (done, n)) × Notified taken rest c n
unfolding notify_each
notify_each-Notified [] rest c distinct e = (
  c,
  refl,
  record {
    released = λ j m. absurd (not-mem-nil m);
    others = λ j m. refl;
    left = e;
    lock_kept = refl;
  },
)
notify_each-Notified (i ∷ taken) rest c (new, distinct) e =
    let r = release true (c.sems i) in
    let c' = record c { sems = set_sem c.sems i r.1; waiters = remove_from_list c.waiters i } in
    let gone : remove_from_list c.waiters i ≡ taken ++ rest =
      ap (λ ws. remove_from_list ws i) e
      ∙ ap (λ b. if b then taken ++ rest else i ∷ remove_from_list (taken ++ rest) i)
          ((==_iff i i).1 refl) in
    let (n, runs, h) = notify_each-Notified taken rest c' distinct gone in
    (
      n,
      rw (release-succeeds (c.sems i)) runs,
      record {
        released = λ j m. elim (ℕ_discrete j i) [
          | yes e ↦
              h.others j (λ k. new (subst (λ x. Mem x taken) e k))
              ∙ set_sem-same c.sems i j r.1 e
              ∙ ap (λ x. (release true (c.sems x)).1) (sym e)
          | no ne ↦
              h.released j (Or.elim Mem-prop (mem-cons.0 m) (λ e. absurd (ne e)) (λ k. k))
              ∙ ap (λ s. (release true s).1) (set_sem-other c.sems i j r.1 ne)
        ];
        others = λ j m.
            h.others j (λ k. m (mem-cons_of_mem i k))
            ∙ set_sem-other c.sems i j r.1
                (λ e. m (subst (λ x. Mem x (i ∷ taken)) (sym e) mem-cons_self));
        left = h.left;
        lock_kept = h.lock_kept;
      },
    )

take-drop : (n : ℕ) (ws : List ℕ) → ws ≡ take n ws ++ drop n ws
take-drop zero ws = refl
take-drop (suc n) [] = refl
take-drop (suc n) (w ∷ ws) = ap (λ xs. w ∷ xs) (take-drop n ws)

IsDistinct-take : (n : ℕ) (ws : List ℕ) → IsDistinct ws → IsDistinct (take n ws)
IsDistinct-take zero ws d = tt
IsDistinct-take (suc n) [] d = tt
IsDistinct-take (suc n) (w ∷ ws) (new, d) = (
  λ m. new (subst (λ xs. Mem w xs) (sym (take-drop n ws)) (mem-append_left (drop n ws) m)),
  IsDistinct-take n ws d,
)

-- notify by the owner of the lock releases the semaphores of the first `num` waits, each once, and takes
-- them from the list; the other semaphores, the rest of the list and the lock stay as they are. The
-- notifications can be scheduled, and no wait is listed twice.
pub condition_notify-Notified :
    (me num : ℕ) (c : Condition RLock)
    → is_owner me c.lock.owner ≡ true
    → IsDistinct c.waiters
    → (n : Condition RLock) × (condition_notify true me num c ≡ (done, n))
      × Notified (take num c.waiters) (drop num c.waiters) c n
unfolding condition_notify
condition_notify-Notified me num c mine distinct =
    let (n, runs, h) =
      notify_each-Notified (take num c.waiters) (drop num c.waiters) c
        (IsDistinct-take num c.waiters distinct) (take-drop num c.waiters) in
    (n, rw mine runs, h)
