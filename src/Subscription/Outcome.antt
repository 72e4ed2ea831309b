-- ===== src/Subscription/Outcome.antt =====
-- What a call of the subscription service may end in: a postcondition of the values that it returns
-- with the states that it leaves, and a condition of the states in which it fails. `F` is what a
-- fault of the database shows. The lemmas are the rules for the statements and the sequences.
use xray2wg.Base.{
  Bool, true, false, Bool-cases, Option, none, some, List, [], ◌∷◌, Text, arith, ◌≡◌, ◌⊎◌, inl, inr,
}
use xray2wg.Domain.Errors.{Result, ok, err}
use xray2wg.Subscription.State.{
  State, Op, after, run_or_fault, statement, transaction, rollback, return,
}

abbrev pub Holds :
    {A : Type 0} → (A → State → Type 0) → (State → Type 0) → Result A × State → Type 0
Holds Q E (ok a, s) = Q a s
Holds Q E (err e, s) = E s

pub record Outcome {A : Type 0} (Q : A → State → Type 0) (E : State → Type 0) (r : Result A × State)
    : Type 0 where
  pub holds : Holds Q E r

-- The database refuses one of the statements to come.
abbrev pub has_fault : List (Option Text) → Bool
has_fault [] = false
has_fault (none ∷ fs) = has_fault fs
has_fault (some m ∷ fs) = true

-- No statement to come is refused, or one that is refused has shown F.
abbrev pub Blame : Type 0 → List (Option Text) → Type 0
Blame F fs = (has_fault fs ≡ false) ⊎ F

pub Blame-faults : (fs : List (Option Text)) → Blame (has_fault fs ≡ true) fs
Blame-faults fs = elim (Bool-cases (has_fault fs)) [ inl e ↦ inr e | inr e ↦ inl e ]

abbrev pub at : State → List (Option Text) → State
at s fs = record s { faults = fs }

module _ {A B : Type 0} {Q : B → State → Type 0} {E : State → Type 0} where
  pub after-Outcome :
      (r : Result A × State) (f : A → Op B)
      → Outcome (λ a s. Outcome Q E (f a s)) E r
      → Outcome Q E (after r f)
  after-Outcome (ok a, s) f h = h.holds
  after-Outcome (err e, s) f h = record { holds = h.holds }

module _ {A : Type 0} {Q R : A → State → Type 0} {E D : State → Type 0} where
  pub weaken :
      (r : Result A × State)
      → ((a : A) (s : State) → Q a s → R a s)
      → ((s : State) → E s → D s)
      → Outcome Q E r
      → Outcome R D r
  weaken (ok a, s) q e h = record { holds = q a s h.holds }
  weaken (err x, s) q e h = record { holds = e s h.holds }

refused_blame : {F : Type 0} (m : Text) (fs : List (Option Text)) → Blame F (some m ∷ fs) → F
refused_blame m fs (inl e) = ground arith
refused_blame m fs (inr x) = x

module _ {A : Type 0} {Q : A → State → Type 0} {E : State → Type 0} where
  run_or_fault-Outcome :
      (F : Type 0) (act : Op A) (s : State) (fs : List (Option Text))
      → Blame F fs
      → ((gs : List (Option Text)) → F → E (at s gs))
      → ((gs : List (Option Text)) → Blame F gs → Outcome Q E (act (at s gs)))
      → Outcome Q E (run_or_fault fs act (at s fs))
  run_or_fault-Outcome F act s [] b bad good = good [] b
  run_or_fault-Outcome F act s (none ∷ fs) b bad good = good fs b
  run_or_fault-Outcome F act s (some m ∷ fs) b bad good = record {
    holds = bad fs (refused_blame m fs b);
  }

  pub statement-Outcome :
      (F : Type 0) (act : Op A) (s : State)
      → Blame F s.faults
      → ((gs : List (Option Text)) → F → E (at s gs))
      → ((gs : List (Option Text)) → Blame F gs → Outcome Q E (act (at s gs)))
      → Outcome Q E (statement act s)
  unfolding statement
  statement-Outcome F act s b bad good = run_or_fault-Outcome F act s s.faults b bad good

module _ {A : Type 0} {Q : A → State → Type 0} {E : State → Type 0} where
  rollback-Outcome :
      (s : State) (r : Result A × State)
      → Outcome Q (λ t. E (at s t.faults)) r
      → Outcome Q E (rollback s r)
  rollback-Outcome s (ok a, s') h = record { holds = h.holds }
  rollback-Outcome s (err e, s') h = record { holds = h.holds }

  pub transaction-Outcome :
      (F : Type 0) (m : Op A) (s : State)
      → ((gs : List (Option Text)) → F → E (at s gs))
      → Outcome
          (λ a t. Blame F t.faults × ((gs : List (Option Text)) → Blame F gs → Q a (at t gs)))
          (λ t. E (at s t.faults))
          (m s)
      → Outcome Q E (transaction m s)
  unfolding transaction
  transaction-Outcome F m s bad h =
      rollback-Outcome s _ (after-Outcome (m s) _ (weaken (m s) committed (λ t e. e) h))
    where
      committed :
          (a : A) (t : State)
          → Blame F t.faults × ((gs : List (Option Text)) → Blame F gs → Q a (at t gs))
          → Outcome Q (λ t. E (at s t.faults)) (after (statement (return tt) t) λ x. return a)
      committed a t (b, q) = after-Outcome (statement (return tt) t) _ (
          statement-Outcome F (return tt) t b (λ gs f. bad gs f)
            (λ gs c. record { holds = record { holds = q gs c } }))
