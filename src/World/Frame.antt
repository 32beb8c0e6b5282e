-- ===== src/World/Frame.antt =====
-- What a step does not touch: a view of the trace that is the same behind it, whatever the
-- environment answers and also where the step panics.
use chain_ops.Common.{List, ◌∷◌, ◌≡◌, refl, ◌∙◌, Option, none, some, Bool, true, false}
use chain_ops.World.{Action, sql, Trace, Outcome, done, panic, M, pure, call, or_crash, ◌>>=◌}

-- Only a statement is seen by the database.
abbrev pub is_sql : Action → Bool
is_sql (sql q) = true
is_sql _ = false

-- A view that looks at nothing but statements.
abbrev pub SeesSql {ℓ} : {S : Type ℓ} → (Trace → S) → Type ℓ
SeesSql view = (a : Action) (t : Trace) → is_sql a ≡ false → view (a ∷ t) ≡ view t

abbrev pub Keeps {ℓ} : {S : Type ℓ} {A : Type 0} → (Trace → S) → M A → Type ℓ
Keeps view m = (t : Trace) → view (m t).1 ≡ view t

module _ {ℓ} {S : Type ℓ} (view : Trace → S) where
  pub Keeps-bind :
      {A B : Type 0} (m : M A) (f : A → M B)
      → Keeps view m
      → ((a : A) → Keeps view (f a))
      → Keeps view (m >>= f)
  Keeps-bind {A} {B} m f first rest t = go (m t) (first t)
    where
      go :
          (r : Outcome A × Trace)
          → view r.1 ≡ view t
          → view
              (elim r.0 as (λ _. Outcome B × Trace) [ done a ↦ f a r.1 | panic ↦ (panic, r.1) ]).1
            ≡ view t
      go (done a, t') same = rest a t' ∙ same
      go (panic, t') same = same

  pub Keeps-or_crash : {A : Type 0} (o : Option A) → Keeps view (or_crash o)
  Keeps-or_crash none t = refl
  Keeps-or_crash (some a) t = refl

  -- A call that is not a statement.
  pub Keeps-call :
      {A : Type 0} (a : Action) (answer : Trace → A)
      → SeesSql view
      → is_sql a ≡ false
      → Keeps view (call a answer)
  Keeps-call a answer sees other t = sees a t other

  -- A step behind which the rest of a loop stands.
  pub then-Keeps :
      {A B : Type 0} (one : M A) (rest : M (List B)) (join : A → List B → List B)
      → Keeps view one
      → Keeps view rest
      → Keeps view (one >>= λ a. rest >>= λ bs. pure (join a bs))
  then-Keeps one rest join first others =
      Keeps-bind one (λ a. rest >>= λ bs. pure (join a bs)) first
        (λ a. Keeps-bind rest (λ bs. pure (join a bs)) others (λ bs t. refl))
