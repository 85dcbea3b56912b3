-- ===== src/Prelude/Outcomes.antt =====
-- Code that may raise: the value, or the exception.
use net_ops_bench.Prelude.Texts.{Text}

-- type(exc).__name__ and str(exc)
pub record Exn : Type 0 where
  pub error_type : Text
  pub message : Text

pub data Outcome {ℓ} (A : Type ℓ) : Type ℓ where
  returned : A → Outcome A
  raised : Exn → Outcome A

-- Methods of an object that raise: what was written before the raise stays written.
abbrev pub Action {ℓ} : Type ℓ → Type ℓ → Type ℓ
Action S A = S → Outcome A × S

module _ {ℓ} {S A : Type ℓ} where
  abbrev pub pure : A → Action S A
  pure a s = (returned a, s)

  abbrev pub throw : Exn → Action S A
  throw e s = (raised e, s)

  abbrev pub gets : (S → A) → Action S A
  gets f s = (returned (f s), s)

abbrev pub modify {ℓ} : {S : Type ℓ} → (S → S) → Action S (Unit {ℓ})
modify f s = (returned tt, f s)

module _ {ℓ} {S A B : Type ℓ} where
  abbrev pub proceed : (A → Action S B) → Outcome A × S → Outcome B × S
  proceed k (returned a, s) = k a s
  proceed k (raised e, s) = (raised e, s)

  infixl 5 ◌>>=◌
  abbrev pub ◌>>=◌ : Action S A → (A → Action S B) → Action S B
  ◌>>=◌ m k s = proceed k (m s)

  -- try: m; except Exception: handler; else: k
  abbrev pub handle : (Exn → Action S B) → (A → Action S B) → Outcome A × S → Outcome B × S
  handle h k (returned a, s) = k a s
  handle h k (raised e, s) = h e s

  abbrev pub try_except : Action S A → (Exn → Action S B) → (A → Action S B) → Action S B
  try_except m h k s = handle h k (m s)

infixl 5 ◌>>◌
abbrev pub ◌>>◌ {ℓ} : {S B : Type ℓ} → Action S (Unit {ℓ}) → Action S B → Action S B
m >> k = m >>= λ _. k
