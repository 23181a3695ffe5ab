-- ===== src/LanguageModel/Attempt.antt =====
-- The coroutines of app/core/llm.py: they change a state and return, raise an exception of which
-- class, text and status codes are looked at, or are cancelled.
use grafux_orchestrator.Prelude.{ℕ, String, ◌≡◌, refl, Bool, true, false, Option, none}

-- What `_is_anthropic_auth_failure` and the handlers see of an exception: `type(exc).__name__`,
-- whether it is a `ValueError`, `str(exc)`, and the two places of a status code.
pub record Failure : Type 0 where
  pub class_name : String
  pub is_value_error : Bool
  pub message : String
  pub status_code : Option ℕ
  pub response_status : Option ℕ

pub data Attempt (A : Type 0) : Type 0 where
  returns : A → Attempt A
  fails : Failure → Attempt A
  cancels : Attempt A

abbrev pub value_error : String → Failure
value_error message = record {
  class_name = "ValueError";
  is_value_error = true;
  message = message;
  status_code = none;
  response_status = none;
}

abbrev pub runtime_error : String → Failure
runtime_error message = record {
  class_name = "RuntimeError";
  is_value_error = false;
  message = message;
  status_code = none;
  response_status = none;
}

abbrev pub index_error : Failure
index_error = record {
  class_name = "IndexError";
  is_value_error = false;
  message = "list index out of range";
  status_code = none;
  response_status = none;
}

abbrev pub Action : Type 0 → Type 0 → Type 0
Action S A = S → Attempt A × S

module _ {S A : Type 0} where
  abbrev pub give : Attempt A → Action S A
  give r s = (r, s)

  -- `except Exception as exc: handler exc`, once the guarded part has ended.
  unfoldable pub recover : Attempt A → (Failure → Action S A) → Action S A
  recover (fails e) handler s = handler e s
  recover r handler s = (r, s)

  unfoldable pub attempt : Action S A → (Failure → Action S A) → Action S A
  unfolding recover
  attempt body handler s = let (r, t) = body s in recover r handler t

module _ {S A B : Type 0} where
  unfoldable pub follow : Attempt A → (A → Action S B) → Action S B
  follow (returns a) rest s = rest a s
  follow (fails e) rest s = (fails e, s)
  follow cancels rest s = (cancels, s)

  infixl 10 ◌>>=◌
  unfoldable pub ◌>>=◌ : Action S A → (A → Action S B) → Action S B
  unfolding follow
  ◌>>=◌ action rest s = let (r, t) = action s in follow r rest t

-- However the action ends, `P` holds after it if it held before.
pub record Keeps {S A : Type 0} (P : S → Type 0) (action : Action S A) : Type 0 where
  pub at : (s : S) → P s → P (action s).1

module _ {S A : Type 0} {P : S → Type 0} where
  pub Keeps-give : (r : Attempt A) → Keeps P (give r)
  Keeps-give r = record { at = λ s h. h }

  recovered :
      (r : Attempt A) (handler : Failure → Action S A)
      → ((e : Failure) → Keeps P (handler e))
      → Keeps P (recover r handler)
  unfolding recover
  recovered (returns a) handler h = record { at = λ s p. p }
  recovered (fails e) handler h = h e
  recovered cancels handler h = record { at = λ s p. p }

  pub Keeps-attempt :
      (body : Action S A) (handler : Failure → Action S A)
      → Keeps P body
      → ((e : Failure) → Keeps P (handler e))
      → Keeps P (attempt body handler)
  unfolding attempt
  Keeps-attempt body handler h hh = record {
    at = λ s p. (recovered (body s).0 handler hh).at (body s).1 (h.at s p);
  }

module _ {S A B : Type 0} {P : S → Type 0} where
  followed :
      (r : Attempt A) (rest : A → Action S B)
      → ((a : A) → Keeps P (rest a))
      → Keeps P (follow r rest)
  unfolding follow
  followed (returns a) rest h = h a
  followed (fails e) rest h = record { at = λ s p. p }
  followed cancels rest h = record { at = λ s p. p }

  pub Keeps-bind :
      (action : Action S A) (rest : A → Action S B)
      → Keeps P action
      → ((a : A) → Keeps P (rest a))
      → Keeps P (action >>= rest)
  unfolding ◌>>=◌
  Keeps-bind action rest h hr = record {
    at = λ s p. (followed (action s).0 rest hr).at (action s).1 (h.at s p);
  }

pub ruleset keeps_rules = (Keeps-give, Keeps-attempt, Keeps-bind)

-- What an exception leads to.
module _ {S A : Type 0} where
  pub attempt-fails :
      (body : Action S A) (handler : Failure → Action S A) (s : S) (e : Failure)
      → (body s).0 ≡ fails e
      → attempt body handler s ≡ handler e (body s).1
  unfolding attempt recover
  attempt-fails body handler s e failed = rw failed refl

module _ {S A B : Type 0} where
  settled :
      (r : Attempt A) (result : A → Attempt B) (s : S) → (follow r (λ a. give (result a)) s).1 ≡ s
  unfolding follow
  settled (returns a) result s = refl
  settled (fails e) result s = refl
  settled cancels result s = refl

  -- What is computed from a returned value changes nothing.
  pub bind-give :
      (action : Action S A) (result : A → Attempt B) (s : S)
      → ((action >>= λ a. give (result a)) s).1 ≡ (action s).1
  unfolding ◌>>=◌
  bind-give action result s = settled (action s).0 result (action s).1
