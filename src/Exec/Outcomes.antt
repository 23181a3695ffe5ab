-- ===== src/Exec/Outcomes.antt =====
-- What an action may return, and that it raises nothing.
use grafux_orchestrator.Prelude.{String, ◌≡◌, ◌≢◌, ◌∙◌, ap, Bool, true, false, refl, if◌then◌else◌}
use mathlib.Core.Path.{subst}
use grafux_orchestrator.Python.{Outcome, ok, raised, cancelled}
use grafux_orchestrator.Exec.{Exec, reads, pure, lift, try_except, continue, handle, ◌>>=◌}

-- Whatever the action returns satisfies `Q`.
pub record Yields {S A : Type 0} (Q : A → Type 0) (action : Exec S A) : Type 0 where
  pub at : (s : S) (a : A) → (action s).0 ≡ ok a → Q a

-- The action raises no exception. It may still be cancelled.
pub record IsCalm {S A : Type 0} (action : Exec S A) : Type 0 where
  pub at : (s : S) (e : String) → (action s).0 ≢ raised e

module _ {S A : Type 0} {Q : A → Type 0} where
  pub Yields-lift : (r : Outcome A) → ((a : A) → r ≡ ok a → Q a) → Yields {S = S} Q (lift r)
  unfolding reads
  Yields-lift r h = record { at = λ s a e. h a e }

  pub Yields-pure : (a : A) → Q a → Yields {S = S} Q (pure a)
  unfolding reads
  Yields-pure a h = record { at = λ s b e. let same : a ≡ b = cc in subst Q same h }

  pub Yields-raised : (e : String) → Yields {S = S} Q (lift (raised e))
  unfolding reads
  Yields-raised e = record { at = λ s a h. absurd cc }

  pub Yields-if :
      (test : Bool) (m n : Exec S A)
      → (test ≡ true → Yields Q m)
      → (test ≡ false → Yields Q n)
      → Yields Q (if test then m else n)
  Yields-if true m n hm hn = hm refl
  Yields-if false m n hm hn = hn refl

  handled :
      (r : Outcome A) (handler : String → Exec S A) (s : S) (a : A)
      → ((b : A) → r ≡ ok b → Q b)
      → ((e : String) → Yields Q (handler e))
      → (handle r handler s).0 ≡ ok a
      → Q a
  unfolding handle
  handled (ok b) handler s a hr hh e = hr a e
  handled (raised x) handler s a hr hh e = (hh x).at s a e
  handled cancelled handler s a hr hh e = absurd cc

  pub Yields-try_except :
      (m : Exec S A) (handler : String → Exec S A)
      → Yields Q m
      → ((e : String) → Yields Q (handler e))
      → Yields Q (try_except m handler)
  unfolding try_except
  Yields-try_except m handler hm hh = record {
    at = λ s a e. handled (m s).0 handler (m s).1 a (hm.at s) hh e;
  }

module _ {S A B : Type 0} (P : A → Type 0) {Q : B → Type 0} where
  continued :
      (r : Outcome A) (rest : A → Exec S B) (s : S) (b : B)
      → ((a : A) → r ≡ ok a → P a)
      → ((a : A) → P a → Yields Q (rest a))
      → (continue r rest s).0 ≡ ok b
      → Q b
  unfolding continue
  continued (ok a) rest s b hr hrest e = (hrest a (hr a refl)).at s b e
  continued (raised x) rest s b hr hrest e = absurd cc
  continued cancelled rest s b hr hrest e = absurd cc

  pub Yields-bind :
      (m : Exec S A) (rest : A → Exec S B)
      → Yields P m
      → ((a : A) → P a → Yields Q (rest a))
      → Yields Q (m >>= rest)
  unfolding ◌>>=◌
  Yields-bind m rest hm hrest = record {
    at = λ s b e. continued (m s).0 rest (m s).1 b (hm.at s) hrest e;
  }

-- Where what the first action returns does not matter.
module _ {S A B : Type 0} {Q : B → Type 0} where
  pub Yields-then :
      (m : Exec S A) (rest : A → Exec S B) → ((a : A) → Yields Q (rest a)) → Yields Q (m >>= rest)
  Yields-then m rest h =
      Yields-bind (λ _. Unit {0}) m rest (record { at = λ s a e. tt }) (λ a _. h a)

module _ {S A : Type 0} where
  pub IsCalm-pure : (a : A) → IsCalm {S = S} (pure a)
  unfolding reads
  IsCalm-pure a = record { at = λ s e h. cc }

  pub IsCalm-if :
      (test : Bool) (m n : Exec S A) → IsCalm m → IsCalm n → IsCalm (if test then m else n)
  IsCalm-if true m n hm hn = hm
  IsCalm-if false m n hm hn = hn

  calm_handle :
      (r : Outcome A) (handler : String → Exec S A) (s : S) (x : String)
      → ((e : String) → IsCalm (handler e))
      → (handle r handler s).0 ≢ raised x
  unfolding handle
  calm_handle (ok a) handler s x h e = cc
  calm_handle (raised y) handler s x h e = (h y).at s x e
  calm_handle cancelled handler s x h e = cc

  pub IsCalm-try_except :
      (m : Exec S A) (handler : String → Exec S A)
      → ((e : String) → IsCalm (handler e))
      → IsCalm (try_except m handler)
  unfolding try_except
  IsCalm-try_except m handler h = record { at = λ s x e. calm_handle (m s).0 handler (m s).1 x h e }

module _ {S A B : Type 0} where
  calm_continue :
      (r : Outcome A) (rest : A → Exec S B) (s : S) (x : String)
      → ((e : String) → r ≢ raised e)
      → ((a : A) → IsCalm (rest a))
      → (continue r rest s).0 ≢ raised x
  unfolding continue
  calm_continue (ok a) rest s x hr h e = (h a).at s x e
  calm_continue (raised y) rest s x hr h e = absurd (hr y refl)
  calm_continue cancelled rest s x hr h e = cc

  pub IsCalm-bind :
      (m : Exec S A) (rest : A → Exec S B)
      → IsCalm m
      → ((a : A) → IsCalm (rest a))
      → IsCalm (m >>= rest)
  unfolding ◌>>=◌
  IsCalm-bind m rest hm h = record {
    at = λ s x e. calm_continue (m s).0 rest (m s).1 x (hm.at s) h e;
  }

pub ruleset calm_rules = (IsCalm-pure, IsCalm-if, IsCalm-try_except, IsCalm-bind)

-- What a returned value passes on, and what a handler makes of an exception.
module _ {S A B : Type 0} where
  pub bind-ok :
      (m : Exec S A) (rest : A → Exec S B) (s : S) (a : A)
      → (m s).0 ≡ ok a
      → (m >>= rest) s ≡ rest a (m s).1
  unfolding ◌>>=◌ continue
  bind-ok m rest s a e = rw e refl

module _ {S A : Type 0} where
  pub try_except-raised :
      (m : Exec S A) (handler : String → Exec S A) (s : S) (e : String)
      → (m s).0 ≡ raised e
      → try_except m handler s ≡ handler e (m s).1
  unfolding try_except handle
  try_except-raised m handler s x e = rw e refl

  pub try_except-ok :
      (m : Exec S A) (handler : String → Exec S A) (s : S) (a : A)
      → (m s).0 ≡ ok a
      → try_except m handler s ≡ (ok a, (m s).1)
  unfolding try_except handle
  try_except-ok m handler s a e = rw e refl

-- From this state the action returns, with a value that satisfies `Q`.
pub record Returns {S A : Type 0} (Q : A → Type 0) (action : Exec S A) (s : S) : Type 0 where
  pub value : A
  pub returned : (action s).0 ≡ ok value
  pub holds : Q value

module _ {S A B : Type 0} (P : A → Type 0) {Q : B → Type 0} where
  pub Returns-bind :
      (m : Exec S A) (rest : A → Exec S B) (s : S)
      → Returns P m s
      → ((a : A) → P a → Returns Q (rest a) (m s).1)
      → Returns Q (m >>= rest) s
  Returns-bind m rest s first then_on =
      let next = then_on first.value first.holds in
      record {
        value = next.value;
        returned = ap (λ r. r.0) (bind-ok m rest s first.value first.returned) ∙ next.returned;
        holds = next.holds;
      }
