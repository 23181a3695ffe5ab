-- ===== src/Exec/Triples.antt =====
-- What holds of the value and the state where an action returns, and of the state where it does not.
use grafux_orchestrator.Prelude.{◌≡◌, Bool, true, false, refl, if◌then◌else◌}
use grafux_orchestrator.Python.{Outcome, ok, raised, cancelled}
use grafux_orchestrator.Exec.{Exec, Keeps, reads, pure, lift, continue, ◌>>=◌}
use grafux_orchestrator.Exec.Outcomes.{Yields}

module _ {S A : Type 0} where
  abbrev pub Ends : (A → S → Type 0) → (S → Type 0) → Outcome A × S → Type 0
  Ends Q R (ok a, s) = Q a s
  Ends Q R (raised e, s) = R s
  Ends Q R (cancelled, s) = R s

  pub Ends-outcome :
      (Q : A → S → Type 0) (R : S → Type 0) (r : Outcome A) (s : S)
      → ((a : A) → Q a s)
      → R s
      → Ends Q R (r, s)
  Ends-outcome Q R (ok a) s h g = h a
  Ends-outcome Q R (raised e) s h g = g
  Ends-outcome Q R cancelled s h g = g

-- From this state, `Q` holds after a return, and `R` after an exception or a cancellation.
pub record Meets {S A : Type 0} (Q : A → S → Type 0) (R : S → Type 0) (action : Exec S A) (s : S)
    : Type 0 where
  pub ended : Ends Q R (action s)

module _ {S A : Type 0} {Q : A → S → Type 0} {R : S → Type 0} where
  pub Meets-pure : (a : A) (s : S) → Q a s → Meets Q R (pure a) s
  unfolding reads
  Meets-pure a s h = record { ended = h }

  pub Meets-lift : (r : Outcome A) (s : S) → ((a : A) → Q a s) → R s → Meets Q R (lift r) s
  unfolding reads
  Meets-lift r s h g = record { ended = Ends-outcome Q R r s h g }

  pub Meets-if :
      (test : Bool) (m n : Exec S A) (s : S)
      → (test ≡ true → Meets Q R m s)
      → (test ≡ false → Meets Q R n s)
      → Meets Q R (if test then m else n) s
  Meets-if true m n s hm hn = hm refl
  Meets-if false m n s hm hn = hn refl

module _ {S A B : Type 0} (P : A → S → Type 0) {Q : B → S → Type 0} {R : S → Type 0} where
  Ends-continue :
      (r : Outcome A) (s : S) (rest : A → Exec S B)
      → Ends P R (r, s)
      → ((a : A) (t : S) → P a t → Meets Q R (rest a) t)
      → Ends Q R (continue r rest s)
  unfolding continue
  Ends-continue (ok a) s rest h then_on = (then_on a s h).ended
  Ends-continue (raised e) s rest h then_on = h
  Ends-continue cancelled s rest h then_on = h

  pub Meets-bind :
      (m : Exec S A) (rest : A → Exec S B) (s : S)
      → Meets P R m s
      → ((a : A) (t : S) → P a t → Meets Q R (rest a) t)
      → Meets Q R (m >>= rest) s
  unfolding ◌>>=◌
  Meets-bind m rest s first then_on = record {
    ended = Ends-continue (m s).0 (m s).1 rest first.ended then_on;
  }

-- What an action keeps, where that implies what is to hold if it does not return; and what it
-- returns as well.
module _ {S A : Type 0} {P R : S → Type 0} (weaker : (s : S) → P s → R s) where
  pub Meets-kept : (m : Exec S A) (s : S) → Keeps P m → P s → Meets (λ _. P) R m s
  Meets-kept m s keeps h =
      let after = keeps.at s h in
      record { ended = Ends-outcome (λ _. P) R (m s).0 (m s).1 (λ _. after) (weaker (m s).1 after) }

  Ends-both :
      (Q : A → Type 0) (r : Outcome A) (s : S)
      → ((a : A) → r ≡ ok a → Q a)
      → P s
      → Ends (λ a t. Q a × P t) R (r, s)
  Ends-both Q (ok a) s h g = (h a refl, g)
  Ends-both Q (raised e) s h g = weaker s g
  Ends-both Q cancelled s h g = weaker s g

  pub Meets-both :
      {Q : A → Type 0} (m : Exec S A) (s : S)
      → Yields Q m
      → Keeps P m
      → P s
      → Meets (λ a t. Q a × P t) R m s
  Meets-both {Q = Q} m s yields keeps h = record {
    ended = Ends-both Q (m s).0 (m s).1 (yields.at s) (keeps.at s h);
  }

module _ {S A : Type 0} where
  Ends-state : (R : S → Type 0) (r : Outcome A) (s : S) → Ends {A = A} (λ _. R) R (r, s) → R s
  Ends-state R (ok a) s h = h
  Ends-state R (raised e) s h = h
  Ends-state R cancelled s h = h

  pub Meets-state : {R : S → Type 0} (m : Exec S A) (s : S) → Meets (λ _. R) R m s → R (m s).1
  Meets-state {R = R} m s h = Ends-state R (m s).0 (m s).1 h.ended

-- What an action returns, beside what holds of it and the state then.
module _ {S A : Type 0} (Q : A → Type 0) where
  Ends-yields :
      (P : A → S → Type 0) (R : S → Type 0) (r : Outcome A) (s : S)
      → ((a : A) → r ≡ ok a → Q a)
      → Ends P R (r, s)
      → Ends (λ a t. Q a × P a t) R (r, s)
  Ends-yields P R (ok a) s h g = (h a refl, g)
  Ends-yields P R (raised e) s h g = g
  Ends-yields P R cancelled s h g = g

  pub Meets-Yields :
      {P : A → S → Type 0} {R : S → Type 0} (m : Exec S A) (s : S)
      → Yields Q m
      → Meets P R m s
      → Meets (λ a t. Q a × P a t) R m s
  Meets-Yields {P = P} {R = R} m s yields h = record {
    ended = Ends-yields P R (m s).0 (m s).1 (yields.at s) h.ended;
  }
