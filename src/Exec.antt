-- ===== src/Exec.antt =====
-- Coroutines as actions: they change a state and return, raise or are cancelled. What
-- was written before an exception stays written.
pub mod Outcomes
pub mod Triples
use grafux_orchestrator.Prelude.{String, ◌≡◌, Bool, true, false, refl, if◌then◌else◌}
use grafux_orchestrator.Python.{Outcome, ok, raised, cancelled}

abbrev pub Exec : Type 0 → Type 0 → Type 0
Exec S A = S → Outcome A × S

module _ {S A : Type 0} where
  -- An action that only looks at the state.
  unfoldable pub reads : (S → Outcome A) → Exec S A
  reads f s = (f s, s)

  abbrev pub pure : A → Exec S A
  pure a = reads (λ _. ok a)

  abbrev pub lift : Outcome A → Exec S A
  lift r = reads (λ _. r)

  abbrev pub gets : (S → A) → Exec S A
  gets f = reads (λ s. ok (f s))

module _ {S : Type 0} where
  unfoldable pub modify : (S → S) → Exec S (Unit {0})
  modify f s = (ok tt, f s)

  abbrev pub skip : Exec S (Unit {0})
  skip = pure tt

module _ {S A B : Type 0} where
  unfoldable pub continue : Outcome A → (A → Exec S B) → Exec S B
  continue (ok a) f s = f a s
  continue (raised e) f s = (raised e, s)
  continue cancelled f s = (cancelled, s)

  infixl 10 ◌>>=◌ ◌>>◌
  unfoldable pub ◌>>=◌ : Exec S A → (A → Exec S B) → Exec S B
  unfolding continue
  ◌>>=◌ action rest s = let (outcome, t) = action s in continue outcome rest t

  abbrev pub ◌>>◌ : Exec S A → Exec S B → Exec S B
  m >> n = m >>= λ _. n

after : {A : Type 0} → Outcome A → Outcome (Unit {0}) → Outcome A
after r (ok _) = r
after r (raised e) = raised e
after r cancelled = cancelled

module _ {S A : Type 0} where
  unfoldable pub handle : Outcome A → (String → Exec S A) → Exec S A
  handle (raised e) handler s = handler e s
  handle r handler s = (r, s)

  -- `try: body` / `except Exception as e: handler e`
  unfoldable pub try_except : Exec S A → (String → Exec S A) → Exec S A
  unfolding handle
  try_except body handler s = let (r, s') = body s in handle r handler s'

  -- `try: body` / `finally: cleanup`; an exception of the cleanup takes the place of the result.
  unfoldable pub try_finally : Exec S A → Exec S (Unit {0}) → Exec S A
  unfolding after
  try_finally body cleanup s = let (r, s') = body s in let (q, t) = cleanup s' in (after r q, t)

-- Whatever holds of a choice holds of the whole result, that is, of the outcome with the state.
module _ {S A : Type 0} (Q : Outcome A × S → Type 0) (m n : Exec S A) (s : S) where
  pub whole_if :
      (test : Bool)
      → (test ≡ true → Q (m s))
      → (test ≡ false → Q (n s))
      → Q ((if test then m else n) s)
  whole_if true hm hn = hm refl
  whole_if false hm hn = hn refl

-- However an action ends, `P` holds after it if it held before it.
pub record Keeps {S A : Type 0} (P : S → Type 0) (action : Exec S A) : Type 0 where
  pub at : (before : S) → P before → P (action before).1

module _ {S A : Type 0} {P : S → Type 0} where
  pub Keeps-reads : (f : S → Outcome A) → Keeps P (reads f)
  unfolding reads
  Keeps-reads f = record { at = λ before held. held }

  pub Keeps-if :
      (test : Bool) (m n : Exec S A)
      → (test ≡ true → Keeps P m)
      → (test ≡ false → Keeps P n)
      → Keeps P (if test then m else n)
  Keeps-if test m n km kn = record {
    at = λ before held.
        whole_if (λ r. P r.1) m n before test (λ e. (km e).at before held)
          (λ e. (kn e).at before held);
  }

  Keeps-handle :
      (r : Outcome A) (h : String → Exec S A)
      → ((e : String) → Keeps P (h e))
      → Keeps P (handle r h)
  unfolding handle
  Keeps-handle (ok a) h k = record { at = λ s p. p }
  Keeps-handle (raised e) h k = k e
  Keeps-handle cancelled h k = record { at = λ s p. p }

  pub Keeps-try_except :
      (m : Exec S A) (h : String → Exec S A)
      → Keeps P m
      → ((e : String) → Keeps P (h e))
      → Keeps P (try_except m h)
  unfolding try_except
  Keeps-try_except m h km kh = record {
    at = λ s p. let (r, s') = m s in (Keeps-handle r h kh).at s' (km.at s p);
  }

  pub Keeps-try_finally :
      (m : Exec S A) (c : Exec S (Unit {0})) → Keeps P m → Keeps P c → Keeps P (try_finally m c)
  unfolding try_finally
  Keeps-try_finally m c km kc = record { at = λ s p. kc.at (m s).1 (km.at s p) }

module _ {S A : Type 0} (P : S → Type 0) where
  pub try_except_at :
      (m : Exec S A) (h : String → Exec S A) (s : S)
      → P (m s).1
      → ((e : String) → Keeps P (h e))
      → P (try_except m h s).1
  unfolding try_except
  try_except_at m h s p kh = let (r, s') = m s in (Keeps-handle r h kh).at s' p

module _ {S : Type 0} {P : S → Type 0} where
  pub Keeps-modify : (f : S → S) → ((s : S) → P s → P (f s)) → Keeps P (modify f)
  unfolding modify
  Keeps-modify f k = record { at = k }

module _ {S A B : Type 0} {P : S → Type 0} where
  Keeps-continue :
      (r : Outcome A) (f : A → Exec S B) → ((a : A) → Keeps P (f a)) → Keeps P (continue r f)
  unfolding continue
  Keeps-continue (ok a) f k = k a
  Keeps-continue (raised e) f k = record { at = λ s p. p }
  Keeps-continue cancelled f k = record { at = λ s p. p }

-- The same for a run from one state, of which more may be known.
module _ {S A B : Type 0} (P : S → Type 0) where
  pub bind_at :
      (m : Exec S A) (f : A → Exec S B) (s : S)
      → P (m s).1
      → ((a : A) → Keeps P (f a))
      → P ((m >>= f) s).1
  unfolding ◌>>=◌
  bind_at m f s h kf = (Keeps-continue (m s).0 f kf).at (m s).1 h

module _ {S A B : Type 0} {P : S → Type 0} (action : Exec S A) (rest : A → Exec S B) where
  pub Keeps-bind : Keeps P action → ((a : A) → Keeps P (rest a)) → Keeps P (action >>= rest)
  Keeps-bind first then_on = record {
    at = λ before held. bind_at P action rest before (first.at before held) then_on;
  }

module _ {S A : Type 0} (P : S → Type 0) where
  pub if_at :
      (test : Bool) (m n : Exec S A) (s : S)
      → (test ≡ true → P (m s).1)
      → (test ≡ false → P (n s).1)
      → P ((if test then m else n) s).1
  if_at test m n s = whole_if (λ r. P r.1) m n s test

module _ {S A B : Type 0} (P : S → Type 0) where
  pub lift_at :
      (r : Outcome A) (f : A → Exec S B) (s : S)
      → P s
      → ((a : A) → r ≡ ok a → P (f a s).1)
      → P ((lift r >>= f) s).1
  unfolding ◌>>=◌ reads
  lift_at (ok a) f s h k = k a refl
  lift_at (raised e) f s h k = h
  lift_at cancelled f s h k = h

pub ruleset keeps_rules = (Keeps-reads, Keeps-if, Keeps-bind, Keeps-try_except, Keeps-try_finally)
