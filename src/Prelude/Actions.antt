-- ===== src/Prelude/Actions.antt =====
-- A call that changes a state and may fail: what Go writes with `if err != nil { return err }`.
use mathlib.Core.Path.{◌≡◌, refl}
use mathlib.Core.Bool.{Bool, true, false}
use native.Mathlib.Omega.{arith}
use konzhitai.Prelude.Tests.{if◌then◌else◌}
use konzhitai.Prelude.Errors.{Result, ok, err}

abbrev pub Action : Type 0 → Type 0 → Type 0 → Type 0
Action S E A = S → Result E A × S

module _ {S E : Type 0} where
  infixl 5 ◌>>=◌ ◌>>◌
  abbrev pub ◌>>=◌ : {A B : Type 0} → Action S E A → (A → Action S E B) → Action S E B
  ◌>>=◌ m f s = let (r, t) = m s in elim r [ ok a ↦ f a t | err e ↦ (err e, t) ]

  abbrev pub ◌>>◌ : {A B : Type 0} → Action S E A → Action S E B → Action S E B
  m >> k = m >>= λ _. k

  abbrev pub give : {A : Type 0} → A → Action S E A
  give a s = (ok a, s)

  abbrev pub fail : {A : Type 0} → E → Action S E A
  fail e s = (err e, s)

  -- A call that cannot fail.
  abbrev pub lift : {A : Type 0} → (S → A × S) → Action S E A
  lift f s = let (a, t) = f s in (ok a, t)

  -- `_ = ...`
  abbrev pub ignore : {A : Type 0} → Action S E A → Action S E (Unit {0})
  ignore m s = let (_, t) = m s in (ok tt, t)

  -- `if b { ... }`
  abbrev pub when : Bool → Action S E (Unit {0}) → Action S E (Unit {0})
  when b m = if b then m else give tt

  -- `if b { return e }`
  abbrev pub guard : Bool → E → Action S E (Unit {0})
  guard b e = if b then fail e else give tt

  -- Whenever the call succeeds, its value satisfies `P`.
  pub record Ends {A : Type 0} (P : A → Type 0) (m : Action S E A) : Type 0 where
    pub ends : (s : S) (a : A) (t : S) → m s ≡ (ok a, t) → P a

  pub give-Ends : {A : Type 0} {P : A → Type 0} (a : A) → P a → Ends P (give a)
  give-Ends {A} {P} a p = record { ends = λ s b t h. ground arith }

  pub fail-Ends : {A : Type 0} {P : A → Type 0} (e : E) → Ends P (fail e)
  fail-Ends e = record { ends = λ s a t h. absurd (ground arith) }

  pub bind-Ends :
      {A B : Type 0} {P : A → Type 0} {Q : B → Type 0} {m : Action S E A} {f : A → Action S E B}
      → Ends P m
      → ((a : A) → P a → Ends Q (f a))
      → Ends Q (m >>= f)
  bind-Ends {A} {B} {P} {Q} {m} {f} h k = record { ends = λ s b t e. step s b t (m s) refl e }
    where
      step :
          (s : S) (b : B) (t : S) (x : Result E A × S)
          → m s ≡ x
          → (let (r, u) = x in
              elim r as (λ _. Result E B × S) [ ok a ↦ f a u | err e ↦ (err e, u) ])
            ≡ (ok b, t)
          → Q b
      step s b t (ok a, u) p e = (k a (h.ends s a u p)).ends u b t e
      step s b t (err x, u) p e = absurd (ground arith)

  pub then-Ends :
      {A B : Type 0} {P : A → Type 0} {Q : B → Type 0} {m : Action S E A} {k : Action S E B}
      → Ends P m
      → ((a : A) → P a → Ends Q k)
      → Ends Q (m >> k)
  then-Ends {A} {B} {P} {Q} {m} {k} h r = bind-Ends {m = m} {f = λ _. k} h r

  -- A call of which nothing is known.
  pub any-Ends : {A : Type 0} {m : Action S E A} → Ends (λ _. Unit {0}) m
  any-Ends = record { ends = λ s a t h. tt }

  pub lift-Ends :
      {A : Type 0} {P : A → Type 0} (f : S → A × S) → ((s : S) → P (f s).0) → Ends P (lift f)
  lift-Ends {A} {P} f h = record { ends = λ s a t e. rw (← a_is s a t e) (h s) }
    where
      a_is : (s : S) (a : A) (t : S) → lift f s ≡ (ok a, t) → (f s).0 ≡ a
      a_is s a t e = ground arith

  pub if-Ends :
      {A : Type 0} {P : A → Type 0} (b : Bool) {m n : Action S E A}
      → (b ≡ true → Ends P m)
      → (b ≡ false → Ends P n)
      → Ends P (if b then m else n)
  if-Ends true h k = h refl
  if-Ends false h k = k refl
