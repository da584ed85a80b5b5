-- ===== src/Release/State/Triples.antt =====
-- What holds of the files before an operation, after its success and after its failure or a crash.
use konzhitai.Prelude.{Bool, true, false, ◌≡◌, refl, List, [], ◌∷◌, Result, ok, err}
use konzhitai.Prelude.Actions.{◌>>=◌, ◌>>◌, give, fail, guard}
use konzhitai.Release.{Error}
use konzhitai.Release.State.{
  Disk, World, Verdict, done, refused, late, Fs, change, probe, look, write_json_atomic,
}

abbrev pub Ended :
    {A : Type 0} → (A → Disk → Type 0) → (Disk → Type 0) → Result Error A × World → Type 0
Ended Q R (ok a, w) = Q a w.disk
Ended Q R (err e, w) = R w.disk

pub record Triple {A : Type 0} (P : Disk → Type 0) (m : Fs A) (Q : A → Disk → Type 0)
    (R : Disk → Type 0) : Type 0 where
  pub run : (w : World) → P w.disk → Ended Q R (m w)

module _ {P R : Disk → Type 0} where
  pub change-Triple :
      {Q : Unit {0} → Disk → Type 0} (f : Disk → Disk)
      → ((d : Disk) → P d → Q tt (f d))
      → ((d : Disk) → P d → R d)
      → ((d : Disk) → P d → R (f d))
      → Triple P (change f) Q R
  unfolding change
  change-Triple {Q} f after same late_one = record { run = λ w p. step w.disk w.verdicts p }
    where
      step :
          (d : Disk) (vs : List Verdict)
          → P d
          → Ended Q R (change f (record { disk = d; verdicts = vs }))
      step d [] p = same d p
      step d (done ∷ vs) p = after d p
      step d (refused ∷ vs) p = same d p
      step d (late ∷ vs) p = late_one d p

  pub give-Triple :
      {A : Type 0} {Q : A → Disk → Type 0} (a : A)
      → ((d : Disk) → P d → Q a d)
      → Triple P (give a) Q R
  give-Triple a h = record { run = λ w p. h w.disk p }

  pub fail-Triple :
      {A : Type 0} {Q : A → Disk → Type 0} (e : Error)
      → ((d : Disk) → P d → R d)
      → Triple P (fail e) Q R
  fail-Triple e h = record { run = λ w p. h w.disk p }

  pub bind-Triple :
      {A B : Type 0} {M : A → Disk → Type 0} {Q : B → Disk → Type 0} {m : Fs A} {f : A → Fs B}
      → Triple P m M R
      → ((a : A) → Triple (M a) (f a) Q R)
      → Triple P (m >>= f) Q R
  bind-Triple {A} {B} {M} {Q} {m} {f} h k = record { run = λ w p. step (m w) (h.run w p) }
    where
      step :
          (x : Result Error A × World)
          → Ended M R x
          → Ended Q R (
              let (r, u) = x in
              elim r as (λ _. Result Error B × World) [ ok a ↦ f a u | err e ↦ (err e, u) ])
      step (ok a, u) p = (k a).run u p
      step (err e, u) p = p

  pub then-Triple :
      {A B : Type 0} {M : A → Disk → Type 0} {Q : B → Disk → Type 0} {m : Fs A} {k : Fs B}
      → Triple P m M R
      → ((a : A) → Triple (M a) k Q R)
      → Triple P (m >> k) Q R
  then-Triple {A} {B} {M} {Q} {m} {k} h r = bind-Triple {M = M} {m = m} {f = λ _. k} h r

  pub guard-Triple :
      {Q : Unit {0} → Disk → Type 0} (b : Bool) (e : Error)
      → (b ≡ false → (d : Disk) → P d → Q tt d)
      → ((d : Disk) → P d → R d)
      → Triple P (guard b e) Q R
  guard-Triple true e h k = fail-Triple e k
  guard-Triple false e h k = give-Triple tt (h refl)

  pub probe-Triple :
      {Q : Unit {0} → Disk → Type 0}
      → ((d : Disk) → P d → Q tt d)
      → ((d : Disk) → P d → R d)
      → Triple P probe Q R
  unfolding probe
  probe-Triple h k = change-Triple (λ d. d) h k k

  pub look-Triple :
      {A : Type 0} {Q : A → Disk → Type 0} (f : Disk → A)
      → ((d : Disk) → P d → Q (f d) d)
      → ((d : Disk) → P d → R d)
      → Triple P (look f) Q R
  unfolding look
  look-Triple {A} {Q} f h k =
      then-Triple {M = λ _. P} {m = probe} {k = λ w. (ok (f w.disk), w)} (probe-Triple (λ d p. p) k)
        (λ _. record { run = λ w p. h w.disk p })

-- Before the rename a failure leaves the files as they were.
pub write-Triple :
    {P R : Disk → Type 0} {Q : Unit {0} → Disk → Type 0} (f : Disk → Disk)
    → ((d : Disk) → P d → Q tt (f d))
    → ((d : Disk) → P d → R d)
    → ((d : Disk) → Q tt d → R d)
    → Triple P (write_json_atomic f) Q R
unfolding write_json_atomic
write-Triple {P} {R} {Q} f after same later =
    then-Triple {M = λ _. P} {m = probe} {k = change f >> probe} (probe-Triple (λ d p. p) same)
      (λ _.
        then-Triple {M = λ _ d. Q tt d} {m = change f} {k = probe}
          (change-Triple f after same (λ d p. later (f d) (after d p)))
          (λ _. probe-Triple (λ d q. q) later))

pub weaken-Triple :
    {A : Type 0} {P R S : Disk → Type 0} {Q : A → Disk → Type 0} {m : Fs A}
    → Triple P m Q R
    → ((d : Disk) → R d → S d)
    → Triple P m Q S
weaken-Triple {A} {P} {R} {S} {Q} {m} h k = record { run = λ w p. step (m w) (h.run w p) }
  where
    step : (x : Result Error A × World) → Ended Q R x → Ended Q S x
    step (ok a, u) q = q
    step (err e, u) q = k u.disk q
