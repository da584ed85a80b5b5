-- ===== src/Ops/Scan/Latest.antt =====
-- `deduplicateTransitions` keeps a transition of each rule, and makes up none.
use konzhitai.Prelude.{
  ◌≡◌, refl, ◌∙◌, ap, Bool, true, false, ◌||◌, inl, inr, Option, none, some, List, [], ◌∷◌, ◌++◌,
  All, any, Bool-cases, if◌then◌else◌, ◌==◌, arith,
}
use konzhitai.Ops.{RuleKey}
use konzhitai.Ops.Apply.{RuleKey_discrete, key_eq, Transition}
use konzhitai.Ops.Scan.{key_of, collect_order, last_of, take_last, deduplicate_transitions}

abbrev pub listed : RuleKey → List RuleKey → Bool
listed k ks = any (λ j. j == k) ks

listed-append :
    (k j : RuleKey) (ks : List RuleKey) → listed k (ks ++ j ∷ []) ≡ listed k ks || (j == k)
listed-append k j [] = ground arith
listed-append k j (i ∷ ks) = ground (arith, listed-append k j ks)

module _ {Value : Type 0} where
  abbrev pub changes : RuleKey → List (Transition Value) → Bool
  changes k ts = any (λ t. key_of t == k) ts

  collect_order-kept :
      (k : RuleKey) (order : List RuleKey) (ts : List (Transition Value))
      → listed k order ≡ true
      → listed k (collect_order order ts) ≡ true
  collect_order-kept k order [] h = h
  collect_order-kept k order (t ∷ ts) h =
      collect_order-kept k (if listed (key_of t) order then order else order ++ key_of t ∷ []) ts
        (ground (arith, listed-append k (key_of t) order, h))

  collect_order-listed :
      (k : RuleKey) (order : List RuleKey) (ts : List (Transition Value))
      → changes k ts ≡ true
      → listed k (collect_order order ts) ≡ true
  collect_order-listed k order [] h = absurd (ground (arith, h))
  collect_order-listed k order (t ∷ ts) h = elim (Bool-cases (key_of t == k)) [
    | inl e ↦
        collect_order-kept k (if listed (key_of t) order then order else order ++ key_of t ∷ []) ts
          (ground (arith, e, listed-append k (key_of t) order))
    | inr e ↦
        collect_order-listed k (if listed (key_of t) order then order else order ++ key_of t ∷ [])
          ts (ground (arith, e, h))
  ]

  -- What holds of the value, if there is one.
  abbrev IfSome : (Transition Value → Type 0) → Option (Transition Value) → Type 0
  IfSome P none = Unit
  IfSome P (some t) = P t

  last_of-All :
      (P : Transition Value → Type 0) (k : RuleKey) (ts : List (Transition Value))
      → All P ts
      → IfSome P (last_of k ts)
  last_of-All P k [] h = tt
  last_of-All P k (t ∷ ts) (h, hs) = step (last_of k ts) (last_of-All P k ts hs) (key_of t == k)
    where
      step :
          (o : Option (Transition Value))
          → IfSome P o
          → (b : Bool) → IfSome P (elim o [ some u ↦ some u | none ↦ if b then some t else none ])
      step (some u) g b = g
      step none g true = h
      step none g false = tt

  take_last-All :
      (P : Transition Value → Type 0) (ts : List (Transition Value)) (ks : List RuleKey)
      → All P ts
      → All P (take_last ts ks)
  take_last-All P ts [] h = tt
  take_last-All P ts (k ∷ ks) h =
      step (last_of k ts) (last_of-All P k ts h) (take_last-All P ts ks h)
    where
      step :
          (o : Option (Transition Value))
          → IfSome P o
          → All P (take_last ts ks)
          → All P (elim o [ some t ↦ t ∷ take_last ts ks | none ↦ take_last ts ks ])
      step (some t) g rest = (g, rest)
      step none g rest = rest

  -- The last transition of a rule that has one.
  last_of-some :
      (k : RuleKey) (ts : List (Transition Value))
      → changes k ts ≡ true
      → (t : Transition Value) × (last_of k ts ≡ some t) × ((key_of t == k) ≡ true)
  last_of-some k [] h = absurd (ground (arith, h))
  last_of-some k (t ∷ ts) h = elim (Bool-cases (changes k ts)) [
    | inl later ↦ behind (last_of-some k ts later)
    | inr last ↦ (t, ground (arith, h, last, last_of-none ts last), ground (arith, h, last))
  ]
    where
      last_of-none : (us : List (Transition Value)) → changes k us ≡ false → last_of k us ≡ none
      last_of-none [] g = refl
      last_of-none (u ∷ us) g = ground (arith, g, last_of-none us)

      behind :
          ((u : Transition Value) × (last_of k ts ≡ some u) × ((key_of u == k) ≡ true))
          → (u : Transition Value) × (last_of k (t ∷ ts) ≡ some u) × ((key_of u == k) ≡ true)
      behind (u, e, f) = (u, ground (arith, e), f)

  take_last-changes :
      (k : RuleKey) (ts : List (Transition Value)) (ks : List RuleKey)
      → changes k ts ≡ true
      → listed k ks ≡ true
      → changes k (take_last ts ks) ≡ true
  take_last-changes k ts [] h l = absurd (ground (arith, l))
  take_last-changes k ts (j ∷ ks) h l = elim (RuleKey_discrete j k) [
    | yes same ↦ own (ap (λ i. last_of i ts) same) (last_of-some k ts h)
    | no other ↦ behind (last_of j ts) (take_last-changes k ts ks h (ground (arith, l, other)))
  ]
    where
      own :
          last_of j ts ≡ last_of k ts
          → ((t : Transition Value) × (last_of k ts ≡ some t) × ((key_of t == k) ≡ true))
          → changes k (take_last ts (j ∷ ks)) ≡ true
      own same (t, e, f) = ground (arith, same ∙ e, f)

      behind :
          (o : Option (Transition Value))
          → changes k (take_last ts ks) ≡ true
          → changes k (elim o [ some t ↦ t ∷ take_last ts ks | none ↦ take_last ts ks ]) ≡ true
      behind none g = g
      behind (some t) g = ground (arith, g)

  pub deduplicate_transitions-All :
      (P : Transition Value → Type 0) (ts : List (Transition Value))
      → All P ts
      → All P (deduplicate_transitions ts)
  unfolding deduplicate_transitions
  deduplicate_transitions-All P ts h = take_last-All P ts (collect_order [] ts) h

  pub deduplicate_transitions-changes :
      (k : RuleKey) (ts : List (Transition Value))
      → changes k ts ≡ true
      → changes k (deduplicate_transitions ts) ≡ true
  unfolding deduplicate_transitions
  deduplicate_transitions-changes k ts h =
      take_last-changes k ts (collect_order [] ts) h (collect_order-listed k [] ts h)
