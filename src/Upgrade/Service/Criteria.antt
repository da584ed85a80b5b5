-- ===== src/Upgrade/Service/Criteria.antt =====
-- What `createPlan` of internal/agentupgrade/service.go demands of its input, of a release and of a server, in words of
-- its own.
use mathlib.Core.List.{Memᴰ}
use mathlib.Core.Path.{subst}
use konzhitai.Prelude.{
  ℕ, zero, suc, ◌≤◌, ◌≡◌, ◌≢◌, refl, sym, ◌⊎◌, inl, inr, true, false, ◌&&◌, ◌||◌, String, List, [],
  ◌∷◌, All, arith, length, contains, is_blank, any, Bool-cases, ◌==◌, nat_eq, string_eq,
}
use konzhitai.Prelude.Int.{ℤ, pos, negsuc, ltb_ℤ}
use konzhitai.Upgrade.Types.{CreatePlanInput, Plan, ReleaseInfo, ServerInfo, ArtifactInfo}
use konzhitai.Upgrade.Service.{self_upgrade, has_artifact, usable, reachable}
use konzhitai.Upgrade.Service.Create.{valid_plan_input, valid_ids, or_default, apply_plan_defaults}

abbrev pub Upgrades : List String → Type 0
Upgrades capabilities = Memᴰ "self_upgrade_v1" capabilities

pub record Offered (release : ReleaseInfo) : Type 0 where
  pub available : release.status ≡ "available"
  pub upgrades : Upgrades release.capabilities

pub record Reached (server : ServerInfo) : Type 0 where
  pub enabled : server.enabled ≡ true
  pub up : (server.status ≡ "online") ⊎ (server.status ≡ "draining")

abbrev pub Packaged : ReleaseInfo → ServerInfo → Type 0
Packaged release server =
    (a : ArtifactInfo) × Memᴰ a release.artifacts
    × (a.os ≡ server.agent_os)
    × (a.arch ≡ server.agent_arch)

abbrev pub Between : ℕ → ℕ → ℤ → Type 0
Between low high n = (k : ℕ) × (n ≡ pos k) × (low ≤ k) × (k ≤ high)

abbrev pub NoneTwice : List String → Type 0
NoneTwice [] = Unit
NoneTwice (x ∷ xs) = All (λ y. y ≢ x) xs × NoneTwice xs

-- A number of the plan, which stands in for a number of the input that is 0.
abbrev pub Defaulted : ℕ → ℤ → ℤ → Type 0
Defaulted default given taken =
    ((given ≡ pos 0) × (taken ≡ pos default)) ⊎ ((given ≢ pos 0) × (taken ≡ given))

pub record Proper (input : CreatePlanInput) (plan : Plan) : Type 0 where
  pub release_named : is_blank input.target_release_id ≡ false
  pub creator_named : is_blank input.created_by ≡ false
  pub some_listed : length input.server_ids ≢ 0
  pub none_blank : All (λ id. is_blank id ≡ false) input.server_ids
  pub none_twice : NoneTwice input.server_ids
  pub batch_size_taken : Defaulted 1 input.batch_size plan.batch_size
  pub drain_timeout_taken : Defaulted 3600 input.drain_timeout_seconds plan.drain_timeout_seconds
  pub reconnect_timeout_taken :
      Defaulted 120 input.reconnect_timeout_seconds plan.reconnect_timeout_seconds
  pub verification_taken : Defaulted 30 input.verification_seconds plan.verification_seconds
  pub batch_size_in : Between 1 100 plan.batch_size
  pub drain_timeout_in : Between 60 86400 plan.drain_timeout_seconds
  pub reconnect_timeout_in : Between 30 3600 plan.reconnect_timeout_seconds
  pub verification_in : Between 10 600 plan.verification_seconds

contains-Mem : (x : String) (xs : List String) → contains xs x ≡ true → Memᴰ x xs
contains-Mem x [] h = cc
contains-Mem x (y ∷ ys) h = elim (Bool-cases (x == y)) [
  | inl e ↦ Memᴰ.head (ground (arith, e))
  | inr e ↦ Memᴰ.tail (contains-Mem x ys (ground (arith, h, e)))
]

pub usable-Offered : (release : ReleaseInfo) → usable release ≡ true → Offered release
usable-Offered release h = record {
  available = ground (arith, h);
  upgrades = contains-Mem "self_upgrade_v1" release.capabilities (ground (arith, h));
}

pub contains-Upgrades :
    (server : ServerInfo)
    → contains server.capabilities self_upgrade ≡ true
    → Upgrades server.capabilities
contains-Upgrades server h = contains-Mem "self_upgrade_v1" server.capabilities h

pub reachable-Reached : (server : ServerInfo) → reachable server ≡ true → Reached server
reachable-Reached server h = record {
  enabled = ground (arith, h);
  up = elim (Bool-cases (server.status == "online")) [
    | inl e ↦ inl (ground (arith, e))
    | inr e ↦ inr (ground (arith, h, e))
  ];
}

pub has_artifact-Packaged :
    (release : ReleaseInfo) (server : ServerInfo)
    → has_artifact release server.agent_os server.agent_arch ≡ true
    → Packaged release server
unfolding has_artifact
has_artifact-Packaged release server h = go release.artifacts h
  where
    go :
        (xs : List ArtifactInfo)
        → any (λ a. a.os == server.agent_os && a.arch == server.agent_arch) xs ≡ true
        → (a : ArtifactInfo) × Memᴰ a xs × (a.os ≡ server.agent_os) × (a.arch ≡ server.agent_arch)
    go [] g = cc
    go (x ∷ xs) g = elim (Bool-cases (x.os == server.agent_os && x.arch == server.agent_arch)) [
      | inl e ↦ (x, Memᴰ.head refl, ground (arith, e), ground (arith, e))
      | inr e ↦ let (a, m, o, r) = go xs (ground (arith, g, e)) in (a, Memᴰ.tail m, o, r)
    ]

within :
    (low high : ℕ) (n : ℤ) → (ltb_ℤ n (pos low) || ltb_ℤ (pos high) n) ≡ false → Between low high n
within low high (pos k) h = (k, refl, ground (arith, h), ground (arith, h))
within low high (negsuc k) h = absurd (ground (arith, h))

unseen : (seen : List String) (x : String) → contains seen x ≡ false → All (λ y. x ≢ y) seen
unseen [] x h = tt
unseen (y ∷ ys) x h = ((λ e. differs e), unseen ys x (ground (arith, h)))
  where
    differs : x ≢ y
    differs e = ground (arith, h, e)

trivial : (xs : List String) → All (λ y. Unit {0}) xs
trivial [] = tt
trivial (x ∷ xs) = (tt, trivial xs)

paired : (P Q : String → Type 0) (xs : List String) → All P xs → All Q xs → All (λ y. P y × Q y) xs
paired P Q [] p q = tt
paired P Q (x ∷ xs) (p, ps) (q, qs) = ((p, q), paired P Q xs ps qs)

valid_ids-NoneTwice :
    (seen ids : List String)
    → valid_ids seen ids ≡ true
    → All (λ y. All (λ id. id ≢ y) ids) seen × All (λ id. is_blank id ≡ false) ids × NoneTwice ids
unfolding valid_ids
valid_ids-NoneTwice seen [] h = (trivial seen, tt, tt)
valid_ids-NoneTwice seen (id ∷ ids) h =
    let ((later, before), named, distinct) =
      valid_ids-NoneTwice (id ∷ seen) ids (ground (arith, h)) in
    (
      paired _ _ seen (unseen seen id (ground (arith, h))) before,
      (ground (arith, h), named),
      (later, distinct),
    )

defaulted : (n : ℤ) (d : ℕ) → Defaulted d n (or_default n (pos d))
defaulted (pos zero) d = inl (refl, refl)
defaulted (pos (suc n)) d = inr ((λ e. cc), refl)
defaulted (negsuc n) d = inr ((λ e. cc), refl)

-- The plan took over the numbers of the input.
pub record TakenOver (input : CreatePlanInput) (plan : Plan) : Type 0 where
  pub same_size : plan.batch_size ≡ (apply_plan_defaults input).batch_size
  pub same_drain : plan.drain_timeout_seconds ≡ (apply_plan_defaults input).drain_timeout_seconds
  pub same_reconnect :
      plan.reconnect_timeout_seconds ≡ (apply_plan_defaults input).reconnect_timeout_seconds
  pub same_verification :
      plan.verification_seconds ≡ (apply_plan_defaults input).verification_seconds

pub valid_plan_input-Proper :
    (input : CreatePlanInput) (plan : Plan)
    → TakenOver input plan
    → valid_plan_input (apply_plan_defaults input) ≡ true
    → Proper input plan
unfolding valid_plan_input apply_plan_defaults
valid_plan_input-Proper input plan t h =
    let (_, named, distinct) = valid_ids-NoneTwice [] input.server_ids (ground (arith, h)) in
    let d = apply_plan_defaults input in
    record {
      release_named = ground (arith, h);
      creator_named = ground (arith, h);
      some_listed = λ e. ground (arith, h, e);
      none_blank = named;
      none_twice = distinct;
      batch_size_taken =
          subst (Defaulted 1 input.batch_size) (sym t.same_size) (defaulted input.batch_size 1);
      drain_timeout_taken =
          subst (Defaulted 3600 input.drain_timeout_seconds) (sym t.same_drain)
            (defaulted input.drain_timeout_seconds 3600);
      reconnect_timeout_taken =
          subst (Defaulted 120 input.reconnect_timeout_seconds) (sym t.same_reconnect)
            (defaulted input.reconnect_timeout_seconds 120);
      verification_taken =
          subst (Defaulted 30 input.verification_seconds) (sym t.same_verification)
            (defaulted input.verification_seconds 30);
      batch_size_in =
          subst (Between 1 100) (sym t.same_size) (within 1 100 d.batch_size (ground (arith, h)));
      drain_timeout_in =
          subst (Between 60 86400) (sym t.same_drain)
            (within 60 86400 d.drain_timeout_seconds (ground (arith, h)));
      reconnect_timeout_in =
          subst (Between 30 3600) (sym t.same_reconnect)
            (within 30 3600 d.reconnect_timeout_seconds (ground (arith, h)));
      verification_in =
          subst (Between 10 600) (sym t.same_verification)
            (within 10 600 d.verification_seconds (ground (arith, h)));
    }
