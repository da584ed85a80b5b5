-- ===== src/Scheduler/Score/Laws.antt =====
-- Bounds of the score, and the order in which candidates are tried.
use mathlib.Core.List.{Perm}
use konzhitai.Prelude.{
  All, [], ◌∷◌, ℕ, ◌+◌, ◌*◌, ◌/◌, ◌≤◌, ◌≡◌, refl, Bool, true, false, List, arith, Bool-cases, inl,
  inr, ltb, ◌||◌, if◌then◌else◌,
}
use konzhitai.Prelude.Int.{
  ◌<ℤ◌, ℤ, pos, negsuc, leb_ℤ, *ℤ_pos, +ℤ_pos, /ℤ_pos, ◌+ℤ◌, ◌-ℤ◌, ◌*ℤ◌, ◌/ℤ◌,
}
use konzhitai.Prelude.Sort.{IsSorted, IsStrictWeak, sort-IsSorted, sort-perm}
use konzhitai.Prelude.TextOrder.{str_less, str_less_asym, str_less_trans}
use konzhitai.Task.{Run}
use konzhitai.Scheduler.Types.{Candidate}
use konzhitai.Scheduler.Score.{
  score_basis, clamp, ratio, base_score, score, ranks_before, rank_candidates,
}

clamp_range : (v : ℤ) → (n : ℕ) × (clamp v (pos 0) score_basis ≡ pos n) × (n ≤ 10000)
unfolding clamp
clamp_range (pos n) = elim (Bool-cases (ltb 10000 n)) [
  | inl h ↦ (10000, ground arith, omega arith)
  | inr h ↦ (n, ground arith, ground arith)
]
clamp_range (negsuc n) = (0, ground arith, omega arith)

ratio_range : (a t : ℤ) → (n : ℕ) × (ratio a t ≡ pos n) × (n ≤ 10000)
unfolding ratio
ratio_range a t = elim (Bool-cases (leb_ℤ t (pos 0) || leb_ℤ a (pos 0))) [
  | inl h ↦ (0, rw h, omega arith)
  | inr h ↦ rw h (clamp_range (a *ℤ score_basis /ℤ t))
]

weigh :
    (m c n h f : ℕ)
    → m ≤ 10000
    → c ≤ 10000
    → n ≤ 10000
    → h ≤ 10000
    → f ≤ 10000
    → (pos m *ℤ pos 35 +ℤ pos c *ℤ pos 25 +ℤ pos n *ℤ pos 20 +ℤ pos h *ℤ pos 15 +ℤ pos f *ℤ pos 5)
        /ℤ pos 100
      ≡ pos ((m * 35 + c * 25 + n * 20 + h * 15 + f * 5) / 100)
weigh m c n h f a b d e g = rw (
  *ℤ_pos m 35 (omega arith),
  *ℤ_pos c 25 (omega arith),
  *ℤ_pos n 20 (omega arith),
  *ℤ_pos h 15 (omega arith),
  *ℤ_pos f 5 (omega arith),
  +ℤ_pos (m * 35) (c * 25) (omega arith),
  +ℤ_pos (m * 35 + c * 25) (n * 20) (omega arith),
  +ℤ_pos (m * 35 + c * 25 + n * 20) (h * 15) (omega arith),
  +ℤ_pos (m * 35 + c * 25 + n * 20 + h * 15) (f * 5) (omega arith),
  /ℤ_pos,
)

cache_range : (b : Bool) → (n : ℕ) × ((if b then score_basis else pos 0) ≡ pos n) × (n ≤ 10000)
cache_range true = (10000, refl, omega arith)
cache_range false = (0, refl, omega arith)

base_range : (c : Candidate) → (n : ℕ) × (base_score c ≡ pos n) × (n ≤ 10000)
unfolding base_score
base_range c =
    let (m, em, hm) = ratio_range c.available.memory_bytes c.total.memory_bytes in
    let (p, ep, hp) = ratio_range c.available.cpu_millicores c.total.cpu_millicores in
    let (n, en, hn) = ratio_range (c.max_concurrency -ℤ c.running_tasks) c.max_concurrency in
    let (h, eh, hh) = cache_range c.script_cached in
    let (f, ef, hf) = clamp_range c.fairness_score in
    (
      (m * 35 + p * 25 + n * 20 + h * 15 + f * 5) / 100,
      rw (em, ep, en, eh, ef) (weigh m p n h f hm hp hn hh hf),
      omega arith,
    )

abbrev weight_number : ℤ → ℕ
weight_number (pos w) = if ltb 0 w then w else 100
weight_number (negsuc _) = 100

-- A weight of 0 or less counts as 100.
abbrev pub effective_weight : Candidate → ℕ
effective_weight c = weight_number c.scheduling_weight

weight_of : (w : ℤ) → (if leb_ℤ w (pos 0) then pos 100 else w) ≡ pos (weight_number w)
weight_of (pos w) = ground arith
weight_of (negsuc w) = ground arith

scaled : (n w : ℕ) → n ≤ 10000 → w ≤ 922337203685477 → n * w ≤ 10000 * w
scaled n w h k = grind arith

weighted :
    (n w : ℕ)
    → n ≤ 10000
    → w ≤ 922337203685477
    → (s : ℕ) × (pos n *ℤ pos w /ℤ pos 100 ≡ pos s) × (s ≤ 100 * w)
weighted n w h k = (
  n * w / 100,
  rw (*ℤ_pos n w (omega (arith, scaled n w h k)), /ℤ_pos),
  omega (arith, scaled n w h k),
)

-- Whatever the reported amounts are, overflow of their products included, the score of a candidate
-- lies between 0 and a hundred times its weight, provided that the weight is at most
-- 922337203685477.
pub score_range :
    (run : Run) (c : Candidate)
    → effective_weight c ≤ 922337203685477
    → (s : ℕ) × (score run c ≡ pos s) × (s ≤ 100 * effective_weight c)
unfolding score
score_range run c h =
    let (n, e, b) = base_range c in
    rw (e, weight_of c.scheduling_weight) (weighted n (effective_weight c) b h)

ranks_before-IsStrictWeak : (run : Run) → IsStrictWeak (ranks_before run)
unfolding ranks_before
ranks_before-IsStrictWeak run = record {
  asym = λ a b h. ground (arith, str_less_asym a.server_id b.server_id);
  trans = λ a b c h k. ground (arith, str_less_trans a.server_id b.server_id c.server_id);
}

-- A higher score goes first, then the smaller server id.
pub data RanksBefore (run : Run) (a b : Candidate) : Type 0 where
  by_score : score run b <ℤ score run a → RanksBefore run a b
  by_server :
      score run a ≡ score run b → str_less a.server_id b.server_id ≡ true → RanksBefore run a b

-- Nothing stands behind what it ranks before.
abbrev pub Ranked : Run → List Candidate → Type 0
Ranked run [] = Unit
Ranked run (c ∷ cs) = All (λ d. RanksBefore run d c → ⊥) cs × Ranked run cs

score_first :
    (run : Run) (a b : Candidate) → score run b <ℤ score run a → ranks_before run a b ≡ true
unfolding ranks_before
score_first run a b h = ground (arith, h)

server_next :
    (run : Run) (a b : Candidate)
    → score run a ≡ score run b
    → str_less a.server_id b.server_id ≡ true
    → ranks_before run a b ≡ true
unfolding ranks_before
server_next run a b h k = ground (arith, h, k)

RanksBefore-ranks_before :
    (run : Run) (a b : Candidate) → RanksBefore run a b → ranks_before run a b ≡ true
RanksBefore-ranks_before run a b (RanksBefore.by_score h) = score_first run a b h
RanksBefore-ranks_before run a b (RanksBefore.by_server h k) = server_next run a b h k

each_behind :
    (run : Run) (c : Candidate) (cs : List Candidate)
    → All (λ d. ranks_before run d c ≡ false) cs
    → All (λ d. RanksBefore run d c → ⊥) cs
each_behind run c [] h = tt
each_behind run c (d ∷ ds) (h, hs) =
    ((λ p. clash (RanksBefore-ranks_before run d c p)), each_behind run c ds hs)
  where
    clash : ranks_before run d c ≡ true → ⊥
    clash g = ground (arith, g, h)

sorted-Ranked : (run : Run) (cs : List Candidate) → IsSorted (ranks_before run) cs → Ranked run cs
sorted-Ranked run [] h = tt
sorted-Ranked run (c ∷ cs) (h, hs) = (each_behind run c cs h, sorted-Ranked run cs hs)

-- The candidates are tried in an order that is a rearrangement of the list, in which no candidate stands
-- behind one with a lower score, nor behind one with the same score and a larger server id.
pub rank_candidates-Ranked :
    (run : Run) (cs : List Candidate)
    → Perm (rank_candidates run cs) cs × Ranked run (rank_candidates run cs)
unfolding rank_candidates
rank_candidates-Ranked run cs = (
  sort-perm (ranks_before run) cs,
  sorted-Ranked run (rank_candidates run cs)
      (sort-IsSorted (ranks_before run) (ranks_before-IsStrictWeak run) cs),
)
