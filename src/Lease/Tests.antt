-- ===== src/Lease/Tests.antt =====
-- The three scripts of internal/store/redis/lease.go on one server.
use konzhitai.Prelude.{ℕ, ◌≡◌, refl, true, some, List, [], ◌∷◌, lookup, erase}
use konzhitai.Prelude.Int.{pos, plus, minus}
use konzhitai.Task.{Resources}
use konzhitai.Lease.Scripts.{Server, empty_server, reserve, purge, release}
use konzhitai.Lease.Invariant.{IsBalanced}
use konzhitai.Lease.Limits.{Within, reserve_granted, release-reserve}
use konzhitai.Lease.Traces.{
  Script, reserves, releases, restores, run_scripts, run_scripts-IsBalanced, empty-IsBalanced,
}

abbrev amount : ℕ → Resources
amount n = record { cpu_millicores = pos n; memory_bytes = pos n; disk_bytes = pos n }

abbrev scripts : List Script
scripts =
    reserves 10 "r1" (amount 2) (amount 4) 20 "l1"
    ∷ restores "r2" (amount 1) 30 "l2"
    ∷ releases "r1"
    ∷ []

run_scripts-IsBalanced_example : IsBalanced (run_scripts empty_server scripts)
run_scripts-IsBalanced_example = run_scripts-IsBalanced scripts

-- One run holds 2 of each until 20.
abbrev held : Server
held = record {
  reserved = amount 2;
  amounts = ("r1", amount 2) ∷ [];
  expirations = ("r1", 20) ∷ [];
  leases = ("r1", "l1") ∷ [];
}

held-reserved : reserve 10 "r1" (amount 2) (amount 4) 20 "l1" empty_server ≡ (held, true)
unfolding reserve empty_server minus plus
held-reserved = refl

reserve_granted_example :
    (lookup "r1" held.amounts ≡ some (amount 2))
    × (lookup "r1" held.expirations ≡ some 20)
    × Within held (amount 4)
reserve_granted_example =
    reserve_granted 10 "r1" (amount 2) (amount 4) 20 "l1" empty_server held empty-IsBalanced
      held-reserved

release-reserve_example :
    release "r1" held
    ≡ record (purge 10 empty_server) { leases = erase "r1" (purge 10 empty_server).leases }
release-reserve_example =
    release-reserve 10 "r1" (amount 2) (amount 4) 20 "l1" empty_server held empty-IsBalanced
      held-reserved

abbrev one_script : List Script
one_script = reserves 10 "r1" (amount 2) (amount 4) 20 "l1" ∷ []

abbrev ran : Server
ran = run_scripts empty_server one_script
