-- ===== src/Lease/Scripts.antt =====
-- reserveScript, releaseScript and restoreScript. What is packed is three amounts above zero, so
-- `string.match` always finds them. Times are milliseconds.
use konzhitai.Prelude.{
  ℕ, Bool, true, false, ◌||◌, String, Map, lookup, insert, erase, none, some, List, [], ◌∷◌, leb,
  if◌then◌else◌,
}
use konzhitai.Prelude.Int.{pos, ltb_ℤ, plus, minus}
use konzhitai.Task.{Resources}

pub record Server : Type 0 where
  pub reserved : Resources
  pub amounts : Map Resources
  pub expirations : Map ℕ
  pub leases : Map String

abbrev pub nothing : Resources
nothing = record { cpu_millicores = pos 0; memory_bytes = pos 0; disk_bytes = pos 0 }

unfoldable pub empty_server : Server
empty_server = record { reserved = nothing; amounts = []; expirations = []; leases = [] }

-- Three `HINCRBY` calls.
abbrev pub add_amounts : Resources → Resources → Resources
add_amounts a b = record {
  cpu_millicores = plus a.cpu_millicores b.cpu_millicores;
  memory_bytes = plus a.memory_bytes b.memory_bytes;
  disk_bytes = plus a.disk_bytes b.disk_bytes;
}

abbrev pub sub_amounts : Resources → Resources → Resources
sub_amounts a b = record {
  cpu_millicores = minus a.cpu_millicores b.cpu_millicores;
  memory_bytes = minus a.memory_bytes b.memory_bytes;
  disk_bytes = minus a.disk_bytes b.disk_bytes;
}

-- Gives the amounts of a run back and takes it off the expirations: the body of the loop of
-- reserveScript, and the first part of releaseScript.
unfoldable pub forget : String → Server → Server
forget run_id s = elim (lookup run_id s.amounts) [
  | none ↦ record s { expirations = erase run_id s.expirations }
  | some packed ↦ record s {
    reserved = sub_amounts s.reserved packed;
    amounts = erase run_id s.amounts;
    expirations = erase run_id s.expirations;
  }
]

-- `ZRANGEBYSCORE expirations -inf now`
abbrev pub expired : ℕ → Map ℕ → List String
expired now [] = []
expired now ((run_id, expires) ∷ m) =
    let rest = expired now m in if leb expires now then run_id ∷ rest else rest

abbrev pub forget_all : List String → Server → Server
forget_all [] s = s
forget_all (run_id ∷ runs) s = forget_all runs (forget run_id s)

unfoldable pub purge : ℕ → Server → Server
unfolding forget
purge now s = forget_all (expired now s.expirations) s

abbrev pub exceeds : Resources → Resources → Resources → Bool
exceeds required available reserved =
    ltb_ℤ (minus available.cpu_millicores reserved.cpu_millicores) required.cpu_millicores
    || ltb_ℤ (minus available.memory_bytes reserved.memory_bytes) required.memory_bytes
    || ltb_ℤ (minus available.disk_bytes reserved.disk_bytes) required.disk_bytes

abbrev pub take_amounts : String → Resources → ℕ → String → Server → Server
take_amounts run_id required expires lease_id s = record {
  reserved = add_amounts s.reserved required;
  amounts = insert run_id required s.amounts;
  expirations = insert run_id expires s.expirations;
  leases = insert run_id lease_id s.leases;
}

-- The part of reserveScript behind the loop.
unfoldable pub reserve_in : String → Resources → Resources → ℕ → String → Server → Server × Bool
reserve_in run_id required available expires lease_id s = elim (lookup run_id s.amounts) [
  | some _ ↦ (s, false)
  | none ↦
      if exceeds required available s.reserved
      then (s, false)
      else (take_amounts run_id required expires lease_id s, true)
]

unfoldable pub reserve : ℕ → String → Resources → Resources → ℕ → String → Server → Server × Bool
unfolding purge reserve_in
reserve now run_id required available expires lease_id s =
    reserve_in run_id required available expires lease_id (purge now s)

unfoldable pub release : String → Server → Server
unfolding forget
release run_id s = let t = forget run_id s in record t { leases = erase run_id t.leases }

unfoldable pub restore : String → Resources → ℕ → String → Server → Server
restore run_id required expires lease_id s =
    let held : Resources = elim (lookup run_id s.amounts) [
      | none ↦ add_amounts s.reserved required
      | some old ↦ add_amounts s.reserved (sub_amounts required old)
    ] in
    record {
      reserved = held;
      amounts = insert run_id required s.amounts;
      expirations = insert run_id expires s.expirations;
      leases = insert run_id lease_id s.leases;
    }
