-- ===== src/Affinity.antt =====
-- Affinity.c: the growing list of the CPUs that a process may run on. Asking and setting them are
-- calls of the platform.
mod Added
use htop.Prelude.{ℕ, ◌+◌, ◌-◌, ◌*◌, List, [], ◌∷◌, ◌++◌, ◌==◌, if◌then◌else◌, replicate, set}

pub record Affinity : Type 0 where
  pub size : ℕ
  pub used : ℕ
  pub cpus : List ℕ

unfoldable pub new : Affinity
new = record { size = 8; used = 0; cpus = replicate 8 0 }

-- `fresh` is what realloc leaves in the new half.
unfoldable pub add : (ℕ → List ℕ) → Affinity → ℕ → Affinity
add fresh a id =
    let b : Affinity =
      if a.used == a.size
      then record a { size = a.size * 2; cpus = a.cpus ++ fresh a.size }
      else a in
    record b { cpus = set b.cpus b.used id; used = b.used + 1 }
