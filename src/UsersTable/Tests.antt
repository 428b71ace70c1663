-- ===== src/UsersTable/Tests.antt =====
-- A lookup that knows one user, over an empty table.
use htop.Prelude.{ℕ, ◌≡◌, refl, true, Option, none, some, arith, ◌==◌, if◌then◌else◌}
use htop.Hashtable.{Table, make}
use htop.Hashtable.Get.{get_sound}
use htop.Hashtable.Invariant.{make-IsValid}
use htop.UsersTable.{get_ref}
use htop.UsersTable.Cached.{IsCache, get_ref-IsCache}

-- Names are numbers here.
abbrev lookup : ℕ → Option ℕ
lookup uid = if uid == 0 then some 7 else none

fresh-IsCache : IsCache ◌==◌ lookup (make 13 true)
fresh-IsCache =
    let (valid, nothing) = make-IsValid {V = ℕ} 13 true (omega arith) in
    record {
      valid = valid;
      agrees = λ uid name h. absurd (nothing uid name (get_sound valid uid name h));
    }

fresh_size : (make {V = ℕ} 13 true).size ≡ 13
unfolding make
fresh_size = refl

get_ref-IsCache_example :
    (r : Table ℕ) × (get_ref ◌==◌ lookup (make 13 true) 0 ≡ some (some 7, r))
    × IsCache ◌==◌ lookup r
get_ref-IsCache_example =
    get_ref-IsCache ◌==◌ lookup (make 13 true) 0 fresh-IsCache (omega (arith, fresh_size))
      (omega (arith, fresh_size))
