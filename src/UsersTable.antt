-- ===== src/UsersTable.antt =====
-- UsersTable.c: the names of users, looked up once and kept in a hash table. `lookup` is getpwuid:
-- the user's name, or `none` if there is no such user. Names are compared as pointers by `same`.
pub mod Cached
mod Tests
use htop.Prelude.{ℕ, Bool, true, Option, none, some, List}
use htop.Hashtable
use htop.Hashtable.{Table}

module _ {ℓ} {V : Type ℓ} where
  unfoldable pub new : Option (Table V)
  new = Hashtable.new 10 true

module _ {ℓ} {V : Type ℓ} (same : V → V → Bool) (lookup : ℕ → Option V) where
  -- The name, and the table; `none` is a fatal error of the hash table.
  unfoldable pub get_ref : Table V → ℕ → Option (Option V × Table V)
  get_ref t uid = elim (Hashtable.get t uid) [
    | some name ↦ some (some name, t)
    | none ↦ elim (lookup uid) [
      | none ↦ some (none, t)
      | some name ↦ elim (Hashtable.put same t uid name) [
        | none ↦ none
        | some (t', freed) ↦ some (some name, t')
      ]
    ]
  ]
