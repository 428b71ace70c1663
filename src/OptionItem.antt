-- ===== src/OptionItem.antt =====
-- OptionItem.c: check boxes and numbers of the setup screens. An item made "by reference" reads and
-- writes a variable of the settings: its `ref` is an address in a store of such variables.
pub mod Check
pub mod Number
mod Tests
use htop.Prelude.{ℕ, ◌==◌, if◌then◌else◌}

abbrev pub Store {ℓ} : Type ℓ → Type ℓ
Store V = ℕ → V

abbrev pub write {ℓ} : {V : Type ℓ} → Store V → ℕ → V → Store V
write s a v b = if b == a then v else s b
