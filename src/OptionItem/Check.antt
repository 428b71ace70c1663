-- ===== src/OptionItem/Check.antt =====
-- The check boxes of OptionItem.c.
use htop.Prelude.{ℕ, ◌≡◌, ◌≢◌, Bool, false, not, Option, none, some, List, arith}
use htop.OptionItem.{Store, write}

pub record CheckItem : Type 0 where
  pub text : List ℕ
  pub value : Bool
  pub ref : Option ℕ

unfoldable pub new_by_ref : List ℕ → ℕ → CheckItem
new_by_ref text a = record { text = text; value = false; ref = some a }

unfoldable pub new_by_val : List ℕ → Bool → CheckItem
new_by_val text value = record { text = text; value = value; ref = none }

unfoldable pub get : Store Bool → CheckItem → Bool
get s c = elim c.ref [ some a ↦ s a | none ↦ c.value ]

unfoldable pub set : Store Bool → CheckItem → Bool → Store Bool × CheckItem
set s c value = elim c.ref [
  | some a ↦ (write s a value, c)
  | none ↦ (s, record c { value = value })
]

unfoldable pub toggle : Store Bool → CheckItem → Store Bool × CheckItem
toggle s c = elim c.ref [
  | some a ↦ (write s a (not (s a)), c)
  | none ↦ (s, record c { value = not c.value })
]

-- An item by value touches no variable, and one by reference no variable but its own.
abbrev pub Untouched : Store Bool → CheckItem → Store Bool → Type 0
Untouched s c s' = (b : ℕ) → c.ref ≢ some b → s' b ≡ s b

-- After `CheckItem_set` the item reads as the value set; after `CheckItem_toggle` as the opposite of
-- before, and after a second one as before. Neither changes a variable that the item does not
-- refer to, nor what the item refers to.
pub set_and_toggle_lem :
    (s : Store Bool) (c : CheckItem) (value : Bool)
    → let (s', c') = set s c value in
      let (t, d) = toggle s c in
      let (u, e) = toggle t d in
      (get s' c' ≡ value)
      × (get t d ≡ not (get s c))
      × (get u e ≡ get s c)
      × Untouched s c s'
      × Untouched s c t
      × (c'.ref ≡ c.ref)
      × (d.ref ≡ c.ref)
unfolding set toggle get
set_and_toggle_lem s c value = (
  ground arith,
  ground arith,
  ground arith,
  λ b ne. ground arith,
  λ b ne. ground arith,
  ground arith,
  ground arith,
)
