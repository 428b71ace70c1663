-- ===== src/Panel/Typing/Found.antt =====
-- Typing never overruns its buffer, and selects a line that matches.
use htop.Prelude.{
  ℕ, min, ◌+◌, ◌-◌, ◌≤◌, ◌<◌, ◌≡◌, refl, ap, ◌∙◌, Bool, true, none, some, inl, inr, List, [], ◌∷◌,
  map, arith, ltb, ◌&&◌, Bool-cases, Option-cases, length, take, get_elem?, get_elem?-lt,
  length-append, length-take,
}
use htop.Prelude.Int.{ℤ, pos, pos_part, ltb_ℤ}
use htop.Vector.Contents.{Holds}
use htop.Vector.Refine.{length-Holds}
use htop.Vector.Access.{find_index, find_index-some, find_index-none}
use htop.Panel.{Panel, set_selected}
use htop.Panel.Selection.{set_selected-InBounds}
use htop.Panel.Typing.{
  handled, buffer_max, skip_spaces, find_line, typed_char, typed_at, type_char, try_twice,
  select_by_typing,
}

length-type_char :
    (buffer : List ℕ) (ch : ℕ)
    → length buffer ≤ buffer_max
    → length (type_char buffer ch) ≤ buffer_max
unfolding type_char
length-type_char buffer ch h = ground (
  arith,
  length-append (take (typed_at buffer) buffer) (ch ∷ []),
  length-take (typed_at buffer) buffer,
)

module _ {ℓ} {A : Type ℓ} (is_graph : ℕ → Bool) (begins : List ℕ → List ℕ → Bool)
    (value : A → List ℕ) where
  abbrev pub matches : List ℕ → A → Bool
  matches buffer x = begins (skip_spaces (value x)) buffer

  find_line-map :
      (buffer : List ℕ) (xs : List A) (i : ℕ)
      → find_line is_graph begins value buffer (map some xs) i ≡ find_index (matches buffer) xs i
  unfolding find_line
  find_line-map buffer [] i = refl
  find_line-map buffer (x ∷ xs) i = rw (find_line-map buffer xs (i + 1))

  typed-try_twice :
      (p : Panel A) (ch : ℕ)
      → length p.typed ≤ buffer_max
      → length (try_twice is_graph begins value none p ch).typed ≤ buffer_max
  unfolding try_twice set_selected
  typed-try_twice p ch h = ground arith

  -- What has been typed never outgrows the buffer of 100 characters with its NUL, whatever the key.
  pub typed-select_by_typing :
      (p : Panel A) (ch : ℤ)
      → length p.typed ≤ buffer_max
      → length (select_by_typing is_graph begins value none p ch).1.typed ≤ buffer_max
  unfolding select_by_typing
  typed-select_by_typing p ch h = elim (Option-cases (typed_char p.typed (pos_part ch))) [
    | inl e ↦ rw (select_by_typing, e) (ground arith)
    | inr (c, e) ↦
        let q : Panel A = record p { typed = type_char p.typed c } in
        rw (select_by_typing, e) (ground (arith, length-type_char p.typed c, typed-try_twice q c))
  ]

  typed_kept : (q : Panel A) (n : ℕ) → (set_selected none q (pos n)).typed ≡ q.typed
  unfolding set_selected
  typed_kept q n = refl

  -- The first of the two tries, where some line matches.
  first_try :
      (p : Panel A) (xs : List A) (c j : ℕ) (y : A)
      → Holds xs p.items
      → get_elem? xs j ≡ some y
      → matches p.typed y ≡ true
      → (n : ℕ) × (x : A) × (n ≤ j)
        × (get_elem? xs n ≡ some x)
        × (matches p.typed x ≡ true)
        × (try_twice is_graph begins value none p c ≡ set_selected none p (pos n))
  unfolding try_twice
  first_try p xs c j y h ey my =
      let p_of = matches p.typed in
      let same : find_line is_graph begins value p.typed (take p.items.items p.items.array) 0
          ≡ find_index p_of xs 0 =
        ap (λ l. find_line is_graph begins value p.typed l 0) h.held ∙ find_line-map p.typed xs 0 in
      elim (Option-cases (find_index p_of xs 0)) [
        | inl nowhere ↦ let no = find_index-none p_of xs 0 j y nowhere ey in cc
        | inr (n, e) ↦
            let (x, _, at, hit, before) = find_index-some p_of xs 0 n e in
            let off : n - 0 ≡ n = omega arith in
            let least : n ≤ j = elim (Bool-cases (ltb j n)) [
              | inl earlier ↦ let no = before j y (ground arith) ey in cc
              | inr late ↦ ground arith
            ] in
            (n, x, least, rw off at at, hit, rw (try_twice, same ∙ e))
      ]

  -- A typed character that is put into the buffer as `c` selects the first line that begins with
  -- the new buffer, wherever there is such a line.
  pub select_by_typing-finds :
      (p : Panel A) (xs : List A) (ch c j : ℕ) (y : A)
      → Holds xs p.items
      → 0 < ch
      → ch < 255
      → is_graph ch ≡ true
      → typed_char p.typed ch ≡ some c
      → get_elem? xs j ≡ some y
      → matches (type_char p.typed c) y ≡ true
      → let (result, q) = select_by_typing is_graph begins value none p (pos ch) in
        (result ≡ handled)
        × (q.typed ≡ type_char p.typed c)
        × ((n : ℕ) × (x : A) × (q.selected ≡ pos n)
            × (n ≤ j)
            × (get_elem? xs n ≡ some x)
            × (matches (type_char p.typed c) x ≡ true))
  unfolding select_by_typing
  select_by_typing-finds p xs ch c j y h lo hi graph e ey my =
      let q : Panel A = record p { typed = type_char p.typed c } in
      let (n, x, least, at, hit, run) = first_try q xs c j y h ey my in
      let (_, _, exact) = set_selected-InBounds q (pos n) n in
      let least_is_n : min n (p.items.items - 1) ≡ n =
        omega (arith, get_elem?-lt xs n at, length-Holds h) in
      let selected = exact ∙ ap pos least_is_n in
      let in_range : (ltb_ℤ (pos 0) (pos ch) && ltb_ℤ (pos ch) (pos 255) && is_graph ch) ≡ true =
        ground arith in
      rw (select_by_typing, in_range, e, run)
        (refl, typed_kept q n, (n, x, selected, least, at, hit))
