-- ===== src/Process/Update/Basename.antt =====
-- Where the basename of a command line and of an executable begins.
use htop.Prelude.{
  ℕ, zero, suc, ◌+◌, ◌-◌, ◌≤◌, ◌<◌, ◌≡◌, refl, ap, ◌∙◌, ◌⊎◌, inl, inr, not, Option, none, some,
  List, [], ◌∷◌, arith, ◌==◌, ◌&&◌, Bool-cases, get_or,
}
use htop.Process.Update.{skip_loop, skip_potential_path, last_slash, exe_basename_offset}

-- A basename begins at the start or behind a slash.
abbrev pub IsBehindSlash : List ℕ → ℕ → Type 0
IsBehindSlash s i = (i ≡ 0) ⊎ ((0 < i) × (get_or s (i - 1) 0 ≡ b'/'))

skip_loop-IsBehindSlash :
    (s : List ℕ) (n i slash : ℕ)
    → slash ≤ i
    → IsBehindSlash s slash
    → IsBehindSlash s (skip_loop s n i slash) × (skip_loop s n i slash ≤ i + n)
unfolding skip_loop
skip_loop-IsBehindSlash s zero i slash le h = (h, omega arith)
skip_loop-IsBehindSlash s (suc n) i slash le h =
    let c = get_or s i 0 in
    let after = get_or s (i + 1) 0 in
    elim (Bool-cases (c == b'/' && not (after == 0))) [
      | inl step ↦
          let e : i + 1 - 1 ≡ i = omega arith in
          let at : get_or s (i + 1 - 1) 0 ≡ b'/' =
            ap (λ k. get_or s k 0) e ∙ ground (arith, step) in
          let (a, b) =
            skip_loop-IsBehindSlash s n (i + 1) (i + 1) (omega arith) (inr (omega arith, at)) in
          rw (skip_loop, step) (a, omega (arith, b))
      | inr on ↦ elim (Bool-cases (c == b' ' && not (get_or s (i - 1) 0 == 92))) [
        | inl stop ↦ rw (skip_loop, on, stop) (h, omega arith)
        | inr on' ↦ elim (Bool-cases (c == b':' && after == b' ')) [
          | inl stop ↦ rw (skip_loop, on, on', stop) (h, omega arith)
          | inr on'' ↦
              let (a, b) = skip_loop-IsBehindSlash s n (i + 1) slash (omega arith) h in
              rw (skip_loop, on, on', on'') (a, omega (arith, b))
        ]
      ]
    ]

-- The basename that `skipPotentialPath` finds begins at the start of the command line or behind a
-- slash, and not behind `end`.
pub skip_potential_path-IsBehindSlash :
    (s : List ℕ) (end : ℕ)
    → 0 < end
    → IsBehindSlash s (skip_potential_path s end) × (skip_potential_path s end ≤ end)
unfolding skip_potential_path
skip_potential_path-IsBehindSlash s end h = elim (Bool-cases (get_or s 0 0 == b'/')) [
  | inl path ↦
      let (a, b) = skip_loop-IsBehindSlash s (end - 1) 1 0 (omega arith) (inl refl) in
      rw path (a, omega (arith, b))
  | inr plain ↦ rw plain (inl refl, omega arith)
]

-- No slash, or one at `k`, counted from `i`.
abbrev IsSlash : List ℕ → ℕ → Option ℕ → Type 0
IsSlash s i o = (o ≡ none) ⊎ ((k : ℕ) × (o ≡ some (i + k)) × (get_or s k 0 ≡ b'/'))

last_slash-IsSlash : (s : List ℕ) (i : ℕ) → IsSlash s i (last_slash s i)
unfolding last_slash
last_slash-IsSlash [] i = inl refl
last_slash-IsSlash (c ∷ cs) i = elim (last_slash-IsSlash cs (i + 1)) [
  | inr (k, e, at) ↦
      let place : i + 1 + k ≡ i + suc k = omega arith in
      inr (suc k, rw (last_slash, e) (ap some place), at)
  | inl none_later ↦ elim (Bool-cases (c == b'/')) [
    | inl here ↦
        let place : i ≡ i + 0 = omega arith in
        inr (0, rw (last_slash, none_later, here) (ap some place), ground arith)
    | inr other ↦ inl (rw (last_slash, none_later, other) refl)
  ]
]

-- So does the basename of an executable's path.
pub exe_basename_offset-IsBehindSlash : (exe : List ℕ) → IsBehindSlash exe (exe_basename_offset exe)
unfolding exe_basename_offset
exe_basename_offset-IsBehindSlash exe = elim (last_slash-IsSlash exe 0) [
  | inl e ↦ rw (exe_basename_offset, e) (inl refl)
  | inr (k, e, at) ↦
      let plain : last_slash exe 0 ≡ some k = e ∙ ap some (omega arith) in
      elim (Bool-cases (not (get_or exe (k + 1) 0 == 0) && not (k == 0))) [
        | inl cut ↦
            let back : k + 1 - 1 ≡ k = omega arith in
            rw (exe_basename_offset, plain, cut)
              (inr (omega arith, ap (λ j. get_or exe j 0) back ∙ at))
        | inr whole ↦ rw (exe_basename_offset, plain, whole) (inl refl)
      ]
]
