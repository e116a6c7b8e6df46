-- ===== src/Files/Paths.antt =====
-- The depth of a path is the number of its names.
use elephant_os.Base.{
  ℕ, zero, suc, ◌+◌, ◌<◌, ◌≤◌, ◌≡◌, ◌⊎◌, inl, inr, refl, ap, ◌∙◌, Bool, true, false, List, [], ◌∷◌,
  Option, none, some, ◌==◌, leb, not, ◌&&◌, if◌then◌else◌, arith, length, Bool-cases, List-cases,
}
use mathlib.Core.Path.{sym, subst}
use elephant_os.Files.{
  Depth, levels, overrun, slash, skip_slashes, split_name, path_parse, depth_loop, first_depth,
  path_depth_cnt,
}

-- the names in a path: a name begins at a character that is no slash behind a slash or at the start
abbrev pub names_from : (inside : Bool) → List ℕ → ℕ
names_from inside [] = 0
names_from inside (c ∷ path) =
    let out = names_from false path in
    let more = names_from true path in
    if c == slash then out else (if inside then more else more + 1)

-- whether the next name, which goes on to the next slash, has at most `room` characters, and each
-- name behind it at most 16
abbrev pub names_fit : ℕ → List ℕ → Bool
names_fit room [] = true
names_fit zero (c ∷ path) = let out = names_fit 16 path in if c == slash then out else false
names_fit (suc room) (c ∷ path) =
    let out = names_fit 16 path in
    let more = names_fit room path in if c == slash then out else more

fit_split :
    (room : ℕ) (path : List ℕ)
    → names_fit room path
      ≡ (leb (length (split_name path).0) room && names_fit 16 (split_name path).1)
unfolding split_name
fit_split room [] = ground arith
fit_split zero (c ∷ path) = ground arith
fit_split (suc room) (c ∷ path) = ground (arith, fit_split room path)

names_split : (path : List ℕ) → names_from false (split_name path).1 ≡ names_from true path
unfolding split_name
names_split [] = refl
names_split (c ∷ path) = ground (arith, names_split path)

length-skip : (path : List ℕ) → length (skip_slashes path) ≤ length path
unfolding skip_slashes
length-skip [] = omega arith
length-skip (c ∷ path) = ground (arith, length-skip path)

length-split :
    (path : List ℕ) → length (split_name path).0 + length (split_name path).1 ≡ length path
unfolding split_name
length-split [] = omega arith
length-split (c ∷ path) = ground (arith, length-split path)

module _ (c : ℕ) (path : List ℕ) (other : (c == slash) ≡ false) where
  skip_other : skip_slashes (c ∷ path) ≡ c ∷ path
  unfolding skip_slashes
  skip_other = rw other refl

  split_other : split_name (c ∷ path) ≡ (c ∷ (split_name path).0, (split_name path).1)
  unfolding split_name
  split_other = rw other refl

  names_other : names_from false (c ∷ path) ≡ suc (names_from false (split_name path).1)
  names_other = rw (other, names_split path) (omega arith)

  fit_other :
      names_fit 16 (c ∷ path)
      ≡ (leb (length (split_name path).0) 15 && names_fit 16 (split_name path).1)
  fit_other = rw (other, fit_split 15 path) refl

skip_slash :
    (c : ℕ) (path : List ℕ)
    → (c == slash) ≡ true
    → (skip_slashes (c ∷ path) ≡ skip_slashes path)
      × (names_from false (c ∷ path) ≡ names_from false path)
      × (names_fit 16 (c ∷ path) ≡ names_fit 16 path)
unfolding skip_slashes
skip_slash c path e = rw e (refl, refl, refl)

-- the next name, if there is one, and the names behind it
abbrev Parsed : List ℕ × List ℕ → ℕ → Bool → Type 0
Parsed s n fit =
    ((s.0 ≡ []) × (n ≡ 0) × (fit ≡ true))
    ⊎ ((c : ℕ) × (name : List ℕ) × (s.0 ≡ c ∷ name)
        × (n ≡ suc (names_from false s.1))
        × (fit ≡ (leb (length name) 15 && names_fit 16 s.1)))

Parsed-same :
    {s s' : List ℕ × List ℕ} {n n' : ℕ} {fit fit' : Bool}
    → s ≡ s'
    → n ≡ n'
    → fit ≡ fit'
    → Parsed s' n' fit'
    → Parsed s n fit
Parsed-same {s} {s'} {n} {n'} {fit} {fit'} es en ef p =
    subst (λ x. Parsed x n fit) (sym es)
      (subst (λ x. Parsed s' x fit) (sym en) (subst (λ x. Parsed s' n' x) (sym ef) p))

names_parse :
    (path : List ℕ)
    → Parsed (split_name (skip_slashes path)) (names_from false path) (names_fit 16 path)
names_parse [] = inl (unfold skip_slashes split_name in refl, refl, refl)
names_parse (c ∷ path) = elim (Bool-cases (c == slash)) [
  | inl e ↦
      let (skip, names, fit) = skip_slash c path e in
      Parsed-same (ap split_name skip) names fit (names_parse path)
  | inr other ↦
      Parsed-same (ap split_name (skip_other c path other) ∙ split_other c path other)
        (names_other c path other) (fit_other c path other)
        (inr (c, (split_name path).0, refl, refl, refl))
]

shorter :
    (path : List ℕ) (c : ℕ) (name : List ℕ)
    → (split_name (skip_slashes path)).0 ≡ c ∷ name
    → length (split_name (skip_slashes path)).1 < length path
shorter path c name e =
    let one : length (split_name (skip_slashes path)).0 ≡ suc (length name) = ap length e in
    omega (arith, one, length-split (skip_slashes path), length-skip path)

depth_done :
    (fuel c depth : ℕ) (name : List ℕ) (p : Option (List ℕ))
    → (depth_loop (suc fuel) ([], p) depth ≡ some (levels depth))
      × (depth_loop (suc fuel) (c ∷ name, none) depth
          ≡ some (if leb (length name) 15 then levels (depth + 1) else overrun))
unfolding depth_loop
depth_done fuel c depth name p = (refl, refl)

depth_more :
    (fuel c depth : ℕ) (name p : List ℕ)
    → depth_loop (suc fuel) (c ∷ name, some p) depth
      ≡ (if leb (length name) 15 then depth_loop fuel (path_parse p) (depth + 1) else some overrun)
unfolding depth_loop
depth_more fuel c depth name p = refl

some_if : (a : Bool) (x y : Depth) → some (if a then x else y) ≡ some (if a && true then x else y)
some_if true x y = refl
some_if false x y = refl

some_and :
    (a b : Bool) (x y : Depth)
    → (if a then some (if b then x else y) else some y) ≡ some (if a && b then x else y)
some_and true b x y = refl
some_and false b x y = refl

-- the depth that is counted for a path
abbrev counted : ℕ → List ℕ → Depth
counted depth path = if names_fit 16 path then levels (depth + names_from false path) else overrun

depth_loop-names :
    (fuel : ℕ) (path : List ℕ) (depth : ℕ)
    → length path < fuel
    → depth_loop fuel (path_parse path) depth ≡ some (counted depth path)
unfolding path_parse
depth_loop-names zero path depth short = absurd (omega arith)
depth_loop-names (suc fuel) path depth short = elim (names_parse path) [
  | inl (no_name, none_left, fit) ↦
      let sum : depth + names_from false path ≡ depth = omega arith in
      rw (no_name, sum, fit) ((depth_done fuel 0 depth [] _).0)
  | inr (c, name, e, count, fit) ↦
      let rest = (split_name (skip_slashes path)).1 in
      elim (List-cases rest) [
        | inl end ↦
            let last : names_from false rest ≡ 0 = ap (names_from false) end in
            let room : names_fit 16 rest ≡ true = ap (names_fit 16) end in
            let one : depth + names_from false path ≡ depth + 1 = omega arith in
            rw (one, fit, room, e, end)
              ((depth_done fuel c depth name none).1
                ∙ some_if (leb (length name) 15) (levels (depth + 1)) overrun)
        | inr (x, xs, more) ↦
            let less = shorter path c name e in
            let size : length rest ≡ suc (length xs) = ap length more in
            let left : names_from false rest ≡ names_from false (x ∷ xs) =
              ap (names_from false) more in
            let room : names_fit 16 rest ≡ names_fit 16 (x ∷ xs) = ap (names_fit 16) more in
            let next = depth_loop-names fuel (x ∷ xs) (depth + 1) (omega arith) in
            let sum : depth + names_from false path ≡ depth + 1 + names_from false (x ∷ xs) =
              omega arith in
            rw (sum, fit, room, e, more)
              (depth_more fuel c depth name (x ∷ xs)
                ∙ rw next (
                    some_and (leb (length name) 15) (names_fit 16 (x ∷ xs))
                      (levels (depth + 1 + names_from false (x ∷ xs))) overrun))
      ]
]

-- With fuel for its length, `path_depth_cnt` overruns its buffer just if some name of the path has
-- more than 16 characters. Otherwise it gives the number of names, where any number of slashes may
-- stand before, between and behind them, except that a path without a name has depth 1 if the
-- first byte of the buffer was not clear.
pub path_depth_cnt-names :
    (fuel first_byte : ℕ) (path : List ℕ)
    → length path < fuel
    → path_depth_cnt fuel first_byte path
      ≡ some (
          if names_fit 16 path
          then levels (
              if (names_from false path == 0) && not (first_byte == 0)
              then 1
              else names_from false path)
          else overrun)
unfolding path_depth_cnt first_depth path_parse
path_depth_cnt-names fuel first_byte path short = elim (names_parse path) [
  | inl (no_name, none_left, fit) ↦
      rw (path_parse, no_name, none_left, fit)
        (elim (Bool-cases (first_byte == 0)) [ inl clear ↦ rw clear refl | inr set ↦ rw set refl ])
  | inr (c, name, e, count, fit) ↦
      let some_name : (names_from false path == 0) ≡ false = ground (arith, count) in
      let start : first_depth fuel first_byte (path_parse path)
          ≡ depth_loop fuel (path_parse path) 0 =
        rw (path_parse, e) refl in
      let sum : 0 + names_from false path ≡ names_from false path = omega arith in
      rw (some_name, ← sum) (start ∙ depth_loop-names fuel path 0 short)
]
