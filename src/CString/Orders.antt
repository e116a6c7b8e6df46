-- ===== src/CString/Orders.antt =====
-- Comparing strings, and searching in them.
use elephant_os.Base.{
  ℕ, zero, suc, ◌+◌, ◌<◌, ◌≡◌, ◌≢◌, inl, inr, refl, List, [], ◌∷◌, some, ◌==◌, if◌then◌else◌,
  length, Mem, arith, done, Bool-cases, ==_self, ==_of_ne, u32,
}
use elephant_os.CString.{
  Sign, char_gt, strcmp_loop, strcmp, chr_loop, strchr, rchr_loop, strrchr, chrs_loop, strchrs,
}
use elephant_os.CString.Copies.{HasString}

-- the order of the first characters that differ, where a string that ends counts as a NUL
abbrev pub order : List ℕ → List ℕ → Sign
order [] [] = Sign.same
order [] (y ∷ ys) = if char_gt y 0 then Sign.minus else Sign.plus
order (x ∷ xs) [] = if char_gt x 0 then Sign.plus else Sign.minus
order (x ∷ xs) (y ∷ ys) =
    let rest = order xs ys in
    if x == y then rest else (if char_gt y x then Sign.minus else Sign.plus)

-- every character is a byte
abbrev pub AreBytes : List ℕ → Type 0
AreBytes [] = Unit {0}
AreBytes (x ∷ xs) = (x < 256) × AreBytes xs

strcmp_loop-order :
    (fuel : ℕ) (m : Mem) (a b : ℕ) (xs ys : List ℕ)
    → HasString m a xs
    → HasString m b ys
    → AreBytes xs
    → AreBytes ys
    → length xs < fuel
    → strcmp_loop fuel m a b ≡ some (order xs ys)
unfolding strcmp_loop
strcmp_loop-order zero m a b xs ys sx sy bx by short = absurd (omega arith)
strcmp_loop-order (suc fuel) m a b [] [] sx sy bx by short = ground (arith, sx, sy)
strcmp_loop-order (suc fuel) m a b [] (y ∷ ys) sx (ey, ny, sy) bx by short = ground arith
strcmp_loop-order (suc fuel) m a b (x ∷ xs) [] (ex, nx, sx) sy bx by short = ground arith
strcmp_loop-order (suc fuel) m a b (x ∷ xs) (y ∷ ys) (ex, nx, sx) (ey, ny, sy) bx by short =
    ground (arith, strcmp_loop-order fuel m (a + 1) (b + 1) xs ys sx sy bx.1 by.1 (omega arith))

order_same : (xs ys : List ℕ) → AreBytes xs → AreBytes ys → order xs ys ≡ Sign.same → xs ≡ ys
order_same [] [] bx by e = refl
order_same [] (y ∷ ys) bx by e = absurd (ground (arith, e))
order_same (x ∷ xs) [] bx by e = absurd (ground (arith, e))
order_same (x ∷ xs) (y ∷ ys) bx by e = elim (Bool-cases (x == y)) [
  | inl same_char ↦ ground (arith, order_same xs ys bx.1 by.1)
  | inr other ↦ absurd (ground arith)
]

order_self : (xs : List ℕ) → order xs xs ≡ Sign.same
order_self [] = refl
order_self (x ∷ xs) = rw ==_self (order_self xs)

-- With fuel for the first string and addresses that are not `NULL`, `strcmp` of two strings of
-- bytes gives the order of the first characters that differ, taken as signed; it is 0 just for
-- equal strings.
strcmp-order :
    (fuel : ℕ) (m : Mem) (a b : ℕ) (xs ys : List ℕ)
    → a ≢ 0
    → b ≢ 0
    → HasString m a xs
    → HasString m b ys
    → AreBytes xs
    → AreBytes ys
    → length xs < fuel
    → (strcmp fuel m a b ≡ done (some (order xs ys)))
      × (order xs ys ≡ Sign.same → xs ≡ ys)
      × (xs ≡ ys → order xs ys ≡ Sign.same)
unfolding strcmp
strcmp-order fuel m a b xs ys ha hb sx sy bx by short = (
  rw (==_of_ne a 0 ha, ==_of_ne b 0 hb, strcmp_loop-order fuel m a b xs ys sx sy bx by short) refl,
  order_same xs ys bx by,
  λ e. rw e (order_self ys),
)

-- the last position of the character, counted from `a`, or `d`
abbrev pub last_at : ℕ → List ℕ → ℕ → ℕ → ℕ
last_at ch [] a d = d
last_at ch (x ∷ xs) a d = last_at ch xs (a + 1) (if x == ch then a else d)

abbrev pub first_at : ℕ → List ℕ → ℕ → ℕ
first_at ch [] a = 0
first_at ch (x ∷ xs) a = let rest = first_at ch xs (a + 1) in if x == ch then a else rest

abbrev pub occurrences : ℕ → List ℕ → ℕ
occurrences ch [] = 0
occurrences ch (x ∷ xs) = let rest = occurrences ch xs in if x == ch then rest + 1 else rest

module _ (ch : ℕ) (ascii : ch < 128) where
  chr_loop_lem :
      (fuel : ℕ) (m : Mem) (a : ℕ) (xs : List ℕ)
      → HasString m a xs
      → length xs < fuel
      → chr_loop fuel m a ch ≡ some (first_at ch xs a)
  unfolding chr_loop
  chr_loop_lem zero m a xs s short = absurd (omega arith)
  chr_loop_lem (suc fuel) m a [] s short = ground (arith, s)
  chr_loop_lem (suc fuel) m a (x ∷ xs) (e, ne, s) short =
      ground (arith, chr_loop_lem fuel m (a + 1) xs s (omega arith))

  rchr_loop_lem :
      (fuel : ℕ) (m : Mem) (a d : ℕ) (xs : List ℕ)
      → HasString m a xs
      → length xs < fuel
      → rchr_loop fuel m a ch d ≡ some (last_at ch xs a d)
  unfolding rchr_loop
  rchr_loop_lem zero m a d xs s short = absurd (omega arith)
  rchr_loop_lem (suc fuel) m a d [] s short = ground (arith, s)
  rchr_loop_lem (suc fuel) m a d (x ∷ xs) (e, ne, s) short = ground (
    arith,
    rchr_loop_lem fuel m (a + 1) a xs s (omega arith),
    rchr_loop_lem fuel m (a + 1) d xs s (omega arith),
  )

  chrs_loop_lem :
      (fuel : ℕ) (m : Mem) (a n : ℕ) (xs : List ℕ)
      → HasString m a xs
      → length xs < fuel
      → n + length xs < 4294967296
      → chrs_loop fuel m a ch n ≡ some (n + occurrences ch xs)
  unfolding chrs_loop
  chrs_loop_lem zero m a n xs s short fit = absurd (omega arith)
  chrs_loop_lem (suc fuel) m a n [] s short fit = ground (arith, s)
  chrs_loop_lem (suc fuel) m a n (x ∷ xs) (e, ne, s) short fit =
      let small : u32 (n + 1) ≡ n + 1 = omega arith in
      ground (
        arith,
        chrs_loop_lem fuel m (a + 1) (n + 1) xs s (omega arith) (omega arith),
        chrs_loop_lem fuel m (a + 1) n xs s (omega arith) (omega arith),
      )

  -- With enough fuel, an address that is not `NULL` and a length below 2 ^ 32, for an ASCII
  -- character `strchr` and `strrchr` give the first and the last place in the string where it
  -- stands, or `NULL`, and `strchrs` counts such places.
  searches :
      (fuel : ℕ) (m : Mem) (a : ℕ) (xs : List ℕ)
      → a ≢ 0
      → HasString m a xs
      → length xs < fuel
      → length xs < 4294967296
      → (strchr fuel m a ch ≡ done (some (first_at ch xs a)))
        × (strrchr fuel m a ch ≡ done (some (last_at ch xs a 0)))
        × (strchrs fuel m a ch ≡ done (some (occurrences ch xs)))
  unfolding strchr strrchr strchrs
  searches fuel m a xs ha s short fit =
      let none_yet : 0 + occurrences ch xs ≡ occurrences ch xs = omega arith in
      (
        rw (==_of_ne a 0 ha, chr_loop_lem fuel m a xs s short) refl,
        rw (==_of_ne a 0 ha, rchr_loop_lem fuel m a 0 xs s short) refl,
        rw (==_of_ne a 0 ha, chrs_loop_lem fuel m a 0 xs s short (omega arith), none_yet) refl,
      )
