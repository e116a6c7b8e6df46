-- ===== src/CString/PlainText.antt =====
-- What formatted output makes of a format without conversions.
use elephant_os.Base.{
  ℕ, zero, suc, ◌+◌, ◌-◌, ◌<◌, ◌≤◌, ◌≡◌, ◌≢◌, ◌⊎◌, inl, inr, refl, sym, ◌∙◌, true, false, ◌==◌,
  List, [], ◌∷◌, ◌++◌, some, has, update, fill, length, Mem, arith, done, ==_self, ==_of_ne,
  fill_lem, length-append,
}
use mathlib.Core.List.{append-nil}
use elephant_os.Base.Flow.{Flow, returns}
use elephant_os.CString.{strlen}
use elephant_os.CString.Copies.{HasString, HasString-agree, end_loop_lem}
use elephant_os.CString.Printing.{Output, print_loop, vsprintf, printf}

abbrev written : Output → Mem → ℕ → Output
written o m n = record o { memory = m; buf_ptr = o.buf_ptr + n; index_ptr = o.index_ptr + n }

-- what the loop does with a text: nothing but the bytes of the text are written
abbrev Prints : Output → List ℕ → Flow Output → Type 0
Prints o xs r =
    (m' : Mem) × (r ≡ returns (written o m' (length xs)))
    × ((rest : List ℕ)
        → HasString o.memory (o.buf_ptr + length xs) rest
        → HasString m' o.buf_ptr (xs ++ rest))
    × ((a : ℕ) → (a < o.buf_ptr) ⊎ (o.buf_ptr + length xs ≤ a) → m' a ≡ o.memory a)

plain_cons :
    (x : ℕ) (xs : List ℕ) → has 37 (x ∷ xs) ≡ false → ((x == 37) ≡ false) × (has 37 xs ≡ false)
plain_cons x xs e = (ground arith, ground arith)

-- after one character of the text
abbrev one_more : Output → Output
one_more o = record {
  memory = update o.memory o.buf_ptr (o.memory o.index_ptr);
  buf_ptr = o.buf_ptr + 1;
  index_ptr = o.index_ptr + 1;
  ap = o.ap;
}

update-other : (o : Output) (a : ℕ) → a ≢ o.buf_ptr → (one_more o).memory a ≡ o.memory a
update-other o a ne = let other = ==_of_ne a o.buf_ptr ne in rw other refl

print_loop_lem :
    (left fuel : ℕ) (o : Output) (xs : List ℕ)
    → HasString o.memory o.index_ptr xs
    → has 37 xs ≡ false
    → length xs < left
    → (o.buf_ptr + length xs ≤ o.index_ptr) ⊎ (o.index_ptr + length xs < o.buf_ptr)
    → Prints o xs (print_loop left fuel o)
unfolding print_loop
print_loop_lem zero fuel o xs s plain short apart = absurd (omega arith)
print_loop_lem (suc left) fuel o [] s plain short apart =
    let none : (o.memory o.index_ptr == 0) ≡ true = let z = s in ground (arith, z) in
    let b : o.buf_ptr + 0 ≡ o.buf_ptr = omega arith in
    let f : o.index_ptr + 0 ≡ o.index_ptr = omega arith in
    (o.memory, rw (print_loop, none, b, f) refl, λ rest t. rw (sym b) t, λ a out. refl)
print_loop_lem (suc left) fuel o (x ∷ xs) (e, ne, s) plain short apart =
    let some_char : (o.memory o.index_ptr == 0) ≡ false =
      ==_of_ne (o.memory o.index_ptr) 0 (λ z. ne (sym e ∙ z)) in
    let (char, plain') = plain_cons x xs plain in
    let text : (o.memory o.index_ptr == 37) ≡ false = rw e char in
    let m1 = (one_more o).memory in
    let side : (b : ℕ) → o.index_ptr + 1 ≤ b → b ≤ o.index_ptr + 1 + length xs → b ≢ o.buf_ptr =
      λ b lo hi z. elim apart [ inl le ↦ absurd (omega arith) | inr lt ↦ absurd (omega arith) ] in
    let (m', run, joined, outside) =
      print_loop_lem left fuel (one_more o) xs
        (HasString-agree o.memory m1 (o.index_ptr + 1) xs
          (λ b lo hi. update-other o b (side b lo hi)) s)
        plain' (omega arith)
        (elim apart [ inl le ↦ inl (omega arith) | inr lt ↦ inr (omega arith) ]) in
    let b : o.buf_ptr + 1 + length xs ≡ o.buf_ptr + suc (length xs) = omega arith in
    let f : o.index_ptr + 1 + length xs ≡ o.index_ptr + suc (length xs) = omega arith in
    (
      m',
      rw (print_loop, some_char, text, run, b, f) refl,
      λ rest t. (
        outside o.buf_ptr (inl (omega arith)) ∙ rw ==_self e,
        ne,
        joined rest (
            rw b (
              HasString-agree o.memory m1 (o.buf_ptr + suc (length xs)) rest
                (λ c lo hi. update-other o c (omega arith)) t)),
      ),
      λ a out.
          outside a (elim out [ inl lt ↦ inl (omega arith) | inr le ↦ inr (omega arith) ])
          ∙ update-other o a (elim out [ inl lt ↦ omega arith | inr le ↦ omega arith ]),
    )

strlen_lem :
    (fuel : ℕ) (m : Mem) (str : ℕ) (xs : List ℕ)
    → str ≢ 0
    → HasString m str xs
    → length xs < fuel
    → strlen fuel m str ≡ done (some (length xs))
unfolding strlen
strlen_lem fuel m str xs ne s short =
    let n : str + length xs + 1 - str - 1 ≡ length xs = omega arith in
    rw (==_of_ne str 0 ne, end_loop_lem fuel m str xs s short, n) refl

-- For a format without `%` that lies apart from the buffer, `vsprintf` writes the characters of the
-- format and nothing else, so not the NUL byte either: a string that stood in the buffer behind
-- them still ends the result, and the length returned counts it too.
pub vsprintf_lem :
    (fuel : ℕ) (m : Mem) (str format ap' : ℕ) (xs rest : List ℕ)
    → str ≢ 0
    → HasString m format xs
    → has 37 xs ≡ false
    → HasString m (str + length xs) rest
    → length (xs ++ rest) < fuel
    → (str + length xs ≤ format) ⊎ (format + length xs < str)
    → (m' : Mem) × (vsprintf fuel m str format ap' ≡ returns (length (xs ++ rest), m'))
      × HasString m' str (xs ++ rest)
      × ((a : ℕ) → (a < str) ⊎ (str + length xs ≤ a) → m' a ≡ m a)
unfolding vsprintf
vsprintf_lem fuel m str format ap' xs rest ne s plain t short apart =
    let fewer : length xs < fuel = omega (arith, length-append xs rest) in
    let (m', run, joined, outside) =
      print_loop_lem fuel fuel (record { memory = m; buf_ptr = str; index_ptr = format; ap = ap' })
        xs s plain fewer apart in
    (
      m',
      rw (run, strlen_lem fuel m' str (xs ++ rest) ne (joined rest t) short) refl,
      joined rest t,
      outside,
    )

printf-vsprintf :
    (fuel : ℕ) (m m' : Mem) (buf format args n : ℕ) (xs : List ℕ)
    → vsprintf fuel (fill m buf 0 1024) buf format args ≡ returns (n, m')
    → buf ≢ 0
    → HasString m' buf xs
    → length xs < fuel
    → printf fuel m buf format args ≡ returns (length xs, m')
unfolding printf
printf-vsprintf fuel m m' buf format args n xs run ne s short =
    rw (run, strlen_lem fuel m' buf xs ne s short) refl

-- A format without `%` of fewer than 1024 characters, apart from the buffer, is in the buffer as a
-- string after `printf` has filled it, and `write` is called with its length.
printf_lem :
    (fuel : ℕ) (m : Mem) (buf format args : ℕ) (xs : List ℕ)
    → buf ≢ 0
    → HasString m format xs
    → has 37 xs ≡ false
    → length xs < 1024
    → length xs < fuel
    → (buf + 1024 ≤ format) ⊎ (format + length xs < buf)
    → (m' : Mem) × (printf fuel m buf format args ≡ returns (length xs, m')) × HasString m' buf xs
printf_lem fuel m buf format args xs ne s plain small short apart =
    let m0 = fill m buf 0 1024 in
    let s0 =
      HasString-agree m m0 format xs
        (λ b lo hi. elim apart [
          | inl le ↦ ground (arith, fill_lem m buf 0 1024 b)
          | inr lt ↦ ground (arith, fill_lem m buf 0 1024 b)
        ])
        s in
    let nul : m0 (buf + length xs) ≡ 0 = ground (arith, fill_lem m buf 0 1024 (buf + length xs)) in
    let same : xs ++ [] ≡ xs = append-nil xs in
    let (m', run, out, outside) =
      vsprintf_lem fuel m0 buf format args xs [] ne s0 plain nul (rw same short)
        (elim apart [ inl le ↦ inl (omega arith) | inr lt ↦ inr lt ]) in
    let text = rw same at out in
    (m', printf-vsprintf fuel m m' buf format args _ xs run ne text short, text)
