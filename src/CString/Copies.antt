-- ===== src/CString/Copies.antt =====
-- Copying, measuring and joining strings.
use elephant_os.Base.{
  ℕ, zero, suc, ◌+◌, ◌-◌, ◌<◌, ◌≤◌, ◌≡◌, ◌≢◌, ◌⊎◌, inl, inr, refl, ◌∙◌, true, false, ◌&&◌, List, [],
  ◌∷◌, ◌++◌, some, ltb, leb, if◌then◌else◌, update, length, Mem, arith, done, ==_self, ==_of_ne,
}
use mathlib.Core.Path.{subst}
use elephant_os.CString.{copy_loop, memcpy, strcpy_loop, end_loop, strlen, strcat}

-- the NUL-terminated string at `a`
abbrev pub HasString : Mem → ℕ → List ℕ → Type 0
HasString m a [] = m a ≡ 0
HasString m a (x ∷ xs) = (m a ≡ x) × (x ≢ 0) × HasString m (a + 1) xs

copy_loop_lem :
    (m : Mem) (dst src size a : ℕ)
    → (dst ≤ src) ⊎ (src + size ≤ dst)
    → copy_loop m dst src size a
      ≡ (if leb dst a && ltb a (dst + size) then m (src + (a - dst)) else m a)
unfolding copy_loop
copy_loop_lem m dst src zero a apart = ground arith
copy_loop_lem m dst src (suc size) a apart =
    let apart' : (dst + 1 ≤ src + 1) ⊎ (src + 1 + size ≤ dst + 1) = elim apart [
      | inl le ↦ inl (omega arith)
      | inr le ↦ inr (omega arith)
    ] in
    let rest = copy_loop_lem (update m dst (m src)) (dst + 1) (src + 1) size a apart' in
    let slide : leb (dst + 1) a ≡ true → src + 1 + (a - (dst + 1)) ≡ src + (a - dst) =
      λ h. ground arith in
    let first : leb (dst + 1) a ≡ false → leb dst a ≡ true → (a ≡ dst) × (src + (a - dst) ≡ src) =
      λ h k. ground arith in
    elim apart [ inl le ↦ ground (arith, rest) | inr le ↦ ground (arith, rest) ]

-- Unless the destination lies inside the source behind its start, `memcpy` copies the bytes of the
-- source as they were and changes no other byte.
memcpy_lem :
    (m : Mem) (dst src size : ℕ)
    → dst ≢ 0
    → src ≢ 0
    → (dst ≤ src) ⊎ (src + size ≤ dst)
    → (m' : Mem) × (memcpy m dst src size ≡ done m')
      × ((i : ℕ) → i < size → m' (dst + i) ≡ m (src + i))
      × ((a : ℕ) → (a < dst) ⊎ (dst + size ≤ a) → m' a ≡ m a)
unfolding memcpy
memcpy_lem m dst src size hd hs apart = (
  copy_loop m dst src size,
  rw (==_of_ne dst 0 hd, ==_of_ne src 0 hs) refl,
  λ i lt.
      let at : src + (dst + i - dst) ≡ src + i = omega arith in
      ground (arith, copy_loop_lem m dst src size (dst + i) apart),
  λ a out. elim out [
    | inl lo ↦ ground (arith, copy_loop_lem m dst src size a apart)
    | inr hi ↦ ground (arith, copy_loop_lem m dst src size a apart)
  ],
)

pub end_loop_lem :
    (fuel : ℕ) (m : Mem) (a : ℕ) (xs : List ℕ)
    → HasString m a xs
    → length xs < fuel
    → end_loop fuel m a ≡ some (a + length xs + 1)
unfolding end_loop
end_loop_lem zero m a xs s short = absurd (omega arith)
end_loop_lem (suc fuel) m a [] s short = ground (arith, s)
end_loop_lem (suc fuel) m a (x ∷ xs) (e, ne, s) short =
    ground (arith, end_loop_lem fuel m (a + 1) xs s (omega arith))

pub HasString-agree :
    (m m' : Mem) (a : ℕ) (xs : List ℕ)
    → ((b : ℕ) → a ≤ b → b ≤ a + length xs → m' b ≡ m b)
    → HasString m a xs
    → HasString m' a xs
HasString-agree m m' a [] agree s = agree a (omega arith) (omega arith) ∙ s
HasString-agree m m' a (x ∷ xs) agree (e, ne, s) = (
  agree a (omega arith) (omega arith) ∙ e,
  ne,
  HasString-agree m m' (a + 1) xs (λ b lo hi. agree b (omega arith) (omega arith)) s,
)

-- The copy of a string that lies apart from its destination.
strcpy_loop_lem :
    (fuel : ℕ) (m : Mem) (dst src : ℕ) (xs : List ℕ)
    → HasString m src xs
    → length xs < fuel
    → (src + length xs < dst) ⊎ (dst + length xs < src)
    → (m' : Mem) × (strcpy_loop fuel m dst src ≡ some m')
      × HasString m' dst xs
      × ((a : ℕ) → (a < dst) ⊎ (dst + length xs < a) → m' a ≡ m a)
unfolding strcpy_loop
strcpy_loop_lem zero m dst src xs s short apart = absurd (omega arith)
strcpy_loop_lem (suc fuel) m dst src [] s short apart =
    let m' = update m dst (m src) in
    let nul : m' dst ≡ 0 = rw ==_self s in
    (m', rw nul refl, nul, λ a out. elim out [ inl lo ↦ ground arith | inr hi ↦ ground arith ])
strcpy_loop_lem (suc fuel) m dst src (x ∷ xs) (e, ne, s) short apart =
    let m1 = update m dst (m src) in
    let char : m1 dst ≡ x = rw ==_self e in
    let s1 =
      HasString-agree m m1 (src + 1) xs
        (λ b lo hi. elim apart [ inl lt ↦ ground arith | inr lt ↦ ground arith ]) s in
    let apart1 : (src + 1 + length xs < dst + 1) ⊎ (dst + 1 + length xs < src + 1) = elim apart [
      | inl lt ↦ inl (omega arith)
      | inr lt ↦ inr (omega arith)
    ] in
    let (m2, run, copied, kept) =
      strcpy_loop_lem fuel m1 (dst + 1) (src + 1) xs s1 (omega arith) apart1 in
    (
      m2,
      rw (char, ==_of_ne x 0 ne) run,
      (kept dst (inl (omega arith)) ∙ char, ne, copied),
      λ a out. elim out [
        | inl lo ↦ ground (arith, kept a (inl (omega arith)))
        | inr hi ↦ ground (arith, kept a (inr (omega arith)))
      ],
    )

HasString-join :
    (m m' : Mem) (a : ℕ) (xs ys : List ℕ)
    → ((b : ℕ) → b < a + length xs → m' b ≡ m b)
    → HasString m a xs
    → HasString m' (a + length xs) ys
    → HasString m' a (xs ++ ys)
HasString-join m m' a [] ys agree s t =
    let at : a + 0 ≡ a = omega arith in subst (λ b. HasString m' b ys) at t
HasString-join m m' a (x ∷ xs) ys agree (e, ne, s) t =
    let at : a + suc (length xs) ≡ a + 1 + length xs = omega arith in
    (
      agree a (omega arith) ∙ e,
      ne,
      HasString-join m m' (a + 1) xs ys (λ b hi. agree b (omega arith)) s
          (subst (λ b. HasString m' b ys) at t),
    )

-- With enough fuel and addresses that are not `NULL`, `strlen` of a string is the number of its
-- characters; and if the second string and the room behind the characters of the first are apart,
-- `strcat` leaves the concatenation of both in place of the first, and writes only in that room.
strcat-append :
    (fuel : ℕ) (m : Mem) (dst src : ℕ) (xs ys : List ℕ)
    → dst ≢ 0
    → src ≢ 0
    → HasString m dst xs
    → HasString m src ys
    → length xs < fuel
    → length ys < fuel
    → (src + length ys < dst + length xs) ⊎ (dst + length xs + length ys < src)
    → (m' : Mem) × (strlen fuel m dst ≡ done (some (length xs)))
      × (strcat fuel m dst src ≡ done (some m'))
      × HasString m' dst (xs ++ ys)
      × ((a : ℕ) → (a < dst + length xs) ⊎ (dst + length xs + length ys < a) → m' a ≡ m a)
unfolding strlen strcat
strcat-append fuel m dst src xs ys hd hs sx sy fx fy apart =
    let start : dst + length xs + 1 - 1 ≡ dst + length xs = omega arith in
    let count : dst + length xs + 1 - dst - 1 ≡ length xs = omega arith in
    let (m', run, copied, kept) = strcpy_loop_lem fuel m (dst + length xs) src ys sy fy apart in
    (
      m',
      rw (==_of_ne dst 0 hd, end_loop_lem fuel m dst xs sx fx, count) refl,
      rw (==_of_ne dst 0 hd, ==_of_ne src 0 hs, end_loop_lem fuel m dst xs sx fx, start, run) refl,
      HasString-join m m' dst xs ys (λ b hi. kept b (inl hi)) sx copied,
      kept,
    )
