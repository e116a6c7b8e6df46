-- ===== src/Sync/Safety.antt =====
-- Mutual exclusion, no failing `ASSERT`, and no lost wake-up, for every interleaving.
use elephant_os.Base.{
  ℕ, ◌+◌, ◌-◌, ◌<◌, ◌≤◌, ◌^◌, ◌≡◌, refl, ◌≢◌, ◌⊎◌, inl, inr, Bool, true, false, ◌||◌, List, [], ◌∷◌,
  ◌++◌, ◌==◌, arith, has, done, Bool-cases,
}
use elephant_os.LinkedList.Linked.{Distinct, has-append}
use elephant_os.Thread.Invariant.{Distinct-snoc}
use mathlib.Core.Path.{subst}
use elephant_os.Sync.{Semaphore, lock_init, sema_init, sema_down_round}
use elephant_os.Sync.System.{Phase, System, at, down, start}

-- between `sema_down` and `sema_up`
abbrev pub is_inside : Phase → Bool
is_inside Phase.entered = true
is_inside Phase.holding = true
is_inside Phase.leaving = true
is_inside _ = false

abbrev pub is_asleep : Phase → Bool
is_asleep Phase.asleep = true
is_asleep _ = false

abbrev pub is_woken : Phase → Bool
is_woken Phase.woken = true
is_woken _ = false

abbrev pub is_holding : Phase → Bool
is_holding Phase.holding = true
is_holding _ = false

pub record IsSafe (s : System) : Type 0 where
  pub binary : s.lock.semaphore.value ≤ 1
  pub alone : (t u : ℕ) → is_inside (s.phase t) ≡ true → is_inside (s.phase u) ≡ true → t ≡ u
  pub taken : (t : ℕ) → is_inside (s.phase t) ≡ true → s.lock.semaphore.value ≡ 0
  pub owner : (s.lock.semaphore.value ≡ 1) ⊎ ((t : ℕ) × (is_inside (s.phase t) ≡ true))
  pub holds : (t : ℕ) → t ≢ 0 → (s.lock.holder == t) ≡ is_holding (s.phase t)
  pub counts :
      (t : ℕ)
      → is_inside (s.phase t) ≡ true
      → is_holding (s.phase t) ≡ false
      → s.lock.holder_repeat_nr ≡ 0
  pub counted : (t : ℕ) → is_holding (s.phase t) ≡ true → 0 < s.lock.holder_repeat_nr
  pub idle_count : s.lock.semaphore.value ≡ 1 → s.lock.holder_repeat_nr ≡ 0
  pub queue : (t : ℕ) → has t s.lock.semaphore.waiters ≡ is_asleep (s.phase t)
  pub once : Distinct s.lock.semaphore.waiters
  pub null_out : s.phase 0 ≡ Phase.outside
  pub wakes :
      (s.lock.semaphore.waiters ≡ [])
      ⊎ ((t : ℕ) × (is_inside (s.phase t) || is_woken (s.phase t) ≡ true))

pub start-IsSafe : IsSafe start
unfolding lock_init sema_init
start-IsSafe = record {
  binary = omega arith;
  alone = λ t u h k. cc;
  taken = λ t h. cc;
  owner = inl refl;
  holds = λ t ne. ground arith;
  counts = λ t h k. refl;
  counted = λ t h. cc;
  idle_count = λ e. refl;
  queue = λ t. refl;
  once = tt;
  null_out = refl;
  wakes = inl refl;
}

abbrev pub with_sema : System → Semaphore → System
with_sema s sema = let l = s.lock in record s { lock = record l { semaphore = sema } }

abbrev pub with_lock : System → ℕ → ℕ → System
with_lock s holder count =
    let l = s.lock in record s { lock = record l { holder = holder; holder_repeat_nr = count } }

module _ (s : System) (safe : IsSafe s) (t : ℕ) (ne : t ≢ 0) where
  -- A round of `sema_down` by a thread outside or woken.
  module _ (out : is_inside (s.phase t) ≡ false) (awake : is_asleep (s.phase t) ≡ false) where
    abbrev sleeps : System
    sleeps =
        at
          (with_sema s (record {
            value = s.lock.semaphore.value;
            waiters = s.lock.semaphore.waiters ++ (t ∷ []);
          }))
          t Phase.asleep

    IsSafe-sleeps : s.lock.semaphore.value ≡ 0 → IsSafe sleeps
    IsSafe-sleeps zero_value = record {
      binary = ground arith;
      alone = λ u v h k. ground (arith, safe.alone u v);
      taken = λ u h. ground (arith, safe.taken u);
      owner = elim (safe.owner) [
        | inl e ↦ absurd (omega arith)
        | inr (u, h) ↦ inr (u, ground arith)
      ];
      holds = λ u h. ground (arith, safe.holds u);
      counts = λ u h k. ground (arith, safe.counts u);
      counted = λ u h. ground (arith, safe.counted u);
      idle_count = λ e. ground arith;
      queue = λ u. ground (arith, safe.queue u, has-append u s.lock.semaphore.waiters (t ∷ []));
      once = Distinct-snoc t s.lock.semaphore.waiters safe.once (ground (arith, safe.queue t));
      null_out = ground (arith, safe.null_out);
      wakes = elim (safe.owner) [
        | inl e ↦ absurd (omega arith)
        | inr (u, h) ↦ inr (u, ground arith)
      ];
    }

    abbrev passes : System
    passes =
        at
          (with_sema s
            (record { value = s.lock.semaphore.value - 1; waiters = s.lock.semaphore.waiters }))
          t Phase.entered

    IsSafe-passes : s.lock.semaphore.value ≡ 1 → IsSafe passes
    IsSafe-passes one = record {
      binary = ground arith;
      alone = λ u v h k. ground (arith, safe.taken u, safe.taken v);
      taken = λ u h. ground arith;
      owner = inr (t, ground arith);
      holds = λ u h. ground (arith, safe.holds u);
      counts = λ u h k. ground (arith, safe.idle_count);
      counted = λ u h. ground (arith, safe.counted u);
      idle_count = λ e. ground arith;
      queue = λ u. ground (arith, safe.queue u);
      once = safe.once;
      null_out = ground (arith, safe.null_out);
      wakes = inr (t, ground arith);
    }

    pub down_lem : (u : System) × (down s t ≡ done u) × IsSafe u
    unfolding down sema_down_round
    down_lem = elim (Bool-cases (s.lock.semaphore.value == 0)) [
      | inl none_left ↦
          let away : has t s.lock.semaphore.waiters ≡ false = ground (arith, safe.queue t) in
          (sleeps, rw (none_left, away), IsSafe-sleeps (ground arith))
      | inr left ↦
          let gone : (s.lock.semaphore.value - 1 == 0) ≡ true = ground (arith, safe.binary) in
          (passes, rw (left, gone), IsSafe-passes (ground (arith, safe.binary)))
    ]

  -- The holder takes the lock again.
  pub again_lem :
      s.phase t ≡ Phase.holding
      → s.lock.holder_repeat_nr + 1 < 2 ^ 32
      → IsSafe (with_lock s s.lock.holder (s.lock.holder_repeat_nr + 1))
  again_lem stands small = record {
    binary = safe.binary;
    alone = safe.alone;
    taken = safe.taken;
    owner = safe.owner;
    holds = safe.holds;
    counts = λ u h k. ground (arith, safe.alone u t);
    counted = λ u h. omega arith;
    idle_count = λ e. ground (arith, safe.taken t);
    queue = safe.queue;
    once = safe.once;
    null_out = safe.null_out;
    wakes = safe.wakes;
  }

  -- The thread behind `sema_down` becomes the holder.
  pub enter_lem : s.phase t ≡ Phase.entered → IsSafe (at (with_lock s t 1) t Phase.holding)
  enter_lem stands = record {
    binary = safe.binary;
    alone = λ u v h k. ground (arith, safe.alone u v, safe.alone u t, safe.alone t v);
    taken = λ u h. ground (arith, safe.taken t);
    owner = inr (t, ground arith);
    holds = λ u h. ground (arith, safe.alone u t);
    counts = λ u h k. ground (arith, safe.alone u t);
    counted = λ u h. omega arith;
    idle_count = λ e. ground (arith, safe.taken t);
    queue = λ u. ground (arith, safe.queue u);
    once = safe.once;
    null_out = ground (arith, safe.null_out);
    wakes = inr (t, ground arith);
  }

  -- One release of several, and the last one.
  pub fewer_lem :
      s.phase t ≡ Phase.holding
      → 1 < s.lock.holder_repeat_nr
      → IsSafe (at (with_lock s s.lock.holder (s.lock.holder_repeat_nr - 1)) t Phase.holding)
  fewer_lem stands more = record {
    binary = safe.binary;
    alone = λ u v h k. ground (arith, safe.alone u v, safe.alone u t, safe.alone t v);
    taken = λ u h. ground (arith, safe.taken t);
    owner = inr (t, ground arith);
    holds = λ u h. ground (arith, safe.holds u, safe.holds t);
    counts = λ u h k. ground (arith, safe.alone u t);
    counted = λ u h. omega arith;
    idle_count = λ e. ground (arith, safe.taken t);
    queue = λ u. ground (arith, safe.queue u);
    once = safe.once;
    null_out = ground (arith, safe.null_out);
    wakes = inr (t, ground arith);
  }

  pub leave_lem : s.phase t ≡ Phase.holding → IsSafe (at (with_lock s 0 0) t Phase.leaving)
  leave_lem stands = record {
    binary = safe.binary;
    alone = λ u v h k. ground (arith, safe.alone u v, safe.alone u t, safe.alone t v);
    taken = λ u h. ground (arith, safe.taken t);
    owner = inr (t, ground arith);
    holds = λ u h. ground (arith, safe.alone u t);
    counts = λ u h k. refl;
    counted = λ u h. ground (arith, safe.alone u t);
    idle_count = λ e. refl;
    queue = λ u. ground (arith, safe.queue u);
    once = safe.once;
    null_out = ground (arith, safe.null_out);
    wakes = inr (t, ground arith);
  }

  -- `sema_up`, with nobody asleep and with somebody.
  pub free_lem :
      s.phase t ≡ Phase.leaving
      → s.lock.semaphore.waiters ≡ []
      → IsSafe (
          at
            (with_sema s (record { value = 1; waiters = s.lock.semaphore.waiters }))
            t
            Phase.outside)
  free_lem stands nobody = record {
    binary = omega arith;
    alone = λ u v h k. ground (arith, safe.alone u v);
    taken = λ u h. ground (arith, safe.alone u t);
    owner = inl refl;
    holds = λ u h. ground (arith, safe.holds u);
    counts = λ u h k. ground (arith, safe.counts u);
    counted = λ u h. ground (arith, safe.counted u);
    idle_count = λ e. ground (arith, safe.counts t);
    queue = λ u. ground (arith, safe.queue u);
    once = safe.once;
    null_out = ground (arith, safe.null_out);
    wakes = inl nobody;
  }

  pub wake_lem :
      (b : ℕ) (rest : List ℕ)
      → s.phase t ≡ Phase.leaving
      → s.lock.semaphore.waiters ≡ b ∷ rest
      → IsSafe (
          at
            (at (with_sema s (record { value = 1; waiters = rest })) t Phase.outside)
            b
            Phase.woken)
  wake_lem b rest stands some_wait =
      let once : Distinct (b ∷ rest) = subst Distinct some_wait safe.once in
      record {
        binary = omega arith;
        alone = λ u v h k. ground (arith, safe.alone u v);
        taken = λ u h. ground (arith, safe.alone u t);
        owner = inl refl;
        holds = λ u h. ground (arith, safe.holds u, safe.queue u);
        counts = λ u h k. ground (arith, safe.counts u);
        counted = λ u h. ground (arith, safe.counted u);
        idle_count = λ e. ground (arith, safe.counts t);
        queue = λ u. ground (arith, safe.queue u);
        once = once.1;
        null_out = ground (arith, safe.null_out, safe.queue 0);
        wakes = inr (b, ground arith);
      }
