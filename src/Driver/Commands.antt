-- ===== src/Driver/Commands.antt =====
-- A command and its interrupt.
use elephant_os.Base.{
  ℕ, zero, suc, ◌+◌, ◌<◌, ◌≡◌, refl, Bool, true, Option, none, some, ◌==◌, update, arith, Outcome,
  done, panic, ◌>>=◌, Bool-cases, inl, inr,
}
use elephant_os.Sync.{sema_init, sema_down_round, sema_up}
use elephant_os.Driver.Setup.{Channel, cmd_out, intr_hd_handler, init_channel, wait_done}

abbrev issued : (ℕ → Channel) → ℕ → ℕ → Channel
issued channels ch_no = update channels ch_no (cmd_out (channels ch_no))

-- The thread waits before the interrupt comes, and runs its round again when it is woken.
abbrev pub waits_first : (ℕ → Channel) → ℕ → ℕ → Outcome ((ℕ → Channel) × Option ℕ × Bool)
waits_first channels ch_no running = do
  (c1, through) ← wait_done (issued channels ch_no) ch_no running
  (c2, woken) ← intr_hd_handler c1 (0x2e + ch_no)
  (c3, through') ← wait_done c2 ch_no running
  done (c3, woken, through')

-- The interrupt comes before the thread waits.
abbrev pub rings_first : (ℕ → Channel) → ℕ → ℕ → Outcome ((ℕ → Channel) × Option ℕ × Bool)
rings_first channels ch_no running = do
  (c1, woken) ← intr_hd_handler (issued channels ch_no) (0x2e + ch_no)
  (c2, through) ← wait_done c1 ch_no running
  done (c2, woken, through)

abbrev state_of : (ℕ → Channel) → Outcome ((ℕ → Channel) × Option ℕ × Bool) → (ℕ → Channel)
state_of channels (done (s, woken, through)) = s
state_of channels panic = channels

-- the channels after the round of `ide_init` for one of them
abbrev pub set_up : (ℕ → Channel) → ℕ → ℕ → Channel
set_up channels ch_no = update channels ch_no (init_channel ch_no (channels ch_no))

-- On one of the two channels, as `ide_init` sets it up, a command is followed by one interrupt,
-- before or after the thread waits: in both orders the handler's ASSERTs hold, the thread gets
-- through, woken by the handler if it was waiting, all channels are then as they were, and a
-- further interrupt changes nothing.
pub command_done :
    (channels : ℕ → Channel) (ch_no running : ℕ)
    → ch_no < 2
    → (s s' : ℕ → Channel) × (waits_first (set_up channels ch_no) ch_no running
        ≡ done (s, some running, true))
      × (rings_first (set_up channels ch_no) ch_no running ≡ done (s', none, true))
      × ((i : ℕ) → (s i ≡ set_up channels ch_no i) × (s' i ≡ set_up channels ch_no i))
      × (intr_hd_handler s (0x2e + ch_no) ≡ done (s, none))
unfolding init_channel intr_hd_handler wait_done cmd_out sema_init sema_down_round sema_up
command_done channels zero running low = (
  state_of channels (waits_first (set_up channels 0) 0 running),
  state_of channels (rings_first (set_up channels 0) 0 running),
  refl,
  refl,
  λ i. elim (Bool-cases (i == 0)) [
    | inl at ↦ (rw at refl, rw at refl)
    | inr other ↦ (rw other refl, rw other refl)
  ],
  refl,
)
command_done channels (suc zero) running low = (
  state_of channels (waits_first (set_up channels 1) 1 running),
  state_of channels (rings_first (set_up channels 1) 1 running),
  refl,
  refl,
  λ i. elim (Bool-cases (i == 1)) [
    | inl at ↦ (rw at refl, rw at refl)
    | inr other ↦ (rw other refl, rw other refl)
  ],
  refl,
)
command_done channels (suc (suc n)) running low = absurd (omega arith)
