-- ===== src/Kernel/Boot/Phases.antt =====
-- How long the boot sequence lasts (instance.rs).
use gbx.Prelude.{ℕ, zero, suc, ◌+◌, ◌-◌, ◌*◌, ◌≡◌, ◌==◌, leb, List, refl, arith}
use gbx.Bus.{Bus}
use gbx.Io
use gbx.Ppu.Render.{scy_index}
use gbx.Kernel.Boot.{
  BootPhase, scroll, pause, done, BootSequence, new, advance_phase, advance, is_done,
}

-- The sequence and the bus after `n` frames.
unfoldable pub frames : ℕ → BootSequence × Bus → BootSequence × Bus
frames zero s = s
frames (suc n) s = let (boot, bus) = advance s.0 s.1 in frames n (boot, bus)

-- The frames that are left.
unfoldable pub frames_left : BootPhase → ℕ
frames_left (scroll zero delay) = 66
frames_left (scroll (suc remaining) delay) = remaining * 3 + delay + 66
frames_left (pause left) = suc left
frames_left done = 0

advance_phase-frames_left :
    (phase : BootPhase) (boot : BootSequence) (bus : Bus)
    → boot.phase ≡ phase
    → frames_left (advance_phase phase boot bus).0.phase ≡ frames_left phase - 1
unfolding advance_phase frames_left
advance_phase-frames_left (scroll zero delay) boot bus e = refl
advance_phase-frames_left (scroll (suc zero) zero) boot bus e = refl
advance_phase-frames_left (scroll (suc (suc r)) zero) boot bus e = ground arith
advance_phase-frames_left (scroll (suc r) (suc d)) boot bus e = ground arith
advance_phase-frames_left (pause zero) boot bus e = refl
advance_phase-frames_left (pause (suc n)) boot bus e = ground arith
advance_phase-frames_left done boot bus e = rw e refl

frames-frames_left :
    (n : ℕ) (s : BootSequence × Bus) → frames_left (frames n s).0.phase ≡ frames_left s.0.phase - n
unfolding frames advance
frames-frames_left zero s = omega arith
frames-frames_left (suc n) s = omega (
  arith,
  frames-frames_left n (advance s.0 s.1),
  advance_phase-frames_left s.0.phase s.0 s.1 refl,
)

is_done-eq-none_left : (phase : BootPhase) → is_done phase ≡ (frames_left phase == 0)
unfolding frames_left
is_done-eq-none_left (scroll zero delay) = refl
is_done-eq-none_left (scroll (suc r) delay) = ground arith
is_done-eq-none_left (pause left) = ground arith
is_done-eq-none_left done = refl

-- The scroll register shows the scroll position.
abbrev Shown : BootSequence × Bus → Type 0
Shown s = s.1.io.regs scy_index ≡ s.0.scy

advance_phase-Shown :
    (phase : BootPhase) (boot : BootSequence) (bus : Bus)
    → Shown (boot, bus)
    → Shown (advance_phase phase boot bus)
unfolding advance_phase Io.write Io.set_sc
advance_phase-Shown (scroll zero delay) boot bus h = h
advance_phase-Shown (scroll (suc r) zero) boot bus h = refl
advance_phase-Shown (scroll (suc r) (suc d)) boot bus h = h
advance_phase-Shown (pause zero) boot bus h = refl
advance_phase-Shown (pause (suc n)) boot bus h = h
advance_phase-Shown done boot bus h = h

frames-Shown : (n : ℕ) (s : BootSequence × Bus) → Shown s → Shown (frames n s)
unfolding frames advance
frames-Shown zero s h = h
frames-Shown (suc n) s h =
    frames-Shown n (advance s.0 s.1) (advance_phase-Shown s.0.phase s.0 s.1 h)

-- The boot sequence is over after exactly 365 frames, whatever the cartridge, and at each frame
-- the scroll register of the core holds the position that the frame is drawn at.
pub frames-new :
    (bus : Bus) (rom : List ℕ) (n : ℕ)
    → (is_done (frames n (new bus rom)).0.phase ≡ leb 365 n)
      × ((frames n (new bus rom)).1.io.regs scy_index ≡ (frames n (new bus rom)).0.scy)
unfolding frames_left new Io.write Io.set_sc
frames-new bus rom n = (
  ground (
    arith,
    is_done-eq-none_left (frames n (new bus rom)).0.phase,
    frames-frames_left n (new bus rom),
  ),
  frames-Shown n (new bus rom) refl,
)
