-- ===== src/Input/Ps2.antt =====
-- The set-up of the mouse in src/kernel/idt/idt.cpp: `mouse_wait`, `mouse_write` and `init_mouse`.
use Prim.Native.Nat.{bit_and, bit_or}
use solstice_os.Base.{
  Bool-cases, ℕ, zero, suc, Bool, true, false, ◌==◌, not, if◌then◌else◌, ◌≡◌, ◌<◌, ◌⊎◌, inl, inr,
  List, [], ◌∷◌, ◌++◌, arith, refl,
}
use solstice_os.Io.{Ports}

-- The test of the status on which `mouse_wait` goes on.
unfoldable pub still_waits : (write : Bool) (status : ℕ) → Bool
still_waits write status =
    if write then not (bit_and status 0x02 == 0) else bit_and status 0x01 == 0

module _ {S : Type 0} (io : Ports S) where
  -- The loop of `mouse_wait` with its time-out.
  unfoldable pub wait_loop : (timeout : ℕ) (write : Bool) → S → S
  wait_loop zero write s = s
  wait_loop (suc timeout) write s =
      let (status, s') = io.inb 0x64 s in
      let rest = wait_loop timeout write s' in if still_waits write status then rest else s'

  unfoldable pub mouse_wait : (write : Bool) → S → S
  mouse_wait write s = wait_loop 100000 write s

  -- A write that waits until the controller takes a byte.
  abbrev pub send : (port value : ℕ) → S → S
  send port value s = io.outb port value (mouse_wait true s)

  unfoldable pub mouse_write : (value : ℕ) → S → S
  mouse_write value s =
      let s₁ = send 0x60 value (send 0x64 0xD4 s) in (io.inb 0x60 (mouse_wait false s₁)).1

  unfoldable pub init_mouse : S → S
  init_mouse s =
      let s₁ = send 0x64 0x20 (send 0x64 0xA8 s) in
      let (byte, s₂) = io.inb 0x60 s₁ in
      let s₃ = send 0x60 (bit_or byte 2) (send 0x64 0x60 s₂) in
      mouse_write 0xF4 (mouse_write 0xF6 s₃)

-- What a controller of the PS/2 ports promises. `Took log n` holds when it has taken the bytes of `log`, as
-- pairs of a port and a value, and is ready for the next one after `n` more polls of its status, which tell that it is not.
-- A byte that is written while it is not ready is lost, so nothing is said of that.
pub record Controller {S : Type 0} (io : Ports S) : Type 1 where
  pub Took : (log : List (ℕ × ℕ)) (n : ℕ) → S → Type 0
  pub busy :
      (log : List (ℕ × ℕ)) (n : ℕ) (s : S)
      → Took log (suc n) s
      → (still_waits true (io.inb 0x64 s).0 ≡ true) × Took log n (io.inb 0x64 s).1
  pub free :
      (log : List (ℕ × ℕ)) (s : S)
      → Took log 0 s
      → (still_waits true (io.inb 0x64 s).0 ≡ false) × Took log 0 (io.inb 0x64 s).1
  pub write :
      (log : List (ℕ × ℕ)) (port value : ℕ) (s : S)
      → (port ≡ 0x60) ⊎ (port ≡ 0x64)
      → Took log 0 s
      → (n : ℕ) × (n < 100000) × Took (log ++ ((port, value) ∷ [])) n (io.outb port value s)
  pub read : (log : List (ℕ × ℕ)) (n : ℕ) (s : S) → Took log n s → Took log n (io.inb 0x60 s).1

module _ {S : Type 0} (io : Ports S) (controller : Controller io) where
  -- The controller's state while it may still be busy, for less than the time-out of `mouse_wait`.
  abbrev pub Taken : (log : List (ℕ × ℕ)) → S → Type 0
  Taken log s = (n : ℕ) × (n < 100000) × controller.Took log n s

  wait_loop-ready :
      (timeout n : ℕ) (log : List (ℕ × ℕ)) (s : S)
      → n < timeout
      → controller.Took log n s
      → controller.Took log 0 (wait_loop io timeout true s)
  unfolding wait_loop
  wait_loop-ready zero n log s less took = absurd (omega arith)
  wait_loop-ready (suc timeout) zero log s less took =
      let (up, took') = controller.free log s took in rw up took'
  wait_loop-ready (suc timeout) (suc n) log s less took =
      let (down, took') = controller.busy log n s took in
      rw down (wait_loop-ready timeout n log _ (omega arith) took')

  wait_loop-Taken :
      (timeout : ℕ) (write : Bool) (log : List (ℕ × ℕ)) (s : S)
      → Taken log s
      → Taken log (wait_loop io timeout write s)
  unfolding wait_loop
  wait_loop-Taken zero write log s taken = taken
  wait_loop-Taken (suc timeout) write log s (zero, less, took) =
      let taken : Taken log (io.inb 0x64 s).1 = (0, less, (controller.free log s took).1) in
      elim (Bool-cases (still_waits write (io.inb 0x64 s).0)) [
        | inl more ↦ rw more (wait_loop-Taken timeout write log _ taken)
        | inr stop ↦ rw stop taken
      ]
  wait_loop-Taken (suc timeout) write log s (suc n, less, took) =
      let taken : Taken log (io.inb 0x64 s).1 =
        (n, omega arith, (controller.busy log n s took).1) in
      elim (Bool-cases (still_waits write (io.inb 0x64 s).0)) [
        | inl more ↦ rw more (wait_loop-Taken timeout write log _ taken)
        | inr stop ↦ rw stop taken
      ]

  send-Taken :
      (log : List (ℕ × ℕ)) (port value : ℕ) (s : S)
      → (port ≡ 0x60) ⊎ (port ≡ 0x64)
      → Taken log s
      → Taken (log ++ ((port, value) ∷ [])) (send io port value s)
  unfolding mouse_wait
  send-Taken log port value s at (n, less, took) =
      controller.write log port value _ at (wait_loop-ready 100000 n log s less took)

  read-Taken : (log : List (ℕ × ℕ)) (s : S) → Taken log s → Taken log (io.inb 0x60 s).1
  read-Taken log s (n, less, took) = (n, less, controller.read log n s took)

  mouse_write-Taken :
      (log : List (ℕ × ℕ)) (value : ℕ) (s : S)
      → Taken log s
      → Taken ((log ++ ((0x64, 0xD4) ∷ [])) ++ ((0x60, value) ∷ [])) (mouse_write io value s)
  unfolding mouse_write mouse_wait
  mouse_write-Taken log value s taken =
      let both =
        send-Taken _ 0x60 value _ (inl refl) (send-Taken log 0x64 0xD4 s (inr refl) taken) in
      read-Taken _ _ (wait_loop-Taken 100000 false _ _ both)

  -- With a controller that is ready for each byte within the time-out, no byte of `init_mouse` is lost:
  -- the controller takes the commands to switch the mouse on and to send its configuration; it then takes,
  -- as the new configuration, the byte read from port 0x60 in a state in which it had taken just these two,
  -- with bit 1 set; and for the mouse 0xF6 and 0xF4, in this order and no others.
  pub init_mouse-Taken :
      (s : S)
      → Taken [] s
      → (s' : S) × Taken ((0x64, 0xA8) ∷ (0x64, 0x20) ∷ []) s'
        × Taken
            ((0x64, 0xA8)
              ∷ (0x64, 0x20)
              ∷ (0x64, 0x60)
              ∷ (0x60, bit_or (io.inb 0x60 s').0 2)
              ∷ (0x64, 0xD4)
              ∷ (0x60, 0xF6)
              ∷ (0x64, 0xD4)
              ∷ (0x60, 0xF4)
              ∷ [])
            (init_mouse io s)
  unfolding init_mouse
  init_mouse-Taken s taken =
      let asked =
        send-Taken _ 0x64 0x20 _ (inr refl) (send-Taken [] 0x64 0xA8 s (inr refl) taken) in
      let set = send-Taken _ 0x64 0x60 _ (inr refl) (read-Taken _ _ asked) in
      (
        _,
        asked,
        mouse_write-Taken _ 0xF4 _
            (mouse_write-Taken _ 0xF6 _ (send-Taken _ 0x60 _ _ (inl refl) set)),
      )
