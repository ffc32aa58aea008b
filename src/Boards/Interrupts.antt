-- ===== src/Boards/Interrupts.antt =====
-- The interrupt lines of a board: pciedev_setup_interrupt (pciedev_ufn.c) and the loop of
-- pciedev_remove_exp (pciedev_remove_exp.c) that gives them back.
use upciedev.Prelude.{
  ℕ, zero, suc, ◌+◌, ◌/◌, ◌%◌, ◌^◌, ◌<◌, ◌≡◌, refl, ap, ◌∙◌, Bool, true, false, ◌||◌, List, [], ◌∷◌,
  ◌++◌, ℤ, pos, bit_or, ◌==◌, ltb, if◌then◌else◌, Bool-cases, inl, inr, arith,
}
use native.Mathlib.Nat.{pow-suc}
use upciedev.Prelude.Bits.{bit, bit-bit_or, bit-le_one}
use upciedev.Boards.{Board, Run, returned, undefined, is_zero}

abbrev pub irq_line : Board → ℕ → ℕ
irq_line b num = (b.pci_dev_irq + num) % 2 ^ 32

-- `request_irq` is what the kernel answers for a line. A shift by the width of an int is undefined.
unfoldable pub pciedev_setup_interrupt : (ℕ → ℤ) → ℕ → Board → Run Board
pciedev_setup_interrupt request_irq num b =
    let result = request_irq (irq_line b num) in
    if is_zero result
    then (if ltb num 32
        then returned result
            (record b { irq_mode = 1; enbl_irq_num = bit_or b.enbl_irq_num (2 ^ num) })
        else undefined)
    else returned result (record b { irq_mode = 0 })

-- The loop over `n` lines, from line `i` on: those that free_irq is called with.
unfoldable pub free_loop : ℕ → ℕ → Board → List ℕ
free_loop zero i b = []
free_loop (suc n) i b =
    let rest = free_loop n (suc i) b in
    if bit i b.enbl_irq_num == 1 then irq_line b i ∷ rest else rest

unfoldable pub freed_lines : Board → List ℕ
unfolding free_loop
freed_lines b = if b.irq_mode == 0 then [] else free_loop 32 0 b

-- Calls of pciedev_setup_interrupt, each with its number and the kernel's answer.
abbrev pub setups : List (ℕ × ℤ) → Board → Run Board
setups [] b = returned (pos 0) b
setups ((num, answer) ∷ calls) b = elim (pciedev_setup_interrupt (λ line. answer) num b) [
  | returned r b' ↦ setups calls b'
  | _ ↦ undefined
]

-- Whether one of the calls has got line `i`.
abbrev pub has_got : ℕ → List (ℕ × ℤ) → Bool
has_got i [] = false
has_got i ((num, answer) ∷ calls) = (if is_zero answer then i == num else false) || has_got i calls

abbrev pub AllLow : List (ℕ × ℤ) → Type 0
AllLow [] = Unit
AllLow ((num, answer) ∷ calls) = (num < 32) × AllLow calls

-- The lines, of 32, that a test picks.
abbrev pub lines : (ℕ → Bool) → Board → ℕ → ℕ → List ℕ
lines test b zero i = []
lines test b (suc n) i =
    let rest = lines test b n (suc i) in if test i then irq_line b i ∷ rest else rest

bit-zero : (i : ℕ) → bit i 0 ≡ 0
bit-zero zero = refl
bit-zero (suc i) = bit-zero i

bit-pow : (i n : ℕ) → bit i (2 ^ n) ≡ (if i == n then 1 else 0)
bit-pow zero zero = refl
bit-pow zero (suc n) = ground (arith, pow-suc 2 n)
bit-pow (suc i) zero = ground (arith, bit-zero i)
bit-pow (suc i) (suc n) =
    let half : 2 ^ suc n / 2 ≡ 2 ^ n = omega (arith, pow-suc 2 n) in
    rw half (ground (arith, bit-pow i n))

bit-enabled : (i num a : ℕ) → (bit i (bit_or a (2 ^ num)) == 1) ≡ (i == num || bit i a == 1)
bit-enabled i num a = rw (bit-bit_or i a (2 ^ num), bit-pow i num) (ground (arith, bit-le_one i a))

-- The mode that the last call leaves.
abbrev mode_of : List (ℕ × ℤ) → ℕ → ℕ
mode_of [] mode = mode
mode_of ((num, answer) ∷ calls) mode = mode_of calls (if is_zero answer then 1 else 0)

mode_of-append :
    (calls : List (ℕ × ℤ)) (num mode : ℕ) (answer : ℤ)
    → mode_of (calls ++ ((num, answer) ∷ [])) mode ≡ (if is_zero answer then 1 else 0)
mode_of-append [] num mode answer = refl
mode_of-append ((n, a) ∷ calls) num mode answer = mode_of-append calls num _ answer

record AreSet (calls : List (ℕ × ℤ)) (b b' : Board) : Type 0 where
  irq : b'.pci_dev_irq ≡ b.pci_dev_irq
  mode : b'.irq_mode ≡ mode_of calls b.irq_mode
  bits : (i : ℕ) → (bit i b'.enbl_irq_num == 1) ≡ (has_got i calls || bit i b.enbl_irq_num == 1)

or_swap : (a b c : Bool) → a || (b || c) ≡ (b || a) || c
or_swap true true c = refl
or_swap true false c = refl
or_swap false true c = refl
or_swap false false c = refl

setups-AreSet :
    (calls : List (ℕ × ℤ)) (b : Board)
    → AllLow calls
    → (b' : Board) × (setups calls b ≡ returned (pos 0) b') × AreSet calls b b'
unfolding pciedev_setup_interrupt
setups-AreSet [] b low = (b, refl, record { irq = refl; mode = refl; bits = λ i. refl })
setups-AreSet ((num, answer) ∷ calls) b (low, lows) = elim (Bool-cases (is_zero answer)) [
  | inl got ↦
      let shift : ltb num 32 ≡ true = ground arith in
      let (b', e, h) =
        setups-AreSet calls
          (record b { irq_mode = 1; enbl_irq_num = bit_or b.enbl_irq_num (2 ^ num) }) lows in
      (
        b',
        rw (setups, got, shift) e,
        record {
          irq = h.irq;
          mode = rw got h.mode;
          bits = λ i.
              rw (got, h.bits i, bit-enabled i num b.enbl_irq_num)
                (or_swap (has_got i calls) (i == num) (bit i b.enbl_irq_num == 1));
        },
      )
  | inr not_got ↦
      let (b', e, h) = setups-AreSet calls (record b { irq_mode = 0 }) lows in
      (
        b',
        rw (setups, not_got) e,
        record { irq = h.irq; mode = rw not_got h.mode; bits = λ i. rw not_got (h.bits i) },
      )
]

free_loop-lines :
    (test : ℕ → Bool) (b b' : Board) (n i : ℕ)
    → b'.pci_dev_irq ≡ b.pci_dev_irq
    → ((j : ℕ) → (bit j b'.enbl_irq_num == 1) ≡ test j)
    → free_loop n i b' ≡ lines test b n i
unfolding free_loop
free_loop-lines test b b' zero i irq same = refl
free_loop-lines test b b' (suc n) i irq same =
    rw (same i, free_loop-lines test b b' n (suc i) irq same, irq) refl

or_false : (a : Bool) → a || false ≡ a
or_false true = refl
or_false false = refl

-- On a board of a device that has just been attached, with no line enabled, interrupts are set up, each
-- with a number below 32, and the kernel grants the last line. The removal of the board gives back
-- exactly the lines that the kernel has granted.
pub granted_lines_freed :
    (calls : List (ℕ × ℤ)) (num : ℕ) (b : Board)
    → let all = calls ++ ((num, pos 0) ∷ []) in
      AllLow all
      → b.enbl_irq_num ≡ 0
      → (b' : Board) × (setups all b ≡ returned (pos 0) b')
        × (freed_lines b' ≡ lines (λ i. has_got i all) b 32 0)
unfolding freed_lines
granted_lines_freed calls num b low none =
    let all = calls ++ ((num, pos 0) ∷ []) in
    let (b', e, h) = setups-AreSet all b low in
    let on : b'.irq_mode ≡ 1 = h.mode ∙ mode_of-append calls num b.irq_mode (pos 0) in
    let off : (i : ℕ) → (bit i b.enbl_irq_num == 1) ≡ false = λ i. rw (none, bit-zero i) refl in
    (
      b',
      e,
      rw on (
          free_loop-lines (λ i. has_got i all) b b' 32 0 h.irq
            λ i. h.bits i ∙ ap (λ (x : Bool). has_got i all || x) (off i) ∙ or_false _),
    )

-- Interrupts are set up on a board, each with a number below 32, and the kernel refuses the last line.
-- The removal of the board then gives back no line, whichever of them were granted before.
pub refused_line_keeps_others :
    (calls : List (ℕ × ℤ)) (num : ℕ) (answer : ℤ) (b : Board)
    → let all = calls ++ ((num, answer) ∷ []) in
      AllLow all
      → is_zero answer ≡ false
      → (b' : Board) × (setups all b ≡ returned (pos 0) b') × (freed_lines b' ≡ [])
unfolding freed_lines
refused_line_keeps_others calls num answer b low refused =
    let all = calls ++ ((num, answer) ∷ []) in
    let (b', e, h) = setups-AreSet all b low in
    let off : b'.irq_mode ≡ 0 =
      h.mode ∙ mode_of-append calls num b.irq_mode answer ∙ rw refused refl in
    (b', e, rw off refl)
