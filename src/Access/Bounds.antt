-- ===== src/Access/Bounds.antt =====
-- The part of a BAR that a request of read_write_inline.h is served from.
use native.Mathlib.Nat.{mul-div-le, lt-mul-div-succ, mul_comm}
use upciedev.Prelude.{
  ℕ, ◌+◌, ◌-◌, ◌*◌, ◌/◌, ◌%◌, ◌^◌, ◌≤◌, ◌<◌, ◌≡◌, arith, ◌⊎◌, ◌↔◌, inl, inr, not, ◌||◌,
  if◌then◌else◌, Bool-cases, ltb, ◌==◌, some, get_elem?,
}
use upciedev.Device.{PciedevDev}
use upciedev.Access.{served_count, refused, window, find_window}

-- The bytes of a BAR, as the driver computes them from its ends.
abbrev pub bar_bytes : ℕ → ℕ → ℕ
bar_bytes start last = (last + 2 ^ 32 - start) % 2 ^ 32

abbrev whole_registers : ℕ → ℕ → ℕ → ℕ
whole_registers rest bytes count = if ltb count (rest / bytes) then count else rest / bytes

whole_registers_bounds :
    (rest bytes count : ℕ)
    → 0 < bytes
    → let n = whole_registers rest bytes count in
      (n ≤ count) × (n * bytes ≤ rest) × (n < count → rest < (n + 1) * bytes)
whole_registers_bounds rest bytes count h = elim (Bool-cases (ltb count (rest / bytes))) [
  | inl e ↦
      let below : count < rest / bytes = ground arith in
      rw e (omega arith, grind (arith, mul-div-le rest bytes, below), λ l. absurd (omega arith))
  | inr e ↦
      let above : rest / bytes ≤ count = ground arith in
      rw e (
        above,
        omega (arith, mul-div-le rest bytes, mul_comm bytes (rest / bytes)),
        λ l. omega (arith, lt-mul-div-succ rest h, mul_comm bytes (rest / bytes + 1)),
      )
]

-- The served count against the bytes that the driver takes the BAR to have.
pub served_count_bounds :
    (start last offset bytes count : ℕ)
    → 0 < bytes
    → let n = served_count start last offset bytes count in
      (n ≤ count)
      × (n * bytes ≤ bar_bytes start last - offset)
      × (n < count → bar_bytes start last - offset < (n + 1) * bytes)
unfolding served_count
served_count_bounds start last offset bytes count h =
    rw (rest_of_bar (bar_bytes start last) offset)
      (whole_registers_bounds (bar_bytes start last - offset) bytes count h)
  where
    rest_of_bar : (t o : ℕ) → (if ltb o t then t - o else 0) ≡ t - o
    rest_of_bar t o = ground arith

mul_mono : (m n c : ℕ) → m ≤ n → m * c ≤ n * c
mul_mono m n c h = grind arith

-- A BAR has the bytes from `start` to `last`, `last` included, and a request asks for `count`
-- registers of `bytes` bytes each from `offset` on. At most that many are served, and of these,
-- register `i` is served exactly when it ends in front of the BAR's last byte: a register that ends
-- with the last byte is not served.
pub served_registers :
    (start last offset bytes count : ℕ)
    → 0 < bytes
    → start ≤ last
    → last < 2 ^ 32
    → let n = served_count start last offset bytes count in
      (n ≤ count) × ((i : ℕ) → i < count → (i < n) ↔ (start + offset + (i + 1) * bytes ≤ last))
served_registers start last offset bytes count h order fits =
    let n = served_count start last offset bytes count in
    let (most, inside, short) = served_count_bounds start last offset bytes count h in
    let size : bar_bytes start last ≡ last - start = omega arith in
    (
      most,
      λ i asked. (
        λ served.
            let wide = mul_mono (i + 1) n bytes (omega arith) in
            let some_bytes : 0 < (i + 1) * bytes = grind arith in omega (arith, inside, size),
        λ ends. elim (Bool-cases (ltb i n)) [
          | inl is_served ↦ ground arith
          | inr unserved ↦
              let above : n ≤ i = ground arith in
              let narrow = mul_mono (n + 1) (i + 1) bytes (omega arith) in
              absurd (omega (arith, short (ground arith), size, narrow))
        ],
      ),
    )

-- With the BAR's entries at hand a request is refused or has its window.
pub find_window_cases :
    (dev : PciedevDev) (bar offset bytes base start last : ℕ)
    → get_elem? dev.memmory_base bar ≡ some base
    → get_elem? dev.mem_base bar ≡ some start
    → get_elem? dev.mem_base_end bar ≡ some last
    → (find_window dev bar offset bytes ≡ refused)
      ⊎ (find_window dev bar offset bytes ≡ window base start last)
unfolding find_window
find_window_cases dev bar offset bytes base start last eb es el =
    elim (Bool-cases (base == 0 || not (offset % bytes == 0))) [
      | inl z ↦ inl (rw (eb, find_window) (rw z))
      | inr z ↦ inr (rw (eb, find_window) (rw z (rw (es, el))))
    ]
