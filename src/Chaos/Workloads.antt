-- ===== src/Chaos/Workloads.antt =====
-- The loops of the background workloads: `_cpu_burn`, and the touching of a block's pages in
-- `_run_memory` (shared/autosre_shared/chaos.py).
use auto_sre.Prelude.{
  ℕ, zero, suc, ◌+◌, ◌-◌, ◌*◌, ◌/◌, ◌≤◌, ◌<◌, ◌≡◌, refl, Option, none, some, List, [], ◌∷◌, arith,
  ltb, All, ◌⊎◌, inl, inr, if◌then◌else◌, Bool-cases,
}
use mathlib.Core.List.{Mem, mem-cons_self, mem-cons_of_mem}

-- `_cpu_burn`: `clock i` is the i-th reading of the clock. The result is the number of rounds of
-- busy work; `none` means that the fuel ran out.
pub cpu_burn_from : (ℕ → ℕ) → ℕ → ℕ → ℕ → Option ℕ
cpu_burn_from clock deadline zero i = none
cpu_burn_from clock deadline (suc fuel) i =
    let rest = cpu_burn_from clock deadline fuel (suc i) in
    if ltb (clock i) deadline then rest else some i

pub cpu_burn : (ℕ → ℕ) → ℕ → ℕ → Option ℕ
cpu_burn clock deadline fuel = cpu_burn_from clock deadline fuel 0

-- `range(i, size, step)`, with `n` for the number of its elements.
abbrev range : ℕ → ℕ → ℕ → List ℕ
range zero i step = []
range (suc n) i step = i ∷ range n (i + step) step

abbrev page : ℕ
page = 4096

-- The indices that `_run_memory` writes to, `range(0, size_bytes, 4096)`.
pub touched : ℕ → List ℕ
touched size = range ((size + 4095) / page) 0 page

burn_reaches :
    (clock : ℕ → ℕ) (deadline k i j : ℕ)
    → i + k ≡ j
    → deadline ≤ clock j
    → (n : ℕ) × (cpu_burn_from clock deadline (suc k) i ≡ some n)
      × (deadline ≤ clock n)
      × ((n ≡ i) ⊎ (clock (n - 1) < deadline))
unfolding cpu_burn_from
burn_reaches clock deadline zero i j e h =
    let here : i ≡ j = omega arith in
    let past : deadline ≤ clock i = rw here h in (i, ground arith, past, inl refl)
burn_reaches clock deadline (suc k) i j e h = elim (Bool-cases (ltb (clock i) deadline)) [
  | inl going ↦
      let (n, ends, past, last) = burn_reaches clock deadline k (suc i) j (omega arith) h in
      (n, rw going ends, past, inr (before clock deadline i n (ground arith) last))
  | inr past ↦ (i, rw past refl, ground arith, inl refl)
]
  where
    before :
        (clock : ℕ → ℕ) (deadline i n : ℕ)
        → clock i < deadline
        → (n ≡ suc i) ⊎ (clock (n - 1) < deadline)
        → clock (n - 1) < deadline
    before clock deadline i n h (inr k) = k
    before clock deadline i n h (inl e) = let same : n - 1 ≡ i = omega arith in rw same h

-- A clock that gains at least one unit in any `r` readings.
abbrev Advances : (ℕ → ℕ) → ℕ → Type 0
Advances clock r = (j : ℕ) → clock j < clock (j + r)

advance : (clock : ℕ → ℕ) (r k : ℕ) → Advances clock r → clock 0 + k ≤ clock (k * r)
advance clock r zero adv = let e : 0 * r ≡ 0 = omega arith in rw e (omega arith)
advance clock r (suc k) adv =
    let e : suc k * r ≡ k * r + r = omega arith in
    rw e (omega (arith, advance clock r k adv, adv (k * r)))

-- With a clock that gains at least one unit in any `r` readings the busy loop ends, after at most `r`
-- rounds for each unit up to the deadline: at a reading that has reached the deadline, the one
-- before it, if there is one, not having reached it.
pub cpu_burn_ends :
    (clock : ℕ → ℕ) (r deadline : ℕ)
    → Advances clock r
    → (n : ℕ) × (cpu_burn clock deadline (suc ((deadline - clock 0) * r)) ≡ some n)
      × (deadline ≤ clock n)
      × ((n ≡ 0) ⊎ (clock (n - 1) < deadline))
unfolding cpu_burn
cpu_burn_ends clock r deadline adv =
    burn_reaches clock deadline ((deadline - clock 0) * r) 0 ((deadline - clock 0) * r)
      (omega arith) (omega (arith, advance clock r (deadline - clock 0) adv))

range_below :
    (n i step size : ℕ) → i + n * step < size + step → All (λ (j : ℕ). j < size) (range n i step)
range_below zero i step size h = tt
range_below (suc n) i step size h = (omega arith, range_below n (i + step) step size (omega arith))

range-Mem : (n i step k j : ℕ) → k < n → j ≡ i + k * step → Mem j (range n i step)
range-Mem zero i step k j h e = absurd (omega arith)
range-Mem (suc n) i step zero j h e = let first : j ≡ i = omega arith in rw first mem-cons_self
range-Mem (suc n) i step (suc k) j h e =
    mem-cons_of_mem i (range-Mem n (i + step) step k j (omega arith) (omega arith))

-- The writes of the loop stay inside the block, and every byte of the block lies in a page, counted
-- from the start of the block, that the loop writes to.
pub touched-Mem :
    (size byte : ℕ)
    → byte < size
    → All (λ (j : ℕ). j < size) (touched size) × Mem (byte / page * page) (touched size)
unfolding touched
touched-Mem size byte h = (
  range_below ((size + 4095) / page) 0 page size (omega arith),
  range-Mem ((size + 4095) / page) 0 page (byte / page) (byte / page * page) (omega arith)
      (omega arith),
)
