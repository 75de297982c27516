-- ===== src/Ui/Inspect/Graph.antt =====
-- The graph of a device's rates.
use net_det.Prelude.{
  ℕ, zero, suc, ◌+◌, ◌%◌, ◌≤◌, ◌<◌, ◌≡◌, refl, ap, ◌∙◌, List, [], ◌∷◌, arith, length, get_or, Run,
  ok, at, ◌>>=◌, at-get_or, ltb, ◌==◌, if◌then◌else◌, Bool-cases, inl, inr,
}
use net_det.Core.Device.{RateHistory, rate_history_size}
use net_det.Ui.Inspect.{max_rate, block, graph_blocks, get_graph}

abbrev IsBound : List ℕ → ℕ → Type 0
IsBound values max = (k : ℕ) → k < length values → get_or values k 0 ≤ max

-- The greatest of the rates.
unfoldable pub IsGreatest : List ℕ → ℕ → Type 0
IsGreatest values max =
    ((k : ℕ) → k < length values → get_or values k 0 ≤ max)
    × (k : ℕ) × (k < length values)
    × (get_or values k 0 ≡ max)

max_rate-IsGreatest :
    (rounds i m : ℕ) (values : List ℕ)
    → i + rounds ≡ length values
    → ((k : ℕ) → k < i → get_or values k 0 ≤ m)
    → (k : ℕ) × (k < length values) × (get_or values k 0 ≡ m)
    → (max : ℕ) × (max_rate rounds i m values ≡ ok max) × IsGreatest values max
unfolding max_rate IsGreatest
max_rate-IsGreatest zero i m values e below attained =
    let (k, inside, same) = attained in
    (m, refl, ((λ j here. below j (omega arith)), k, inside, same))
max_rate-IsGreatest (suc rounds) i m values e below attained =
    let v = get_or values i 0 in
    let (j, inside, same) = attained in
    elim (Bool-cases (ltb m v)) [
      | inl more ↦
          let (max, runs, greatest) =
            max_rate-IsGreatest rounds (i + 1) v values (omega arith)
              (λ k before. ground (arith, below k)) (i, omega arith, refl) in
          (max, rw (at-get_or values i 0 (omega arith), more) runs, greatest)
      | inr less ↦
          let (max, runs, greatest) =
            max_rate-IsGreatest rounds (i + 1) m values (omega arith)
              (λ k before. ground (arith, below k)) attained in
          (max, rw (at-get_or values i 0 (omega arith), less) runs, greatest)
    ]

three_steps :
    (r : Run ℕ) (f : ℕ → Run ℕ) (g : ℕ → Run (List ℕ)) (a b : ℕ) (c : List ℕ)
    → r ≡ ok a
    → f a ≡ ok b
    → g b ≡ ok c
    → (r >>= λ x. f x >>= λ y. g y) ≡ ok c
three_steps r f g a b c one two three = rw (one, two, three)

at_zero : (head k : ℕ) → (head + (0 + k)) % rate_history_size ≡ (head + k) % rate_history_size
at_zero head k = omega arith

at_first : (head i : ℕ) → (head + (i + 0)) % rate_history_size ≡ (head + i) % rate_history_size
at_first head i = omega arith

at_later :
    (head i k : ℕ)
    → (head + (i + suc k)) % rate_history_size ≡ (head + (i + 1 + k)) % rate_history_size
at_later head i k = omega arith

block_lem : (b : ℕ) → b < 8 → block b ≡ ok b
unfolding block
block_lem b inside = ground arith

module _ (scale : ℕ → ℕ → ℕ) (graph : RateHistory) (max : ℕ)
    (cells : length graph.values ≡ rate_history_size) (bound : IsBound graph.values max)
    (fits : (v : ℕ) → v ≤ max → scale v max < 8) where
  abbrev IsShown : ℕ → List ℕ → ℕ → Type 0
  IsShown i blocks k =
      get_or blocks k 0
      ≡ scale (get_or graph.values ((graph.head + (i + k)) % rate_history_size) 0) max

  IsShown-next :
      (rounds i : ℕ) (blocks : List ℕ)
      → ((k : ℕ) → k < rounds → IsShown (i + 1) blocks k)
      → (k : ℕ) → k < suc rounds
      → IsShown i
          (scale (get_or graph.values ((graph.head + i) % rate_history_size) 0) max ∷ blocks)
          k
  IsShown-next rounds i blocks each zero below = rw (at_first graph.head i) refl
  IsShown-next rounds i blocks each (suc k) below =
      rw (at_later graph.head i k) (each k (omega arith))

  graph_blocks_lem :
      (rounds i : ℕ)
      → (blocks : List ℕ) × (graph_blocks scale graph max rounds i ≡ ok blocks)
        × (length blocks ≡ rounds)
        × ((k : ℕ) → k < rounds → IsShown i blocks k)
  unfolding graph_blocks
  graph_blocks_lem zero i = ([], refl, refl, λ k inside. absurd (omega arith))
  graph_blocks_lem (suc rounds) i =
      let (rest, runs, size, each) = graph_blocks_lem rounds (i + 1) in
      let cell = (graph.head + i) % rate_history_size in
      let v = get_or graph.values cell 0 in
      let inside : cell < length graph.values = omega arith in
      (
        scale v max ∷ rest,
        rw (
          at-get_or graph.values cell 0 inside,
          block_lem (scale v max) (fits v (bound cell inside)),
          runs,
        ),
        ap suc size,
        IsShown-next rounds i rest each,
      )

-- A device of 60 rates is drawn as 60 blocks without a fault, whatever its head: block `k` is the rate `k`
-- places after the head, around the end, as `scale` gives it for the greatest of the rates, or for 1 where
-- all are 0. It is a condition on `scale` that a rate of at most that greatest one has one of the eight blocks.
pub get_graph_lem :
    (scale : ℕ → ℕ → ℕ) (graph : RateHistory)
    → length graph.values ≡ rate_history_size
    → ((v max : ℕ) → v ≤ max → 0 < max → scale v max < 8)
    → (greatest : ℕ) × (blocks : List ℕ) × (get_graph scale graph ≡ ok blocks)
      × IsGreatest graph.values greatest
      × (length blocks ≡ rate_history_size)
      × ((k : ℕ)
          → k < rate_history_size
          → get_or blocks k 0
            ≡ scale
                (get_or graph.values ((graph.head + k) % rate_history_size) 0)
                (if greatest == 0 then 1 else greatest))
unfolding get_graph IsGreatest
get_graph_lem scale graph cells fits =
    let first = get_or graph.values 0 0 in
    let (greatest, runs, (below, top, inside, same)) =
      max_rate-IsGreatest rate_history_size 0 first graph.values (omega arith)
        (λ k before. absurd (omega arith)) (0, omega arith, refl) in
    let max = if greatest == 0 then 1 else greatest in
    let positive : 0 < max = ground arith in
    let (blocks, draws, size, each) =
      graph_blocks_lem scale graph max cells (λ k inside. ground (arith, below k))
        (λ v small. fits v max small positive) rate_history_size 0 in
    (
      greatest,
      blocks,
      three_steps (at graph.values 0) (λ start. max_rate rate_history_size 0 start graph.values)
          (λ m. graph_blocks scale graph (if m == 0 then 1 else m) rate_history_size 0) first
          greatest blocks (at-get_or graph.values 0 0 (omega arith)) runs draws,
      (below, top, inside, same),
      size,
      λ k inside.
          each k inside ∙ ap (λ c. scale (get_or graph.values c 0) max) (at_zero graph.head k),
    )
