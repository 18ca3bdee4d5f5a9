-- ===== src/Agate2/Context/Page.antt =====
-- src/agate2/context.cpp, class Page: a page of cells of 32 bytes behind a header of the same size.
use jemsys.Base.{
  ℕ, zero, suc, ◌+◌, ◌-◌, ◌*◌, ◌/◌, ◌%◌, ◌^◌, ◌≤◌, ◌<◌, ◌≡◌, leb, ltb, ◌&&◌, refl, ap, ◌∙◌, Bool,
  true, ◌==◌, if◌then◌else◌, List, [], ◌∷◌, arith, update, count_up,
}

pub record Cell : Type 0 where
  pub next_free_cell : ℕ
  pub epoch : ℕ
  pub flags : ℕ
  pub this_index : ℕ

pub record Page : Type 0 where
  pub flags : ℕ
  pub free_cells : ℕ
  pub next_free_cell : ℕ
  pub total_cells : ℕ
  pub cell : ℕ → Cell

abbrev pub cell_size : ℕ
cell_size = 32

-- `cell_object_is_shared | cell_is_shared_export` on a shared page.
abbrev pub cell_flags : ℕ → ℕ
cell_flags page_flags = if page_flags % 2 == 1 then 6 else 0

-- The loop of the constructor, for the `n` cells from `index` on.
unfoldable pub init_cells : ℕ → ℕ → ℕ → (ℕ → Cell) → ℕ → Cell
init_cells flags index zero cell = cell
init_cells flags index (suc n) cell = init_cells flags (suc index) n (
    update cell index
      (record { next_free_cell = suc index; epoch = 0; flags = flags; this_index = index }))

-- The constructor, with what fresh memory reads as.
unfoldable pub make_page : (ℕ → Cell) → ℕ → ℕ → Page
unfolding init_cells
make_page fresh page_size page_flags =
    let total = (page_size / cell_size + (2 ^ 32 - 1)) % 2 ^ 32 in
    record {
      flags = page_flags;
      free_cells = total;
      next_free_cell = 1;
      total_cells = total;
      cell = init_cells (cell_flags page_flags) 0 total fresh;
    }

unfoldable pub alloc_cell : Page → Page × ℕ
alloc_cell p = (
  record p {
    next_free_cell = (p.cell p.next_free_cell).next_free_cell;
    free_cells = (p.free_cells + (2 ^ 32 - 1)) % 2 ^ 32;
  },
  p.next_free_cell,
)

unfoldable pub free_cell : ℕ → Page → Page
free_cell index p = record p {
  cell = update p.cell index (record (p.cell index) {
    next_free_cell = p.next_free_cell;
    epoch = ((p.cell index).epoch + 1) % 2 ^ 16;
  });
  next_free_cell = index;
  free_cells = (p.free_cells + 1) % 2 ^ 32;
}

unfoldable pub empty : Page → Bool
empty p = p.free_cells == p.total_cells

unfoldable pub full : Page → Bool
full p = p.free_cells == 0

-- Where a cell begins in its page, from the page's address.
unfoldable pub cell_offset : ℕ → ℕ
cell_offset index = cell_size + index * cell_size

-- As many cells as the page counts, one after another.
unfoldable pub allocs : ℕ → Page → Page × List ℕ
unfolding alloc_cell
allocs zero p = (p, [])
allocs (suc n) p = let (q, c) = alloc_cell p in let (r, cs) = allocs n q in (r, c ∷ cs)

-- The cells that the loop writes, and the others.
init_cells_lem :
    (flags index n : ℕ) (cell : ℕ → Cell) (j : ℕ)
    → init_cells flags index n cell j ≡ (
        if leb index j && ltb j (index + n)
        then record { next_free_cell = suc j; epoch = 0; flags = flags; this_index = j }
        else cell j)
unfolding init_cells
init_cells_lem flags index zero cell j = ground arith
init_cells_lem flags index (suc n) cell j = ground (
  arith,
  init_cells_lem flags (suc index) n
      (update cell index
        (record { next_free_cell = suc index; epoch = 0; flags = flags; this_index = index }))
      j,
)

-- The cells from `k` to the one before `k + n` each lead to the next.
Chained : (ℕ → Cell) → ℕ → ℕ → Type 0
Chained cell k n = (j : ℕ) → k ≤ j → suc j < k + n → (cell j).next_free_cell ≡ suc j

-- Along a chain the cells come in order, and each is counted.
allocs-Chained :
    (n : ℕ) (p : Page) (k : ℕ)
    → p.next_free_cell ≡ k
    → Chained p.cell k n
    → n ≤ p.free_cells
    → p.free_cells < 2 ^ 32
    → ((allocs n p).1 ≡ count_up k n) × ((allocs n p).0.free_cells ≡ p.free_cells - n)
unfolding allocs Chained
allocs-Chained zero p k e chain h l = (refl, omega arith)
allocs-Chained (suc zero) p k e chain h l = (ap (λ c. c ∷ []) e, omega arith)
allocs-Chained (suc (suc n)) p k e chain h l =
    let q = (alloc_cell p).0 in
    let on : q.next_free_cell ≡ suc k =
      ap (λ c. (p.cell c).next_free_cell) e ∙ chain k (omega arith) (omega arith) in
    let counted : q.free_cells ≡ p.free_cells - 1 = omega arith in
    let rest =
      allocs-Chained (suc n) q (suc k) on (λ j a b. chain j (omega arith) (omega arith))
        (omega arith) (omega arith) in
    (ap (λ c. c ∷ (allocs (suc n) q).1) e ∙ ap (λ cs. k ∷ cs) rest.0, rest.1 ∙ omega arith)

-- A page of `n + 2` times 32 bytes, less than 2^32 of them, counts `n + 1` cells and gives them out
-- from cell 1 on: cell 0 is passed over, the page is full behind the last, and that one begins
-- where the page ends.
pub make_page-allocs :
    (fresh : ℕ → Cell) (n flags : ℕ)
    → suc n < 2 ^ 32
    → let r = allocs (suc n) (make_page fresh (suc (suc n) * cell_size) flags) in
      (r.1 ≡ count_up 1 (suc n))
      × (full r.0 ≡ true)
      × (cell_offset (suc n) ≡ suc (suc n) * cell_size)
unfolding make_page Chained full cell_offset
make_page-allocs fresh n flags h =
    let p = make_page fresh (suc (suc n) * cell_size) flags in
    let total : p.free_cells ≡ suc n = omega arith in
    let written : (j : ℕ) → 1 ≤ j → suc j < 1 + suc n → (p.cell j).next_free_cell ≡ suc j =
      λ j a b. ground (arith, init_cells_lem (cell_flags flags) 0 p.free_cells fresh j) in
    let given = allocs-Chained (suc n) p 1 refl written (omega arith) (omega arith) in
    (given.0, ground (arith, given.1), omega arith)

-- A cell that is freed is the next to be given out, with the next epoch, and the page then counts
-- as many free cells as before.
pub alloc_cell-free_cell :
    (index : ℕ) (p : Page)
    → p.free_cells < 2 ^ 32
    → let r = alloc_cell (free_cell index p) in
      (r.1 ≡ index)
      × (r.0.next_free_cell ≡ p.next_free_cell)
      × (r.0.free_cells ≡ p.free_cells)
      × ((r.0.cell index).epoch ≡ ((p.cell index).epoch + 1) % 2 ^ 16)
unfolding alloc_cell free_cell
alloc_cell-free_cell index p h = (refl, ground arith, omega arith, ground arith)
