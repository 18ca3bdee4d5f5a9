-- ===== src/Support/ObjectManager/Cells.antt =====
-- Cells of the table of objects in src/support/object_manager.cpp: the chain of free cells of a
-- page, when a cell is taken and when it is freed.
use jemsys.Base.{
  ℕ, ◌^◌, ◌<◌, ◌≡◌, ◌≢◌, refl, ap, ◌∙◌, true, false, some, List, [], ◌∷◌, ◌++◌, length, arith,
  update, Distinct, Stack, All, Bool-cases, inl, inr, ◌==◌, if◌then◌else◌,
}
use jemsys.Support.ObjectManager.{
  Cell, Manager, is_full, remove_from_list, push_front, push_back, move_to_front, move_to_back,
  inc32, dec32,
}
use jemsys.Support.ObjectManager.FreeList.{FreeList, move_to_back-FreeList}
use jemsys.Support.ObjectManager.Calls.{take_cell, alloc_cell, page_of}

abbrev pub next_cell : Manager → ℕ → ℕ
next_cell m c = (m.array c).next_free_cell

-- The free cells of page p, in the order in which they are given out.
abbrev pub FreeCells : Manager → ℕ → List ℕ → Type 0
FreeCells m p fs =
    Stack (next_cell m) (m.page p).next_free_cell fs
    × ((m.page p).free_cells ≡ length fs)
    × (length fs < 2 ^ 32)
    × Distinct fs
    × All (λ c. page_of m c ≡ p) fs

-- The list of pages after a cell of its first page has been taken: a full page goes to the back.
abbrev pub after_take : ℕ → List ℕ → List ℕ → List ℕ
after_take p rest [] = rest ++ p ∷ []
after_take p rest (c ∷ fs) = p ∷ rest

-- The moves in the list leave pages and cells.
pub record Same (m n : Manager) : Type 0 where
  pub page : n.page ≡ m.page
  pub array : n.array ≡ m.array
  pub shift : n.log2_cells_per_page ≡ m.log2_cells_per_page
  pub process : n.process_id ≡ m.process_id

move_to_back-Same : (p : ℕ) (m : Manager) → Same m (move_to_back p m)
unfolding move_to_back push_back remove_from_list
move_to_back-Same p m = elim (Bool-cases (m.prev 0 == p)) [
  | inl e ↦ rw e (record { page = refl; array = refl; shift = refl; process = refl })
  | inr e ↦ rw e (record { page = refl; array = refl; shift = refl; process = refl })
]

pub move_to_front-Same : (p : ℕ) (m : Manager) → Same m (move_to_front p m)
unfolding move_to_front push_front remove_from_list
move_to_front-Same p m = elim (Bool-cases (m.next 0 == p)) [
  | inl e ↦ rw e (record { page = refl; array = refl; shift = refl; process = refl })
  | inr e ↦ rw e (record { page = refl; array = refl; shift = refl; process = refl })
]

-- The page and the cells that a page's chain depends on.
pub FreeCells-Same :
    (m n : Manager) (p : ℕ) (fs : List ℕ)
    → n.page p ≡ m.page p
    → n.array ≡ m.array
    → n.log2_cells_per_page ≡ m.log2_cells_per_page
    → FreeCells m p fs
    → FreeCells n p fs
unfolding page_of
FreeCells-Same m n p fs ep ea es f = rw (ep, ea, es) f

module _ (m : Manager) (p c : ℕ) where
  -- The page without the first of its free cells.
  taken : Manager
  taken = record m {
    page = update m.page p (record (m.page p) {
      next_free_cell = (m.array c).next_free_cell;
      free_cells = dec32 (m.page p).free_cells;
    });
  }

  FreeCells-taken : (fs : List ℕ) → FreeCells m p (c ∷ fs) → FreeCells taken p fs
  unfolding taken page_of
  FreeCells-taken fs (s, n, b, d, a) =
      let self : update m.page p
            (record (m.page p) {
              next_free_cell = (m.array c).next_free_cell;
              free_cells = dec32 (m.page p).free_cells;
            })
            p
          ≡ record (m.page p) {
            next_free_cell = (m.array c).next_free_cell;
            free_cells = dec32 (m.page p).free_cells;
          } =
        ground arith in
      rw self (s.1, omega arith, omega arith, d.1, a.1)

  take_cell_eq :
      (m.page p).next_free_cell ≡ c
      → take_cell m p ≡ (
          let n = if is_full (taken.page p) then move_to_back p taken else taken in
          (record n { cell_count_in_use = inc32 n.cell_count_in_use }, c))
  unfolding take_cell taken
  take_cell_eq e = rw e

-- What taking the first cell `c` of page `p` leaves; `q` is any other page.
pub record Taken (m : Manager) (p c : ℕ) (fs rest : List ℕ) (q : ℕ) (gs : List ℕ) (r : Manager × ℕ)
    : Type 0 where
  pub cell : r.1 ≡ c
  pub own : FreeCells r.0 p fs
  pub others : FreeCells r.0 q gs
  pub list : FreeList r.0 (after_take p rest fs)
  pub array : r.0.array ≡ m.array
  pub shift : r.0.log2_cells_per_page ≡ m.log2_cells_per_page
  pub process : r.0.process_id ≡ m.process_id
  pub active : (r.0.page p).is_active ≡ (m.page p).is_active

module _ (m : Manager) (p c : ℕ) (rest : List ℕ) (q : ℕ) (gs : List ℕ) (l : FreeList m (p ∷ rest))
    (apart : q ≢ p) (g : FreeCells m q gs) where
  -- Whatever list the page ends up in.
  Taken-Same :
      (fs : List ℕ) (n : Manager)
      → FreeCells m p (c ∷ fs)
      → Same (taken m p c) n
      → FreeList n (after_take p rest fs)
      → Taken m p c fs rest q gs (record n { cell_count_in_use = inc32 n.cell_count_in_use }, c)
  unfolding taken page_of
  Taken-Same fs n f same list =
      let n' = record n { cell_count_in_use = inc32 n.cell_count_in_use } in
      record {
        cell = refl;
        own =
            FreeCells-Same (taken m p c) n' p fs (ap (λ g. g p) same.page) same.array same.shift
              (FreeCells-taken m p c fs f);
        others =
            FreeCells-Same m n' q gs (ap (λ g. g q) same.page ∙ ground arith) same.array same.shift
              g;
        list = list;
        array = same.array;
        shift = same.shift;
        process = same.process;
        active = ap (λ g. (g p).is_active) same.page ∙ ground arith;
      }

  -- What else stays when the page has a free cell left.
  pub take_cell-kept :
      (d : ℕ) (fs : List ℕ)
      → FreeCells m p (c ∷ d ∷ fs)
      → ((take_cell m p).0.free_list_size ≡ m.free_list_size)
        × ((take_cell m p).0.empty_page ≡ m.empty_page)
        × ((take_cell m p).0.cells_per_page ≡ m.cells_per_page)
  unfolding is_full taken
  take_cell-kept d fs f =
      let some_left : is_full ((taken m p c).page p) ≡ false = ground (arith, f.1, f.2) in
      rw (take_cell_eq m p c f.0.0, some_left) (refl, refl, refl)

  pub take_cell-Taken :
      (fs : List ℕ) → FreeCells m p (c ∷ fs) → Taken m p c fs rest q gs (take_cell m p)
  unfolding is_full taken
  take_cell-Taken [] f =
      let full : is_full ((taken m p c).page p) ≡ true = ground (arith, f.1) in
      rw (take_cell_eq m p c f.0.0, full)
        (Taken-Same [] (move_to_back p (taken m p c)) f (move_to_back-Same p (taken m p c))
          (move_to_back-FreeList (taken m p c) [] p rest l))
  take_cell-Taken (d ∷ fs) f =
      let some_left : is_full ((taken m p c).page p) ≡ false = ground (arith, f.1, f.2) in
      rw (take_cell_eq m p c f.0.0, some_left)
        (Taken-Same (d ∷ fs) (taken m p c) f
          (record { page = refl; array = refl; shift = refl; process = refl }) l)

-- While the count of the free list is not zero and its first page has a free cell, alloc_cell gives
-- out the first free cell of that page, whatever fresh memory holds. The other free cells keep
-- their order, those of any other page are untouched, a page that is full now goes to the back of
-- the list, and no cell is written.
pub alloc_cell-front :
    (fresh : ℕ → Cell) (m : Manager) (p c : ℕ) (fs rest : List ℕ) (q : ℕ) (gs : List ℕ)
    → m.free_list_size ≢ 0
    → FreeList m (p ∷ rest)
    → FreeCells m p (c ∷ fs)
    → q ≢ p
    → FreeCells m q gs
    → (r : Manager × ℕ) × (alloc_cell fresh m ≡ some r) × Taken m p c fs rest q gs r
unfolding alloc_cell is_full
alloc_cell-front fresh m p c fs rest q gs z l f apart g =
    let counted : (m.free_list_size == 0) ≡ false = ground arith in
    let listed : (p == 0) ≡ false = ground (arith, l.1.0.0) in
    let room : ((m.page p).free_cells == 0) ≡ false = ground (arith, f.1) in
    (
      take_cell m p,
      rw (counted, l.0.0, listed, room),
      take_cell-Taken m p c rest q gs l apart g fs f,
    )
