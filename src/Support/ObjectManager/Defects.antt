-- ===== src/Support/ObjectManager/Defects.antt =====
-- Where the table of objects of src/support/object_manager.cpp does not do what it means to.
use jemsys.Base.{
  ℕ, suc, ◌/◌, ◌^◌, ◌≡◌, ◌≢◌, refl, sym, ap, ◌∙◌, true, false, none, some, List, [], ◌∷◌, length,
  arith, ◌==◌,
}
use jemsys.Support.ObjectManager.{Cell, Manager, push_front, inc64, dec64}
use jemsys.Support.ObjectManager.FreeList.{FreeList, push_front-FreeList}
use jemsys.Support.ObjectManager.Cells.{FreeCells, FreeCells-Same, take_cell-Taken, take_cell-kept}
use jemsys.Support.ObjectManager.Freed.{free_cell-last}
use jemsys.Support.ObjectManager.Calls.{
  alloc_cell, add_page, spare_page, take_cell, page_of, free_cell,
}

-- An empty list of which the count is not zero: its head is read as a page.
alloc_cell-head :
    (fresh : ℕ → Cell) (m : Manager)
    → FreeList m []
    → m.free_list_size ≢ 0
    → alloc_cell fresh m ≡ none
unfolding alloc_cell
alloc_cell-head fresh m l z =
    let counted : (m.free_list_size == 0) ≡ false = ground arith in rw (counted, l.0.0) refl

-- The only page with free cells, `p`, is the empty one and not in the free list, of size 0; it has
-- two cells at least, and `q` is some other page with no free cell.
module _ (fresh : ℕ → Cell) (m : Manager) (p c d : ℕ) (fs : List ℕ) (q : ℕ) (l : FreeList m [])
    (z : m.free_list_size ≡ 0) (kept : m.empty_page ≡ p) (page : p ≢ 0)
    (f : FreeCells m p (c ∷ d ∷ fs)) (whole : m.cells_per_page ≡ suc (suc (length fs)))
    (apart : q ≢ p) (full : (m.page q).free_cells ≡ 0) where
  unkept : Manager
  unkept = record m { empty_page = 0 }

  added : Manager
  added = add_page unkept p

  spare_page_eq : spare_page fresh m ≡ some (unkept, p)
  unfolding spare_page unkept
  spare_page_eq = let there : (p == 0) ≡ false = ground arith in rw (kept, there) refl

  alloc_cell_eq : alloc_cell fresh m ≡ some (take_cell added p)
  unfolding alloc_cell added
  alloc_cell_eq =
      let counted : (m.free_list_size == 0) ≡ true = ground arith in
      rw (counted, spare_page_eq) refl

  added-FreeList : FreeList added (p ∷ [])
  unfolding added unkept add_page
  added-FreeList = push_front-FreeList p unkept [] l (page, tt)

  added-FreeCells : (k : ℕ) (gs : List ℕ) → FreeCells m k gs → FreeCells added k gs
  unfolding added unkept add_page push_front
  added-FreeCells k gs g = FreeCells-Same m added k gs refl refl refl g

  added-kept :
      (added.free_list_size ≡ 2)
      × (added.empty_page ≡ 0)
      × (added.cells_per_page ≡ suc (suc (length fs)))
  unfolding added unkept add_page push_front
  added-kept = (ap (λ n. inc64 (inc64 n)) z, refl, whole)

  after : Manager
  after = (take_cell added p).0

  -- Where the free list is empty with the count 0, the page with free cells is the empty page kept
  -- back, of two cells at least and all of them free, and some other page has none: after one cell
  -- has been taken and freed again, alloc_cell faults. Adding the page counts it twice, so that the
  -- count of the empty list is not zero.
  pub alloc_cell-free_cell :
      (n : Manager) × (alloc_cell fresh m ≡ some (n, c)) × (alloc_cell fresh (free_cell n c) ≡ none)
  unfolding after page_of
  alloc_cell-free_cell =
      let others = added-FreeCells q [] (tt, full, omega arith, tt, tt) in
      let g = added-FreeCells p (c ∷ d ∷ fs) f in
      let t = take_cell-Taken added p c [] q [] added-FreeList apart others (d ∷ fs) g in
      let k = take_cell-kept added p c [] q [] added-FreeList apart others d fs g in
      let place : suc (c / 2 ^ after.log2_cells_per_page) ≡ p =
        ap (λ s. suc (c / 2 ^ s)) t.shift ∙ g.4.0 in
      let last =
        free_cell-last after p c (d ∷ fs) q [] place t.own g.3.0 g.2 apart t.others [] []
          (sym (k.2 ∙ added-kept.2)) (k.1 ∙ added-kept.1) t.list in
      let size : (free_cell after c).free_list_size ≡ 1 = last.2 ∙ ap dec64 (k.0 ∙ added-kept.0) in
      (
        after,
        alloc_cell_eq ∙ ap (λ x. some (after, x)) t.cell,
        alloc_cell-head fresh (free_cell after c) last.0.list
            (λ e. absurd (omega (arith, size, e))),
      )
