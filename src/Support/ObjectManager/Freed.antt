-- ===== src/Support/ObjectManager/Freed.antt =====
-- Cells given back to the table of objects in src/support/object_manager.cpp.
use jemsys.Base.{
  ℕ, suc, ◌^◌, ◌<◌, ◌≡◌, ◌≢◌, refl, ap, ◌∙◌, true, false, List, ◌∷◌, ◌++◌, length, arith, Fresh,
  ◌==◌,
}
use jemsys.Support.ObjectId.{advance_epoch}
use jemsys.Support.ObjectManager.{Manager, is_empty, remove_from_list, move_to_front, dec32, dec64}
use jemsys.Support.ObjectManager.FreeList.{
  FreeList, move_to_front-FreeList, remove_from_list-FreeList,
}
use jemsys.Support.ObjectManager.Cells.{FreeCells, Same, move_to_front-Same, FreeCells-Same}
use jemsys.Support.ObjectManager.Calls.{page_of, return_cell, retire_page, free_cell}
use jemsys.Support.ObjectManager.Returned.{
  return_cell-own, return_cell-others, return_cell-epoch, return_cell-address,
  return_cell-empty_page, return_cell-size, return_cell-is_empty, return_cell-FreeList,
}

-- What freeing the cell `c` of page `p` leaves: `fs` were free in the page before, `q` is any other
-- page, and the pages of the free list are now `list`.
pub record Freed (m : Manager) (p c : ℕ) (fs pages : List ℕ) (q : ℕ) (gs : List ℕ) (r : Manager)
    : Type 0 where
  pub own : FreeCells r p (c ∷ fs)
  pub others : FreeCells r q gs
  pub list : FreeList r pages
  pub epoch : (r.array c).epoch ≡ advance_epoch (m.array c).epoch
  pub address : (r.array c).local_address ≡ (m.array c).local_address

retired : ℕ → Manager → Manager
retired p m = record (remove_from_list p m) { empty_page = p }

retire_page_eq : (p : ℕ) (m : Manager) → m.empty_page ≡ 0 → retire_page p m ≡ retired p m
unfolding retire_page retired remove_from_list
retire_page_eq p m e = rw e

retired-size : (p : ℕ) (m : Manager) → (retired p m).free_list_size ≡ dec64 m.free_list_size
unfolding retired remove_from_list
retired-size p m = refl

retired-Same : (p : ℕ) (m : Manager) → Same m (retired p m)
unfolding retired remove_from_list
retired-Same p m = record { page = refl; array = refl; shift = refl; process = refl }

retired-FreeList :
    (m : Manager) (xs : List ℕ) (p : ℕ) (ys : List ℕ)
    → FreeList m (xs ++ p ∷ ys)
    → FreeList (retired p m) (xs ++ ys)
unfolding retired
retired-FreeList m xs p ys l = remove_from_list-FreeList m xs p ys l

-- A cell in use, `c` of page `p`; the cells `fs` of the page are free, and the page is in the list.
module _ (m : Manager) (p c : ℕ) (fs : List ℕ) (q : ℕ) (gs : List ℕ) (e : page_of m c ≡ p)
    (f : FreeCells m p fs) (in_use : Fresh c fs) (h : suc (length fs) < 2 ^ 32) (apart : q ≢ p)
    (g : FreeCells m q gs) where
  Freed-Same :
      (n : Manager) (pages : List ℕ)
      → Same (return_cell m c) n
      → FreeList n pages
      → Freed m p c fs pages q gs (record n { cell_count_in_use = dec32 n.cell_count_in_use })
  unfolding page_of
  Freed-Same n pages same list =
      let n' = record n { cell_count_in_use = dec32 n.cell_count_in_use } in
      record {
        own =
            FreeCells-Same (return_cell m c) n' p (c ∷ fs) (ap (λ k. k p) same.page) same.array
              same.shift (return_cell-own m p c e fs f in_use h);
        others =
            FreeCells-Same (return_cell m c) n' q gs (ap (λ k. k q) same.page) same.array same.shift
              (return_cell-others m p c e q gs apart g);
        list = list;
        epoch = ap (λ k. (k c).epoch) same.array ∙ return_cell-epoch m p c e;
        address = ap (λ k. (k c).local_address) same.array ∙ return_cell-address m p c e;
      }

  count : is_empty (return_cell m c) p ≡ (m.cells_per_page == suc (length fs))
  count = return_cell-is_empty m p c e (suc (length fs)) (return_cell-own m p c e fs f in_use h).1

  -- Freeing a cell in use, where its page has others in use and is in the free list, and the number
  -- of its free cells stays below 2^32: the cell is the next that its page gives out, with the next
  -- epoch; the page goes to the front of the free list; the free cells of any other page stay.
  pub free_cell-Freed :
      (xs ys : List ℕ)
      → suc (length fs) ≢ m.cells_per_page
      → FreeList m (xs ++ p ∷ ys)
      → Freed m p c fs (p ∷ xs ++ ys) q gs (free_cell m c)
  unfolding free_cell
  free_cell-Freed xs ys used l =
      let kept : is_empty (return_cell m c) p ≡ false = count ∙ ground arith in
      rw (e, kept)
        (Freed-Same (move_to_front p (return_cell m c)) (p ∷ xs ++ ys)
          (move_to_front-Same p (return_cell m c))
          (move_to_front-FreeList (return_cell m c) xs p ys
            (return_cell-FreeList m p c e (xs ++ p ∷ ys) l)))

  -- Freeing the last cell in use of a page, where no empty page is kept yet, takes the page out of
  -- the free list and keeps it as the empty page.
  pub free_cell-last :
      (xs ys : List ℕ)
      → suc (length fs) ≡ m.cells_per_page
      → m.empty_page ≡ 0
      → FreeList m (xs ++ p ∷ ys)
      → Freed m p c fs (xs ++ ys) q gs (free_cell m c)
        × ((free_cell m c).empty_page ≡ p)
        × ((free_cell m c).free_list_size ≡ dec64 m.free_list_size)
  unfolding free_cell retired
  free_cell-last xs ys unused unkept l =
      let empty : is_empty (return_cell m c) p ≡ true = count ∙ ground arith in
      let kept : (return_cell m c).empty_page ≡ 0 = return_cell-empty_page m p c e ∙ unkept in
      rw (e, empty, retire_page_eq p (return_cell m c) kept)
        (
          Freed-Same (retired p (return_cell m c)) (xs ++ ys) (retired-Same p (return_cell m c)) (
              retired-FreeList (return_cell m c) xs p ys
                (return_cell-FreeList m p c e (xs ++ p ∷ ys) l)),
          refl,
          retired-size p (return_cell m c) ∙ ap dec64 (return_cell-size m p c e),
        )
