-- ===== src/Support/ObjectManager/Returned.antt =====
-- A cell put back on its page's chain, the start of free_cell in src/support/object_manager.cpp.
use jemsys.Base.{
  ℕ, suc, ◌^◌, ◌<◌, ◌≡◌, ◌≢◌, refl, sym, ap, ◌∙◌, subst, List, [], ◌∷◌, length, arith, Fresh, Stack,
  All, ◌==◌, Stack-of_agree,
}
use jemsys.Support.ObjectId.{advance_epoch}
use jemsys.Support.ObjectManager.{Manager, is_empty, inc32}
use jemsys.Support.ObjectManager.FreeList.{FreeList}
use jemsys.Support.ObjectManager.Cells.{FreeCells, next_cell}
use jemsys.Support.ObjectManager.Calls.{page_of, return_cell}

-- The cells of a list that are cells of another page are not `c`.
Fresh-of_pages :
    (m : Manager) (c p q : ℕ) (gs : List ℕ)
    → page_of m c ≡ p
    → q ≢ p
    → All (λ g. page_of m g ≡ q) gs
    → Fresh c gs
Fresh-of_pages m c p q [] e n a = tt
Fresh-of_pages m c p q (g ∷ gs) e n a =
    ((λ s. n (sym a.0 ∙ ap (page_of m) (sym s) ∙ e)), Fresh-of_pages m c p q gs e n a.1)

module _ (m : Manager) (p c : ℕ) (e : page_of m c ≡ p) where
  pub return_cell-page :
      (return_cell m c).page p
      ≡ record (m.page p) { next_free_cell = c; free_cells = inc32 (m.page p).free_cells }
  unfolding return_cell
  return_cell-page = rw e (ground arith)

  pub return_cell-other : (q : ℕ) → q ≢ p → (return_cell m c).page q ≡ m.page q
  unfolding return_cell
  return_cell-other q n = rw e (ground arith)

  pub return_cell-cell : next_cell (return_cell m c) c ≡ (m.page p).next_free_cell
  unfolding return_cell
  return_cell-cell = rw e (ground arith)

  pub return_cell-agree :
      (fs : List ℕ) → Fresh c fs → All (λ x. next_cell (return_cell m c) x ≡ next_cell m x) fs
  unfolding return_cell
  return_cell-agree [] f = tt
  return_cell-agree (x ∷ fs) f = (ground arith, return_cell-agree fs f.1)

  -- The chain of a page does not change with cells that are not in it.
  pub return_cell-Stack :
      (h : ℕ) (fs : List ℕ)
      → Fresh c fs
      → Stack (next_cell m) h fs
      → Stack (next_cell (return_cell m c)) h fs
  return_cell-Stack h fs f s =
      Stack-of_agree (next_cell m) (next_cell (return_cell m c)) h fs (return_cell-agree fs f) s

  pub return_cell-page_of :
      (q : ℕ) (fs : List ℕ)
      → All (λ x. page_of m x ≡ q) fs
      → All (λ x. page_of (return_cell m c) x ≡ q) fs
  unfolding return_cell page_of
  return_cell-page_of q fs a = a

  pub return_cell-own :
      (fs : List ℕ)
      → FreeCells m p fs
      → Fresh c fs
      → suc (length fs) < 2 ^ 32
      → FreeCells (return_cell m c) p (c ∷ fs)
  return_cell-own fs (s, n, b, d, a) f h = (
    (
      ap (λ g. g.next_free_cell) return_cell-page,
      subst (λ t. Stack (next_cell (return_cell m c)) t fs) (sym return_cell-cell)
          (return_cell-Stack (m.page p).next_free_cell fs f s),
    ),
    ap (λ g. g.free_cells) return_cell-page ∙ omega arith,
    h,
    (f, d),
    return_cell-page_of p (c ∷ fs) (e, a),
  )

  pub return_cell-others :
      (q : ℕ) (gs : List ℕ) → q ≢ p → FreeCells m q gs → FreeCells (return_cell m c) q gs
  return_cell-others q gs apart (s, n, b, d, a) = (
    subst (λ t. Stack (next_cell (return_cell m c)) t gs)
        (ap (λ g. g.next_free_cell) (sym (return_cell-other q apart)))
        (return_cell-Stack (m.page q).next_free_cell gs (Fresh-of_pages m c p q gs e apart a) s),
    ap (λ g. g.free_cells) (return_cell-other q apart) ∙ n,
    b,
    d,
    return_cell-page_of q gs a,
  )

  pub return_cell-epoch : ((return_cell m c).array c).epoch ≡ advance_epoch (m.array c).epoch
  unfolding return_cell
  return_cell-epoch = ground arith

  pub return_cell-address : ((return_cell m c).array c).local_address ≡ (m.array c).local_address
  unfolding return_cell
  return_cell-address = ground arith

  pub return_cell-empty_page : (return_cell m c).empty_page ≡ m.empty_page
  unfolding return_cell
  return_cell-empty_page = refl

  pub return_cell-size : (return_cell m c).free_list_size ≡ m.free_list_size
  unfolding return_cell
  return_cell-size = refl

  pub return_cell-is_empty :
      (n : ℕ)
      → ((return_cell m c).page p).free_cells ≡ n
      → is_empty (return_cell m c) p ≡ (m.cells_per_page == n)
  unfolding is_empty return_cell
  return_cell-is_empty n h = ap (λ t. m.cells_per_page == t) h

  pub return_cell-FreeList : (xs : List ℕ) → FreeList m xs → FreeList (return_cell m c) xs
  unfolding return_cell
  return_cell-FreeList xs l = l
