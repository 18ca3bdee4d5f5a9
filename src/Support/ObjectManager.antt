-- ===== src/Support/ObjectManager.antt =====
-- src/support/object_manager.hpp and object_manager.cpp: the table of objects, in pages of cells.
-- A page is named by its place in the vector `pages`, from 1 on; 0 names the head of the free list,
-- and in `empty_page` no page. The calls are serialised by `writeLock`, and asserts are off.
pub mod Calls
pub mod Ring
pub mod FreeList
pub mod Cells
pub mod Returned
pub mod Freed
pub mod Lookup
pub mod Defects
use mathlib.Core.Option
use jemsys.Base.{
  ℕ, zero, suc, ◌+◌, ◌-◌, ◌*◌, ◌/◌, ◌%◌, ◌^◌, Bool, true, false, Option, none, some, ◌==◌,
  if◌then◌else◌, update, Option-cases,
}
use jemsys.Support.ObjectId.{Privacy, make_global_id, epoch, index, advance_epoch}

pub record Cell : Type 0 where
  pub next_free_cell : ℕ
  pub epoch : ℕ
  pub local_address : ℕ
  pub import_id : ℕ

pub record Page : Type 0 where
  pub free_cells : ℕ
  pub next_free_cell : ℕ
  pub page_index : ℕ
  pub is_active : Bool

pub record Manager : Type 0 where
  pub process_id : ℕ
  pub cells_per_page : ℕ
  pub log2_cells_per_page : ℕ
  pub cell_count_max : ℕ
  pub cell_count_total : ℕ
  pub cell_count_in_use : ℕ
  pub active_pages : ℕ
  pub next : ℕ → ℕ
  pub prev : ℕ → ℕ
  pub free_list_size : ℕ
  pub empty_page : ℕ
  pub page_count : ℕ
  pub page : ℕ → Page
  pub array : ℕ → Cell

abbrev pub inc32 : ℕ → ℕ
inc32 n = (n + 1) % 2 ^ 32

abbrev pub dec32 : ℕ → ℕ
dec32 n = (n + (2 ^ 32 - 1)) % 2 ^ 32

abbrev pub inc64 : ℕ → ℕ
inc64 n = (n + 1) % 2 ^ 64

abbrev pub dec64 : ℕ → ℕ
dec64 n = (n + (2 ^ 64 - 1)) % 2 ^ 64

unfoldable pub is_full : Page → Bool
is_full p = p.free_cells == 0

unfoldable pub is_empty : Manager → ℕ → Bool
is_empty m p = m.cells_per_page == (m.page p).free_cells

unfoldable pub remove_from_list : ℕ → Manager → Manager
remove_from_list p m =
    let prev' = update m.prev (m.next p) (m.prev p) in
    record m {
      prev = prev';
      next = update m.next (prev' p) (m.next p);
      free_list_size = dec64 m.free_list_size;
    }

unfoldable pub push_front : ℕ → Manager → Manager
push_front p m =
    let next' = update m.next p (m.next 0) in
    record m {
      prev = update (update m.prev p 0) (next' 0) p;
      next = update next' 0 p;
      free_list_size = inc64 m.free_list_size;
    }

unfoldable pub push_back : ℕ → Manager → Manager
push_back p m =
    let prev' = update m.prev p (m.prev 0) in
    record m {
      next = update (update m.next p 0) (prev' 0) p;
      prev = update prev' 0 p;
      free_list_size = inc64 m.free_list_size;
    }

unfoldable pub move_to_front : ℕ → Manager → Manager
unfolding remove_from_list push_front
move_to_front p m = if m.next 0 == p then m else push_front p (remove_from_list p m)

unfoldable pub move_to_back : ℕ → Manager → Manager
unfolding remove_from_list push_back
move_to_back p m = if m.prev 0 == p then m else push_back p (remove_from_list p m)

-- The loop of init_page, over the cells left.
unfoldable pub thread_cells : ℕ → ℕ → (ℕ → Cell) → ℕ → Cell
thread_cells i zero array = array
thread_cells i (suc n) array =
    thread_cells (suc i) n (update array i (record (array i) { next_free_cell = suc i }))

-- The cells from `i` on are committed anew: they read as the operating system leaves them.
unfoldable pub commit_cells : (ℕ → Cell) → ℕ → ℕ → (ℕ → Cell) → ℕ → Cell
commit_cells fresh i zero array = array
commit_cells fresh i (suc n) array = commit_cells fresh (suc i) n (update array i (fresh i))

unfoldable pub init_page : ℕ → Manager → Manager
unfolding thread_cells
init_page index m =
    let first = index * m.cells_per_page % 2 ^ 32 in
    record m {
      page = update m.page (suc index) (record (m.page (suc index)) {
        next_free_cell = first;
        free_cells = m.cells_per_page;
        page_index = index;
      });
      array = thread_cells first m.cells_per_page m.array;
    }

-- The search of new_page from the last page down; without an inactive page, `p` stays unset.
unfoldable pub last_inactive : ℕ → (ℕ → Page) → Option ℕ
last_inactive zero page = none
last_inactive (suc n) page =
    let below = last_inactive n page in if (page (suc n)).is_active then below else some n

abbrev zero_page : Page
zero_page = record { free_cells = 0; next_free_cell = 0; page_index = 0; is_active = false }

unfoldable pub activate : (ℕ → Cell) → ℕ → Manager → Manager
unfolding init_page commit_cells
activate fresh index m =
    let n = record m {
      array = commit_cells fresh (m.cells_per_page * index % 2 ^ 32) m.cells_per_page m.array;
    } in
    let m' = init_page index n in
    record m' {
      page =
          update m'.page (suc index)
            (record (m'.page (suc index)) { is_active = true; page_index = index });
      active_pages = inc32 m'.active_pages;
    }

unfoldable pub new_page : (ℕ → Cell) → Manager → Option (Manager × ℕ)
unfolding activate last_inactive
new_page fresh m =
    if m.active_pages == m.page_count
    then some (
      activate fresh m.page_count (record m {
        page = update m.page (suc m.page_count) zero_page;
        page_count = suc m.page_count;
      }),
      suc m.page_count,
    )
    else Option.map (λ index. (activate fresh index m, suc index))
        (last_inactive m.page_count m.page)
