-- ===== src/Support/ObjectManager/Calls.antt =====
-- src/support/object_manager.hpp and object_manager.cpp: cells given out and taken back, and the
-- calls that register, find and release objects. `fresh` is what committed memory reads as.
use mathlib.Core.Option
use jemsys.Base.{
  ℕ, suc, ◌+◌, ◌-◌, ◌*◌, ◌/◌, ◌^◌, Bool, false, Option, none, some, ◌==◌, if◌then◌else◌, update,
}
use jemsys.Support.ObjectId
use jemsys.Support.ObjectId.{Privacy, make_global_id, advance_epoch}
use jemsys.Support.ObjectManager.{
  Cell, Manager, inc32, dec32, inc64, is_full, is_empty, remove_from_list, push_front,
  move_to_front, move_to_back, new_page,
}

-- The cell that alloc_cell takes from the page that it chose.
unfoldable pub take_cell : Manager → ℕ → Manager × ℕ
take_cell m p =
    let c = (m.page p).next_free_cell in
    let m' = record m {
      page = update m.page p (record (m.page p) {
        next_free_cell = (m.array c).next_free_cell;
        free_cells = dec32 (m.page p).free_cells;
      });
    } in
    let m'' = if is_full (m'.page p) then move_to_back p m' else m' in
    (record m'' { cell_count_in_use = inc32 m''.cell_count_in_use }, c)

unfoldable pub add_page : Manager → ℕ → Manager
add_page m p = let m' = push_front p m in record m' { free_list_size = inc64 m'.free_list_size }

-- Without a page that has a free cell: the empty page kept back, or a new one.
unfoldable pub spare_page : (ℕ → Cell) → Manager → Option (Manager × ℕ)
spare_page fresh m =
    if m.empty_page == 0 then new_page fresh m else some (record m { empty_page = 0 }, m.empty_page)

-- `none`: the head of the list is read as a page, or a page pointer that was never set.
unfoldable pub alloc_cell : (ℕ → Cell) → Manager → Option (Manager × ℕ)
alloc_cell fresh m =
    let added = Option.map (λ (n, p). take_cell (add_page n p) p) (spare_page fresh m) in
    if m.free_list_size == 0
    then added
    else if m.next 0 == 0
    then none
    else if is_full (m.page (m.next 0))
    then added
    else some (take_cell m (m.next 0))

unfoldable pub page_of : Manager → ℕ → ℕ
page_of m c = suc (c / 2 ^ m.log2_cells_per_page)

unfoldable pub delete_page : ℕ → Manager → Manager
delete_page p m = record m {
  page = update m.page p (record (m.page p) { is_active = false });
  active_pages = dec32 m.active_pages;
}

-- The end of free_cell, for a page whose last cell in use was freed.
unfoldable pub retire_page : ℕ → Manager → Manager
retire_page p m =
    let m' = remove_from_list p m in
    let n = record m' { empty_page = p } in
    if m'.empty_page == 0 then n else delete_page m'.empty_page n

-- The cell back on its page's chain, with the next epoch.
unfoldable pub return_cell : Manager → ℕ → Manager
return_cell m c =
    let p = page_of m c in
    record m {
      array = update m.array c (record (m.array c) {
        next_free_cell = (m.page p).next_free_cell;
        epoch = advance_epoch (m.array c).epoch;
      });
      page =
          update m.page p
            (record (m.page p) { next_free_cell = c; free_cells = inc32 (m.page p).free_cells });
    }

unfoldable pub free_cell : Manager → ℕ → Manager
free_cell m c =
    let p = page_of m c in
    let m' = return_cell m c in
    let n = if is_empty m' p then retire_page p m' else move_to_front p m' in
    record n { cell_count_in_use = dec32 n.cell_count_in_use }

unfoldable pub at_capacity : Manager → Bool
at_capacity m = m.cell_count_max == m.cell_count_total

abbrev pub invalid_id : ℕ
invalid_id = 2 ^ 64 - 1

-- isShared shares its place with nextFreeCell: it is the low byte.
unfoldable pub shared_byte : Privacy → ℕ
shared_byte Privacy.private = 0
shared_byte Privacy.shared = 1

unfoldable pub fill_cell : Privacy → ℕ → Cell → Cell
unfolding shared_byte
fill_cell privacy obj c = record c {
  local_address = obj;
  next_free_cell = c.next_free_cell / 256 * 256 + shared_byte privacy;
  import_id = invalid_id;
}

-- What register_private and register_shared do with the cell that they were given: the id is stored
-- in the object.
unfoldable pub fill : Privacy → ℕ → Manager × ℕ → Manager × Option ℕ
fill privacy obj (n, c) = (
  record n { array = update n.array c (fill_cell privacy obj (n.array c)) },
  some (make_global_id (n.array c).epoch n.process_id c privacy),
)

-- register_private and register_shared; the second place is `none` for false.
unfoldable pub register : (ℕ → Cell) → Privacy → Manager → ℕ → Option (Manager × Option ℕ)
register fresh privacy m obj =
    if at_capacity m then some (m, none) else Option.map (fill privacy obj) (alloc_cell fresh m)

-- The places are what the functions return: 0 is nullptr; `none` is a read of a page that is not
-- committed.
unfoldable pub lookup : Manager → ℕ → Option ℕ
lookup m id =
    let c = ObjectId.index id in
    if (m.page (page_of m c)).is_active
    then some (if (m.array c).epoch == ObjectId.epoch id then (m.array c).local_address else 0)
    else none

unfoldable pub lookup_cell : Manager → ℕ → Option (Option ℕ)
lookup_cell m id =
    let c = ObjectId.index id in
    if (m.page (page_of m c)).is_active
    then some (if (m.array c).epoch == ObjectId.epoch id then some c else none)
    else none

-- release(id).
unfoldable pub release : Manager → ℕ → Option Manager
release m id =
    Option.map (λ found. elim found [ none ↦ m | some _ ↦ free_cell m (ObjectId.index id) ])
      (lookup_cell m id)

-- The constructor's fields, with memory that nothing was committed in, and its first page.
unfoldable pub make_manager : (ℕ → Cell) → ℕ → ℕ → ℕ → ℕ → Option Manager
make_manager fresh process_id max_objects cells_per_page log2 =
    Option.map (λ (m, p). push_front p m)
      (new_page fresh (record {
        process_id = process_id;
        cells_per_page = cells_per_page;
        log2_cells_per_page = log2;
        cell_count_max = max_objects;
        cell_count_total = 0;
        cell_count_in_use = 0;
        active_pages = 0;
        next = λ _. 0;
        prev = λ _. 0;
        free_list_size = 0;
        empty_page = 0;
        page_count = 0;
        page =
            λ _. record { free_cells = 0; next_free_cell = 0; page_index = 0; is_active = false };
        array = fresh;
      }))
