-- ===== src/Tests/Objects.antt =====
-- src/support/object_manager.hpp and src/ipc/offset_ptr.hpp at concrete inputs.
use jemsys.Base.{
  ℕ, suc, ◌^◌, ◌<◌, ◌≡◌, ◌≢◌, refl, true, false, none, some, [], ◌∷◌, ◌==◌, if◌then◌else◌, arith,
}
use jemsys.Support.ObjectId
use jemsys.Support.ObjectId.{Privacy, make_global_id}
use jemsys.Support.ObjectId.Laws.{make_global_id-fields}
use jemsys.Support.ObjectManager.{Cell, Manager, move_to_front}
use jemsys.Support.ObjectManager.FreeList.{FreeList, move_to_front-FreeList}
use jemsys.Support.ObjectManager.Calls.{
  alloc_cell, free_cell, register, lookup, release, at_capacity, page_of,
}
use jemsys.Support.ObjectManager.Cells.{FreeCells, Taken, alloc_cell-front}
use jemsys.Support.ObjectManager.Freed.{Freed, free_cell-Freed}
use jemsys.Support.ObjectManager.Lookup.{
  new_id, lookup-register_private, lookup-register_shared, lookup-release,
}
use jemsys.Support.ObjectManager.Defects.{alloc_cell-free_cell}
use jemsys.Ipc.OffsetPtr.{assign, get}
use jemsys.Ipc.OffsetPtr.Laws.{reach, get-assign}

abbrev zero_cell : ℕ → Cell
zero_cell c = record { next_free_cell = 0; epoch = 0; local_address = 0; import_id = 0 }

-- One page of four cells, of which 0 and 3 are in use.
abbrev four_cells : Manager
four_cells = record {
  process_id = 7;
  cells_per_page = 4;
  log2_cells_per_page = 2;
  cell_count_max = 16;
  cell_count_total = 0;
  cell_count_in_use = 2;
  active_pages = 1;
  next = λ p. if p == 0 then 1 else 0;
  prev = λ p. if p == 0 then 1 else 0;
  free_list_size = 1;
  empty_page = 0;
  page_count = 1;
  page = λ p.
      if p == 1
      then record { free_cells = 2; next_free_cell = 1; page_index = 0; is_active = true }
      else record { free_cells = 0; next_free_cell = 0; page_index = 0; is_active = false };
  array = λ c. record { next_free_cell = suc c; epoch = 5; local_address = 0; import_id = 0 };
}

-- Its only page, of two cells, is empty and kept back.
abbrev kept_page : Manager
kept_page = record four_cells {
  cells_per_page = 2;
  log2_cells_per_page = 1;
  next = λ _. 0;
  prev = λ _. 0;
  free_list_size = 0;
  empty_page = 1;
  page = λ p.
      if p == 1
      then record { free_cells = 2; next_free_cell = 0; page_index = 0; is_active = true }
      else record { free_cells = 0; next_free_cell = 0; page_index = 0; is_active = false };
}

one_page : FreeList four_cells (1 ∷ [])
one_page = omega arith

two_free : FreeCells four_cells 1 (1 ∷ 2 ∷ [])
unfolding page_of
two_free = omega arith

none_free : FreeCells four_cells 2 []
unfolding page_of
none_free = omega arith

both_free : FreeCells kept_page 1 (0 ∷ 1 ∷ [])
unfolding page_of
both_free = omega arith

first_page : page_of four_cells 0 ≡ 1
unfolding page_of
first_page = refl

not_full : at_capacity four_cells ≡ false
unfolding at_capacity
not_full = refl

-- The id of the cell 3 of the process 7, in epoch 5.
abbrev id_of_cell : ℕ
id_of_cell = 0x140_0007_0000_0003

committed : (four_cells.page (page_of four_cells (ObjectId.index id_of_cell))).is_active ≡ true
unfolding page_of ObjectId.index
committed = refl

kept : four_cells.empty_page ≢ page_of four_cells (ObjectId.index id_of_cell)
unfolding page_of ObjectId.index
kept = omega arith

current : (four_cells.array (ObjectId.index id_of_cell)).epoch ≡ ObjectId.epoch id_of_cell
unfolding ObjectId.epoch
current = refl

young : ObjectId.epoch id_of_cell < 2 ^ 10
unfolding ObjectId.epoch
young = omega arith

make_global_id-fields_example :
    (ObjectId.epoch (make_global_id 3 7 12 Privacy.private) ≡ 3)
    × (ObjectId.process_id (make_global_id 3 7 12 Privacy.private) ≡ 7)
    × (ObjectId.index (make_global_id 3 7 12 Privacy.private) ≡ 12)
    × (ObjectId.is_shared (make_global_id 3 7 12 Privacy.private) ≡ false)
make_global_id-fields_example =
    make_global_id-fields 3 7 12 (omega arith) (omega arith) (omega arith)

move_to_front-FreeList_example : FreeList (move_to_front 1 four_cells) (1 ∷ [])
move_to_front-FreeList_example = move_to_front-FreeList four_cells [] 1 [] one_page

alloc_cell-front_example :
    (r : Manager × ℕ) × (alloc_cell zero_cell four_cells ≡ some r)
    × Taken four_cells 1 1 (2 ∷ []) [] 2 [] r
alloc_cell-front_example =
    alloc_cell-front zero_cell four_cells 1 1 (2 ∷ []) [] 2 [] (omega arith) one_page two_free
      (omega arith) none_free

free_cell-Freed_example : Freed four_cells 1 0 (1 ∷ 2 ∷ []) (1 ∷ []) 2 [] (free_cell four_cells 0)
free_cell-Freed_example =
    free_cell-Freed four_cells 1 0 (1 ∷ 2 ∷ []) 2 [] first_page two_free (omega arith) (omega arith)
      (omega arith) none_free [] [] (omega arith) one_page

lookup-register_private_example :
    (n : Manager) × (register zero_cell Privacy.private four_cells 64
      ≡ some (n, some (new_id Privacy.private four_cells 1)))
    × (lookup n (new_id Privacy.private four_cells 1) ≡ some 64)
lookup-register_private_example =
    lookup-register_private zero_cell four_cells 64 1 1 (2 ∷ []) [] 2 [] not_full (omega arith)
      one_page two_free (omega arith) none_free refl (omega arith) (omega arith) (omega arith)

lookup-register_shared_example :
    (n : Manager) × (register zero_cell Privacy.shared four_cells 64
      ≡ some (n, some (new_id Privacy.shared four_cells 1)))
    × (lookup n (new_id Privacy.shared four_cells 1) ≡ some 0)
lookup-register_shared_example =
    lookup-register_shared zero_cell four_cells 64 1 1 (2 ∷ []) [] 2 [] not_full (omega arith)
      one_page two_free (omega arith) none_free refl (omega arith) (omega arith) (omega arith)
      (omega arith)

lookup-release_example :
    (n : Manager) × (release four_cells id_of_cell ≡ some n) × (lookup n id_of_cell ≡ some 0)
lookup-release_example = lookup-release four_cells id_of_cell committed kept current young

alloc_cell-free_cell_example :
    (n : Manager) × (alloc_cell zero_cell kept_page ≡ some (n, 0))
    × (alloc_cell zero_cell (free_cell n 0) ≡ none)
alloc_cell-free_cell_example =
    alloc_cell-free_cell zero_cell kept_page 1 0 1 [] 2 (omega arith) refl refl (omega arith)
      both_free refl (omega arith) refl

get-assign_example : get 4096 (assign 4096 8192) ≡ reach 4096 8192
get-assign_example = get-assign 4096 8192 (omega arith) (omega arith)
