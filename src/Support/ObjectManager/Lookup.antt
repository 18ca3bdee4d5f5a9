-- ===== src/Support/ObjectManager/Lookup.antt =====
-- Ids and the objects that they lead to, in src/support/object_manager.hpp.
use jemsys.Base.{
  ℕ, zero, suc, ◌+◌, ◌*◌, ◌/◌, ◌%◌, ◌^◌, ◌<◌, ◌≡◌, ◌≢◌, ◌↔◌, refl, ap, ◌∙◌, true, false, some, List,
  ◌∷◌, arith, Bool-cases, inl, inr, ◌==◌, ==_false, if◌then◌else◌,
}
use jemsys.Base.Bits.{bit_and-ones}
use jemsys.Support.ObjectId
use jemsys.Support.ObjectId.{Privacy, make_global_id, advance_epoch}
use jemsys.Support.ObjectId.Laws.{make_global_id-fields, make_global_id-shared}
use jemsys.Support.ObjectManager.{Cell, Manager, is_empty, remove_from_list, move_to_front}
use jemsys.Support.ObjectManager.FreeList.{FreeList}
use jemsys.Support.ObjectManager.Cells.{move_to_front-Same, FreeCells, alloc_cell-front}
use jemsys.Support.ObjectManager.Calls.{
  at_capacity, page_of, return_cell, retire_page, delete_page, free_cell, register, release, lookup,
  lookup_cell, fill_cell, fill,
}

-- The next epoch counts modulo 2^10.
advance_epoch_lem : (e : ℕ) → e < 2 ^ 10 → advance_epoch e ≡ (e + 1) % 2 ^ 10
unfolding advance_epoch
advance_epoch_lem e h =
    let w : (e + 1) % 2 ^ 16 ≡ (e + 1) / 2 ^ 10 * 2 ^ 10 + (e + 1) % 2 ^ 10 = omega arith in
    rw w (bit_and-ones 10 ((e + 1) / 2 ^ 10) ((e + 1) % 2 ^ 10) (omega arith))

-- The epoch of a cell that has been freed n times.
abbrev pub epochs : ℕ → ℕ → ℕ
epochs zero e = e
epochs (suc n) e = advance_epoch (epochs n e)

epochs_lem : (n e : ℕ) → e < 2 ^ 10 → epochs n e ≡ (e + n) % 2 ^ 10
epochs_lem zero e h = omega arith
epochs_lem (suc n) e h =
    let ih = epochs_lem n e h in
    advance_epoch_lem (epochs n e) (omega (arith, ih)) ∙ omega (arith, ih)

-- An id is told from the later ones of its cell until the cell has been freed 1024 times: after n
-- times the epoch is the first one again exactly when 1024 divides n.
pub advance_epoch-wraps : (n e : ℕ) → e < 2 ^ 10 → (epochs n e ≡ e) ↔ (n % 2 ^ 10 ≡ 0)
advance_epoch-wraps n e h =
    let all = epochs_lem n e h in ((λ same. omega (arith, all)), (λ whole. omega (arith, all)))

-- What the end of free_cell keeps, of the page `q` too.
record Kept (m n : Manager) (q : ℕ) : Type 0 where
  array : n.array ≡ m.array
  shift : n.log2_cells_per_page ≡ m.log2_cells_per_page
  active : (n.page q).is_active ≡ (m.page q).is_active

retire_page-Kept : (p : ℕ) (m : Manager) (q : ℕ) → m.empty_page ≢ q → Kept m (retire_page p m) q
unfolding retire_page delete_page remove_from_list
retire_page-Kept p m q h = elim (Bool-cases (m.empty_page == 0)) [
  | inl e ↦ rw e (record { array = refl; shift = refl; active = refl })
  | inr e ↦ rw e (record { array = refl; shift = refl; active = ground arith })
]

move_to_front-Kept : (p : ℕ) (m : Manager) (q : ℕ) → Kept m (move_to_front p m) q
move_to_front-Kept p m q =
    let same = move_to_front-Same p m in
    record { array = same.array; shift = same.shift; active = ap (λ g. (g q).is_active) same.page }

module _ (m : Manager) (c q : ℕ) (h : m.empty_page ≢ q) where
  return_cell-Active : ((return_cell m c).page q).is_active ≡ (m.page q).is_active
  unfolding return_cell
  return_cell-Active = ground arith

  return_cell-Empty : (return_cell m c).empty_page ≢ q
  unfolding return_cell
  return_cell-Empty = h

  free_cell-Kept : Kept (return_cell m c) (free_cell m c) q
  unfolding free_cell
  free_cell-Kept = elim (Bool-cases (is_empty (return_cell m c) (page_of m c))) [
    | inl e ↦
        let k = retire_page-Kept (page_of m c) (return_cell m c) q return_cell-Empty in
        rw e (record { array = k.array; shift = k.shift; active = k.active })
    | inr e ↦
        let k = move_to_front-Kept (page_of m c) (return_cell m c) q in
        rw e (record { array = k.array; shift = k.shift; active = k.active })
  ]

return_cell-Epoch :
    (m : Manager) (c : ℕ) → ((return_cell m c).array c).epoch ≡ advance_epoch (m.array c).epoch
unfolding return_cell
return_cell-Epoch m c = ground arith

return_cell-shift :
    (m : Manager) (c : ℕ) → (return_cell m c).log2_cells_per_page ≡ m.log2_cells_per_page
unfolding return_cell
return_cell-shift m c = refl

module _ (m : Manager) (id : ℕ) where
  lookup_eq :
      (m.page (page_of m (ObjectId.index id))).is_active ≡ true
      → lookup m id
        ≡ some (
            if (m.array (ObjectId.index id)).epoch == ObjectId.epoch id
            then (m.array (ObjectId.index id)).local_address
            else 0)
  unfolding lookup
  lookup_eq active = rw active

  release_eq :
      (m.page (page_of m (ObjectId.index id))).is_active ≡ true
      → (m.array (ObjectId.index id)).epoch ≡ ObjectId.epoch id
      → release m id ≡ some (free_cell m (ObjectId.index id))
  unfolding release lookup_cell
  release_eq active e =
      let same : ((m.array (ObjectId.index id)).epoch == ObjectId.epoch id) ≡ true = ground arith in
      rw (active, same)

-- An id that has been released leads nowhere: where the page of its cell is committed and is not
-- the empty page, and the id is the cell's current one, release succeeds, and a lookup of
-- the same id then returns nullptr.
pub lookup-release :
    (m : Manager) (id : ℕ)
    → (m.page (page_of m (ObjectId.index id))).is_active ≡ true
    → m.empty_page ≢ page_of m (ObjectId.index id)
    → (m.array (ObjectId.index id)).epoch ≡ ObjectId.epoch id
    → ObjectId.epoch id < 2 ^ 10
    → (n : Manager) × (release m id ≡ some n) × (lookup n id ≡ some 0)
unfolding page_of
lookup-release m id active kept e h =
    let c = ObjectId.index id in
    let n = free_cell m c in
    let k = free_cell-Kept m c (page_of m c) kept in
    let place : page_of n c ≡ page_of m c =
      ap (λ s. suc (c / 2 ^ s)) (k.shift ∙ return_cell-shift m c) in
    let committed : (n.page (page_of n c)).is_active ≡ true =
      ap (λ p. (n.page p).is_active) place
      ∙ k.active
      ∙ return_cell-Active m c (page_of m c) kept
      ∙ active in
    let later : (n.array c).epoch ≡ advance_epoch (ObjectId.epoch id) =
      ap (λ a. (a c).epoch) k.array ∙ return_cell-Epoch m c ∙ ap advance_epoch e in
    let stale : ((n.array c).epoch == ObjectId.epoch id) ≡ false =
      ==_false _ _
        (λ same. absurd (omega (arith, advance_epoch_lem (ObjectId.epoch id) h, later, same))) in
    (n, release_eq m id active e, lookup_eq n id committed ∙ (rw stale))

-- The id that an object gets with the cell `c`.
abbrev pub new_id : Privacy → Manager → ℕ → ℕ
new_id privacy m c = make_global_id (m.array c).epoch m.process_id c privacy

-- A manager that is not at capacity, whose first page `p` is committed and has `c` as its first
-- free cell; the cell's epoch is in range.
module _ (fresh : ℕ → Cell) (m : Manager) (obj p c : ℕ) (fs rest : List ℕ) (q : ℕ) (gs : List ℕ)
    (room : at_capacity m ≡ false) (z : m.free_list_size ≢ 0) (l : FreeList m (p ∷ rest))
    (f : FreeCells m p (c ∷ fs)) (apart : q ≢ p) (g : FreeCells m q gs)
    (active : (m.page p).is_active ≡ true) (he : (m.array c).epoch < 2 ^ 10)
    (hp : m.process_id < 2 ^ 16) (hc : c < 2 ^ 31) where
  registered :
      (privacy : Privacy)
      → (n : Manager) × (register fresh privacy m obj ≡ some (n, some (new_id privacy m c)))
        × ((n.page (page_of n c)).is_active ≡ true)
        × (n.array c ≡ fill_cell privacy obj (m.array c))
  unfolding register page_of fill
  registered privacy =
      let (r, given, t) = alloc_cell-front fresh m p c fs rest q gs z l f apart g in
      let entry : r.0.array r.1 ≡ m.array c = ap r.0.array t.cell ∙ ap (λ a. a c) t.array in
      let id : make_global_id (r.0.array r.1).epoch r.0.process_id r.1 privacy
          ≡ make_global_id (m.array c).epoch m.process_id c privacy =
        rw (entry, t.process, t.cell) refl in
      let place : suc (c / 2 ^ r.0.log2_cells_per_page) ≡ p =
        ap (λ s. suc (c / 2 ^ s)) t.shift ∙ f.4.0 in
      let hit : (r.1 == c) ≡ true = ground (arith, t.cell) in
      (
        (fill privacy obj r).0,
        rw (room, given) (ap (λ i. some ((fill privacy obj r).0, some i)) id),
        ap (λ x. (r.0.page x).is_active) place ∙ t.active ∙ active,
        rw (hit, entry) refl,
      )

  -- Registering an object privately gives it an id by which it is found, where the table is not at
  -- capacity, the free list has a page and its count is not zero, its first page is committed and
  -- gives out the cell `c`, `q` is some other page with its free cells, and the cell's epoch, the
  -- cell and the process fit the fields of an id.
  pub lookup-register_private :
      (n : Manager) × (register fresh Privacy.private m obj
        ≡ some (n, some (new_id Privacy.private m c)))
      × (lookup n (new_id Privacy.private m c) ≡ some obj)
  unfolding fill_cell
  lookup-register_private =
      let (n, done, committed, entry) = registered Privacy.private in
      let fields = make_global_id-fields (m.array c).epoch m.process_id c he hp hc in
      let at : ObjectId.index (new_id Privacy.private m c) ≡ c = fields.2 in
      let epoch : ((n.array c).epoch == ObjectId.epoch (new_id Privacy.private m c)) ≡ true =
        ground (arith, ap (λ k. k.epoch) entry, fields.0) in
      (
        n,
        done,
        lookup_eq n (new_id Privacy.private m c)
              (ap (λ i. (n.page (page_of n i)).is_active) at ∙ committed)
            ∙ rw (at, epoch) (ap (λ k. some k.local_address) entry),
      )

  -- Registering an object as shared succeeds, and a lookup of the id that it gets returns nullptr,
  -- unless the cell has the epoch 0x3ff: the id has that epoch whatever the cell's is. The table is
  -- not at capacity, the free list has a page and its count is not zero, its first page is
  -- committed and gives out the cell `c`, `q` is some other page with its free cells, and the
  -- cell's epoch, the cell and the process fit the fields of an id.
  pub lookup-register_shared :
      (m.array c).epoch ≢ 0x3ff
      → (n : Manager) × (register fresh Privacy.shared m obj
          ≡ some (n, some (new_id Privacy.shared m c)))
        × (lookup n (new_id Privacy.shared m c) ≡ some 0)
  unfolding fill_cell
  lookup-register_shared young =
      let (n, done, committed, entry) = registered Privacy.shared in
      let fields = make_global_id-shared (m.array c).epoch m.process_id c he (omega arith) hc in
      let at : ObjectId.index (new_id Privacy.shared m c) ≡ c = fields.2 in
      let epoch : ((n.array c).epoch == ObjectId.epoch (new_id Privacy.shared m c)) ≡ false =
        ground (arith, ap (λ k. k.epoch) entry, fields.0) in
      (
        n,
        done,
        lookup_eq n (new_id Privacy.shared m c)
              (ap (λ i. (n.page (page_of n i)).is_active) at ∙ committed)
            ∙ rw (at, epoch) refl,
      )
