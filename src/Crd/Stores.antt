-- ===== src/Crd/Stores.antt =====
-- What writing and taking a cell leave as it was.
use kubeminds.Prelude.{ℕ, ◌≤◌, ◌<◌, ◌≡◌, arith}
use kubeminds.Crd.Heap.{Cell, Heap, store, alloc}

-- Two heaps with the same cells from one address up to another.
abbrev pub Agree : ℕ → ℕ → Heap → Heap → Type 0
Agree lo hi g h = (a : ℕ) → lo ≤ a → a < hi → g.cells a ≡ h.cells a

pub alloc-Agree : (v : Cell) (h : Heap) → Agree 0 h.next (alloc v h).1 h
alloc-Agree v h a l m = ground arith

pub store-Agree : (lo hi b : ℕ) (v : Cell) (h : Heap) → b < lo → Agree lo hi (store b v h) h
store-Agree lo hi b v h l a p q = ground arith

pub store_below : (a b : ℕ) (v : Cell) (h : Heap) → a < b → (store b v h).cells a ≡ h.cells a
store_below a b v h l = ground arith

pub store_read : (b : ℕ) (v : Cell) (h : Heap) → (store b v h).cells b ≡ v
store_read b v h = ground arith

pub store_above-Agree : (lo hi b : ℕ) (v : Cell) (h : Heap) → hi ≤ b → Agree lo hi (store b v h) h
store_above-Agree lo hi b v h l a p q = ground arith
