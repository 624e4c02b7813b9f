-- ===== src/Crd/Pointing.antt =====
-- The copiers of what is behind a pointer, of a sequence, and of a record by its parts.
use mathlib.Core.Path.{subst}
use kubeminds.Prelude.{ℕ, ◌≤◌, ◌<◌, ◌≡◌, refl, sym, ap, ◌∙◌, Option, none, some, arith}
use kubeminds.Crd.Heap.{Pointer, Cell, Heap, store, alloc}
use kubeminds.Crd.DeepCopy.{copy_pointer}
use kubeminds.Crd.Stores.{Agree, alloc-Agree, store-Agree, store_below, store_read}
use kubeminds.Crd.Copier.{Copier}

-- A type of objects by its parts.
module _ {T U R S : Type 0} (c : Copier T R) (parts : U → T) (whole : T → U) (read : R → S)
    (whole-parts : (t : T) → parts (whole t) ≡ t) where
  abbrev pub copy_along : U → Heap → U × Heap
  copy_along u h = let (t, h') = c.copy (parts u) h in (whole t, h')

  pub along_new :
      (u : U) (h : Heap)
      → c.Within 0 h.next h (parts u)
      → let h' = (copy_along u h).1 in c.Within h.next h'.next h' (parts (copy_along u h).0)
  along_new u h w =
      let h' = (copy_along u h).1 in
      subst (c.Within h.next h'.next h') (sym (whole-parts (c.copy (parts u) h).0))
        (c.is_new (parts u) h w)

  pub along_same :
      (u : U) (h : Heap)
      → c.Within 0 h.next h (parts u)
      → let h' = (copy_along u h).1 in
        read (c.view h' (parts (copy_along u h).0)) ≡ read (c.view h (parts u))
  along_same u h w =
      let h' = (copy_along u h).1 in
      ap (λ t. read (c.view h' t)) (whole-parts (c.copy (parts u) h).0)
      ∙ ap read (c.is_same (parts u) h w)

  pub along_depends :
      (lo hi : ℕ) (g h : Heap) (u : U)
      → Agree lo hi g h
      → c.Within lo hi h (parts u)
      → (read (c.view g (parts u)) ≡ read (c.view h (parts u))) × c.Within lo hi g (parts u)
  along_depends lo hi g h u e w =
      let (same, w') = c.depends lo hi g h (parts u) e w in (ap read same, w')

  abbrev pub along : Copier U S
  along = record {
    copy = copy_along;
    view = λ h u. read (c.view h (parts u));
    Within = λ lo hi h u. c.Within lo hi h (parts u);
    widens = λ lo hi lo' hi' h u q r w. c.widens lo hi lo' hi' h (parts u) q r w;
    depends = along_depends;
    grows = λ u h. c.grows (parts u) h;
    leaves = λ u h. c.leaves (parts u) h;
    is_new = along_new;
    is_same = along_same;
  }

-- What is behind a pointer.
module _ {T R : Type 0} (c : Copier T R) (cell_of : T → Cell) (of_cell : Cell → T)
    (cell-read : (t : T) → of_cell (cell_of t) ≡ t) where
  abbrev pub view_at : Heap → Pointer → Option R
  view_at h none = none
  view_at h (some a) = some (c.view h (of_cell (h.cells a)))

  abbrev pub WithinAt : ℕ → ℕ → Heap → Pointer → Type 0
  WithinAt lo hi h none = Unit {0}
  WithinAt lo hi h (some a) = (lo ≤ a) × (a < hi) × c.Within lo hi h (of_cell (h.cells a))

  -- What the pointer refers to is where it was when a cell has been taken.
  taken :
      (a : ℕ) (h : Heap)
      → c.Within 0 h.next h (of_cell (h.cells a))
      → let x = of_cell (h.cells a) in
        let h₁ = (alloc (h.cells a) h).1 in (c.view h₁ x ≡ c.view h x) × c.Within 0 h₁.next h₁ x
  taken a h w =
      let x = of_cell (h.cells a) in
      let h₁ = (alloc (h.cells a) h).1 in
      let (same, w') = c.depends 0 h.next h₁ h x (alloc-Agree (h.cells a) h) w in
      (same, c.widens 0 h.next 0 h₁.next h₁ x (omega arith) (omega arith) w')

  -- The copy is where it was when the taken cell has been written.
  written :
      (a : ℕ) (h : Heap)
      → c.Within 0 h.next h (of_cell (h.cells a))
      → let h₁ = (alloc (h.cells a) h).1 in
        let (t, h₂) = c.copy (of_cell (h.cells a)) h₁ in
        let h' = store h.next (cell_of t) h₂ in
        (c.view h' t ≡ c.view h₂ t) × c.Within h₁.next h₂.next h' t
  written a h w =
      let x = of_cell (h.cells a) in
      let h₁ = (alloc (h.cells a) h).1 in
      let (t, h₂) = c.copy x h₁ in
      let h' = store h.next (cell_of t) h₂ in
      c.depends h₁.next h₂.next h' h₂ t
        (store-Agree h₁.next h₂.next h.next (cell_of t) h₂ (omega arith))
        (c.is_new x h₁ (taken a h w).1)

  pub at_widens :
      (lo hi lo' hi' : ℕ) (h : Heap) (p : Pointer)
      → lo' ≤ lo
      → hi ≤ hi'
      → WithinAt lo hi h p
      → WithinAt lo' hi' h p
  at_widens lo hi lo' hi' h none q r w = tt
  at_widens lo hi lo' hi' h (some a) q r (l, m, w) =
      (omega arith, omega arith, c.widens lo hi lo' hi' h (of_cell (h.cells a)) q r w)

  pub at_depends :
      (lo hi : ℕ) (g h : Heap) (p : Pointer)
      → Agree lo hi g h
      → WithinAt lo hi h p
      → (view_at g p ≡ view_at h p) × WithinAt lo hi g p
  at_depends lo hi g h none e w = (refl, tt)
  at_depends lo hi g h (some a) e (l, m, w) =
      let same = ap of_cell (e a l m) in
      let (view_same, w') = c.depends lo hi g h (of_cell (h.cells a)) e w in
      (ap some (ap (c.view g) same ∙ view_same), (l, m, subst (c.Within lo hi g) (sym same) w'))

  pub at_grows :
      (p : Pointer) (h : Heap) → h.next ≤ (copy_pointer cell_of of_cell c.copy p h).1.next
  unfolding copy_pointer
  at_grows none h = omega arith
  at_grows (some a) h =
      let grown = c.grows (of_cell (h.cells a)) (alloc (h.cells a) h).1 in omega arith

  pub at_leaves :
      (p : Pointer) (h : Heap) → Agree 0 h.next (copy_pointer cell_of of_cell c.copy p h).1 h
  unfolding copy_pointer
  at_leaves none h b l m = refl
  at_leaves (some a) h b l m =
      let h₁ = (alloc (h.cells a) h).1 in
      let (t, h₂) = c.copy (of_cell (h.cells a)) h₁ in
      let grown = c.leaves (of_cell (h.cells a)) h₁ b l (omega arith) in
      store_below b h.next (cell_of t) h₂ m ∙ grown ∙ alloc-Agree (h.cells a) h b l m

  pub at_new :
      (p : Pointer) (h : Heap)
      → WithinAt 0 h.next h p
      → let (q, h') = copy_pointer cell_of of_cell c.copy p h in WithinAt h.next h'.next h' q
  unfolding copy_pointer
  at_new none h w = tt
  at_new (some a) h (l, m, w) =
      let x = of_cell (h.cells a) in
      let h₁ = (alloc (h.cells a) h).1 in
      let (t, h₂) = c.copy x h₁ in
      let h' = store h.next (cell_of t) h₂ in
      let grown = c.grows x h₁ in
      let there = ap of_cell (store_read h.next (cell_of t) h₂) ∙ cell-read t in
      (
        omega arith,
        omega arith,
        subst (c.Within h.next h'.next h') (sym there) (
            c.widens h₁.next h₂.next h.next h'.next h' t (omega arith) (omega arith)
              (written a h w).1),
      )

  pub at_same :
      (p : Pointer) (h : Heap)
      → WithinAt 0 h.next h p
      → let (q, h') = copy_pointer cell_of of_cell c.copy p h in view_at h' q ≡ view_at h p
  unfolding copy_pointer
  at_same none h w = refl
  at_same (some a) h (l, m, w) =
      let x = of_cell (h.cells a) in
      let h₁ = (alloc (h.cells a) h).1 in
      let (t, h₂) = c.copy x h₁ in
      let h' = store h.next (cell_of t) h₂ in
      let there = ap of_cell (store_read h.next (cell_of t) h₂) ∙ cell-read t in
      let (new, w') = taken a h w in
      ap some (ap (c.view h') there ∙ (written a h w).0 ∙ c.is_same x h₁ w' ∙ new)

  abbrev pub pointer : Copier Pointer (Option R)
  pointer = record {
    copy = copy_pointer cell_of of_cell c.copy;
    view = view_at;
    Within = WithinAt;
    widens = at_widens;
    depends = at_depends;
    grows = at_grows;
    leaves = at_leaves;
    is_new = at_new;
    is_same = at_same;
  }
