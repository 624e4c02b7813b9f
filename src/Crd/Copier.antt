-- ===== src/Crd/Copier.antt =====
-- When a copy of an object of api/v1alpha1 is as good as the object, and shares nothing with it.
use mathlib.Core.Path.{ap₂}
use kubeminds.Prelude.{ℕ, ◌≤◌, ◌≡◌, refl, ◌∙◌, arith}
use kubeminds.Crd.Heap.{Heap}
use kubeminds.Crd.Stores.{Agree}
use kubeminds.Crd.DeepCopy.{value_into}

-- A copying function for the objects of a type, with what an object stands for, and the addresses
-- that it uses.
pub record Copier (T R : Type 0) : Type 1 where
  pub copy : T → Heap → T × Heap
  pub view : Heap → T → R
  pub Within : ℕ → ℕ → Heap → T → Type 0
  pub widens :
      (lo hi lo' hi' : ℕ) (h : Heap) (t : T)
      → lo' ≤ lo
      → hi ≤ hi'
      → Within lo hi h t
      → Within lo' hi' h t
  pub depends :
      (lo hi : ℕ) (g h : Heap) (t : T)
      → Agree lo hi g h
      → Within lo hi h t
      → (view g t ≡ view h t) × Within lo hi g t
  pub grows : (t : T) (h : Heap) → h.next ≤ (copy t h).1.next
  pub leaves : (t : T) (h : Heap) → Agree 0 h.next (copy t h).1 h
  pub is_new :
      (t : T) (h : Heap)
      → Within 0 h.next h t
      → Within h.next (copy t h).1.next (copy t h).1 (copy t h).0
  pub is_same : (t : T) (h : Heap) → Within 0 h.next h t → view (copy t h).1 (copy t h).0 ≡ view h t

-- A value without pointers.
abbrev pub value : {T : Type 0} → Copier T T
value = record {
  copy = value_into;
  view = λ h t. t;
  Within = λ lo hi h t. Unit {0};
  widens = λ lo hi lo' hi' h t p q w. tt;
  depends = λ lo hi g h t e w. (refl, tt);
  grows = λ t h. omega arith;
  leaves = λ t h a l m. refl;
  is_new = λ t h w. tt;
  is_same = λ t h w. refl;
}

-- Two objects, one after the other.
module _ {T R U S : Type 0} (c : Copier T R) (d : Copier U S) where
  abbrev pub copy_both : T × U → Heap → (T × U) × Heap
  copy_both (t, u) h = let (t', h₁) = c.copy t h in let (u', h₂) = d.copy u h₁ in ((t', u'), h₂)

  abbrev pub WithinBoth : ℕ → ℕ → Heap → T × U → Type 0
  WithinBoth lo hi h p = c.Within lo hi h p.0 × d.Within lo hi h p.1

  abbrev pub view_both : Heap → T × U → R × S
  view_both h p = (c.view h p.0, d.view h p.1)

  -- The second object is where it was after the copy of the first.
  second :
      (t : T) (u : U) (h : Heap)
      → d.Within 0 h.next h u
      → (d.view (c.copy t h).1 u ≡ d.view h u) × d.Within 0 (c.copy t h).1.next (c.copy t h).1 u
  second t u h w =
      let h₁ = (c.copy t h).1 in
      let (e, w') = d.depends 0 h.next h₁ h u (c.leaves t h) w in
      (e, d.widens 0 h.next 0 h₁.next h₁ u (omega arith) (c.grows t h) w')

  -- The copy of the first object is where it was after the copy of the second.
  first :
      (t : T) (u : U) (h : Heap)
      → c.Within 0 h.next h t
      → let h₁ = (c.copy t h).1 in
        let t' = (c.copy t h).0 in
        let h₂ = (d.copy u h₁).1 in (c.view h₂ t' ≡ c.view h₁ t') × c.Within h.next h₁.next h₂ t'
  first t u h w =
      let h₁ = (c.copy t h).1 in
      let t' = (c.copy t h).0 in
      let h₂ = (d.copy u h₁).1 in
      c.depends h.next h₁.next h₂ h₁ t' (λ a l m. d.leaves u h₁ a (omega arith) m) (c.is_new t h w)

  pub both_new :
      (p : T × U) (h : Heap)
      → WithinBoth 0 h.next h p
      → WithinBoth h.next (copy_both p h).1.next (copy_both p h).1 (copy_both p h).0
  both_new (t, u) h (v, w) =
      let h₁ = (c.copy t h).1 in
      let t' = (c.copy t h).0 in
      let h₂ = (d.copy u h₁).1 in
      let u' = (d.copy u h₁).0 in
      (
        c.widens h.next h₁.next h.next h₂.next h₂ t' (omega arith) (d.grows u h₁) (first t u h v).1,
        d.widens h₁.next h₂.next h.next h₂.next h₂ u' (c.grows t h) (omega arith)
            (d.is_new u h₁ (second t u h w).1),
      )

  pub both_same :
      (p : T × U) (h : Heap)
      → WithinBoth 0 h.next h p
      → let h' = (copy_both p h).1 in view_both h' (copy_both p h).0 ≡ view_both h p
  both_same (t, u) h (v, w) =
      let h₁ = (c.copy t h).1 in
      let (same, w') = second t u h w in
      ap₂ (λ a b. (a, b)) ((first t u h v).0 ∙ c.is_same t h v) (d.is_same u h₁ w' ∙ same)

  pub both_depends :
      (lo hi : ℕ) (g h : Heap) (p : T × U)
      → Agree lo hi g h
      → WithinBoth lo hi h p
      → (view_both g p ≡ view_both h p) × WithinBoth lo hi g p
  both_depends lo hi g h (t, u) e (v, w) =
      let (same_t, v') = c.depends lo hi g h t e v in
      let (same_u, w') = d.depends lo hi g h u e w in (ap₂ (λ a b. (a, b)) same_t same_u, (v', w'))

  pub both_grows : (p : T × U) (h : Heap) → h.next ≤ (copy_both p h).1.next
  both_grows (t, u) h =
      let first_grows = c.grows t h in let second_grows = d.grows u (c.copy t h).1 in omega arith

  pub both_leaves : (p : T × U) (h : Heap) → Agree 0 h.next (copy_both p h).1 h
  both_leaves (t, u) h a l m =
      let h₁ = (c.copy t h).1 in
      let grown = c.grows t h in d.leaves u h₁ a l (omega arith) ∙ c.leaves t h a l m

  abbrev pub both : Copier (T × U) (R × S)
  both = record {
    copy = copy_both;
    view = view_both;
    Within = WithinBoth;
    widens = λ lo hi lo' hi' h p q r w.
        (c.widens lo hi lo' hi' h p.0 q r w.0, d.widens lo hi lo' hi' h p.1 q r w.1);
    depends = both_depends;
    grows = both_grows;
    leaves = both_leaves;
    is_new = both_new;
    is_same = both_same;
  }
