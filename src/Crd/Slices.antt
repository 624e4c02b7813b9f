-- ===== src/Crd/Slices.antt =====
-- The copier of the objects of a slice, one after the other.
use mathlib.Core.Path.{ap₂}
use kubeminds.Prelude.{ℕ, ◌≤◌, ◌≡◌, refl, ◌∙◌, List, [], ◌∷◌, map, arith}
use kubeminds.Crd.Heap.{Heap}
use kubeminds.Crd.DeepCopy.{copy_each}
use kubeminds.Crd.Stores.{Agree}
use kubeminds.Crd.Copier.{Copier}

module _ {T R : Type 0} (c : Copier T R) where
  abbrev pub view_each : Heap → List T → List R
  view_each h ts = map (c.view h) ts

  unfoldable pub WithinEach : ℕ → ℕ → Heap → List T → Type 0
  WithinEach lo hi h [] = Unit {0}
  WithinEach lo hi h (t ∷ ts) = c.Within lo hi h t × WithinEach lo hi h ts

  pub each_widens :
      (lo hi lo' hi' : ℕ) (h : Heap) (ts : List T)
      → lo' ≤ lo
      → hi ≤ hi'
      → WithinEach lo hi h ts
      → WithinEach lo' hi' h ts
  unfolding WithinEach
  each_widens lo hi lo' hi' h [] q r w = tt
  each_widens lo hi lo' hi' h (t ∷ ts) q r (v, w) =
      (c.widens lo hi lo' hi' h t q r v, each_widens lo hi lo' hi' h ts q r w)

  pub each_depends :
      (lo hi : ℕ) (g h : Heap) (ts : List T)
      → Agree lo hi g h
      → WithinEach lo hi h ts
      → (view_each g ts ≡ view_each h ts) × WithinEach lo hi g ts
  unfolding WithinEach
  each_depends lo hi g h [] e w = (refl, tt)
  each_depends lo hi g h (t ∷ ts) e (v, w) =
      let (same, v') = c.depends lo hi g h t e v in
      let (rest, w') = each_depends lo hi g h ts e w in (ap₂ (λ x xs. x ∷ xs) same rest, (v', w'))

  pub each_grows : (ts : List T) (h : Heap) → h.next ≤ (copy_each c.copy ts h).1.next
  unfolding copy_each
  each_grows [] h = omega arith
  each_grows (t ∷ ts) h =
      let first = c.grows t h in let rest = each_grows ts (c.copy t h).1 in omega arith

  pub each_leaves : (ts : List T) (h : Heap) → Agree 0 h.next (copy_each c.copy ts h).1 h
  unfolding copy_each
  each_leaves [] h a l m = refl
  each_leaves (t ∷ ts) h a l m =
      let h₁ = (c.copy t h).1 in
      let grown = c.grows t h in each_leaves ts h₁ a l (omega arith) ∙ c.leaves t h a l m

  -- The rest of the objects is where it was after the copy of the first.
  rest_left :
      (t : T) (ts : List T) (h : Heap)
      → WithinEach 0 h.next h ts
      → let h₁ = (c.copy t h).1 in (view_each h₁ ts ≡ view_each h ts) × WithinEach 0 h₁.next h₁ ts
  rest_left t ts h w =
      let h₁ = (c.copy t h).1 in
      let (e, w') = each_depends 0 h.next h₁ h ts (c.leaves t h) w in
      (e, each_widens 0 h.next 0 h₁.next h₁ ts (omega arith) (c.grows t h) w')

  -- The copy of the first object is where it was after the copies of the rest.
  first_left :
      (t : T) (ts : List T) (h : Heap)
      → c.Within 0 h.next h t
      → let (t', h₁) = c.copy t h in
        let h₂ = (copy_each c.copy ts h₁).1 in
        (c.view h₂ t' ≡ c.view h₁ t') × c.Within h.next h₁.next h₂ t'
  first_left t ts h w =
      let (t', h₁) = c.copy t h in
      let h₂ = (copy_each c.copy ts h₁).1 in
      c.depends h.next h₁.next h₂ h₁ t' (λ a l m. each_leaves ts h₁ a (omega arith) m)
        (c.is_new t h w)

  pub each_new :
      (ts : List T) (h : Heap)
      → WithinEach 0 h.next h ts
      → let (us, h') = copy_each c.copy ts h in WithinEach h.next h'.next h' us
  unfolding WithinEach copy_each
  each_new [] h w = tt
  each_new (t ∷ ts) h (v, w) =
      let (t', h₁) = c.copy t h in
      let (us, h₂) = copy_each c.copy ts h₁ in
      (
        c.widens h.next h₁.next h.next h₂.next h₂ t' (omega arith) (each_grows ts h₁)
            (first_left t ts h v).1,
        each_widens h₁.next h₂.next h.next h₂.next h₂ us (c.grows t h) (omega arith)
            (each_new ts h₁ (rest_left t ts h w).1),
      )

  pub each_same :
      (ts : List T) (h : Heap)
      → WithinEach 0 h.next h ts
      → let (us, h') = copy_each c.copy ts h in view_each h' us ≡ view_each h ts
  unfolding WithinEach copy_each
  each_same [] h w = refl
  each_same (t ∷ ts) h (v, w) =
      let h₁ = (c.copy t h).1 in
      let (same, w') = rest_left t ts h w in
      ap₂ (λ x xs. x ∷ xs) ((first_left t ts h v).0 ∙ c.is_same t h v) (each_same ts h₁ w' ∙ same)

  abbrev pub each : Copier (List T) (List R)
  each = record {
    copy = copy_each c.copy;
    view = view_each;
    Within = WithinEach;
    widens = each_widens;
    depends = each_depends;
    grows = each_grows;
    leaves = each_leaves;
    is_new = each_new;
    is_same = each_same;
  }
