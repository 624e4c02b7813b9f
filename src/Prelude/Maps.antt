-- ===== src/Prelude/Maps.antt =====
-- `map[string]V` as an association list with one entry for a key. The order of the list stands
-- for the order of one `range` loop, which Go leaves open.
use mathlib.Core.Path.{◌≡◌, refl}
use mathlib.Core.Logic.{inl, inr}
use mathlib.Core.List.{List, [], ◌∷◌, map}
use mathlib.Core.Option.{Option, none, some}
use native.Mathlib.Omega.{arith}
use kubeminds.Prelude.Tests.{if◌then◌else◌, Bool-cases}
use kubeminds.Prelude.Lists.{All}
use mathlib.Core.Path.{subst₂}
use kubeminds.Prelude.Bytes.{Str, str_eq, str_eq_refl, str_eq_sound, str_eq_iff}

abbrev pub Map : Type 0 → Type 0
Map V = List (Str × V)

-- `map[string]string`
abbrev pub Labels : Type 0
Labels = Map Str

module _ {V : Type 0} where
  -- `v, ok := m[k]`
  unfoldable pub lookup : Str → Map V → Option V
  lookup k [] = none
  lookup k ((j, v) ∷ m) = if str_eq j k then some v else lookup k m

  -- `m[k] = v`
  unfoldable pub insert : Str → V → Map V → Map V
  insert k v [] = (k, v) ∷ []
  insert k v ((j, w) ∷ m) = if str_eq j k then (k, v) ∷ m else (j, w) ∷ insert k v m

  -- `delete(m, k)`
  unfoldable pub delete : Str → Map V → Map V
  delete k [] = []
  delete k ((j, w) ∷ m) = if str_eq j k then m else (j, w) ∷ delete k m

  -- `for k, v := range src { dst[k] = v }`
  unfoldable pub merge : Map V → Map V → Map V
  unfolding insert
  merge [] dst = dst
  merge ((k, v) ∷ src) dst = merge src (insert k v dst)

  abbrev pub values : Map V → List V
  values = map (λ e. e.1)

  -- No key stands twice.
  abbrev pub IsMap : Map V → Type 0
  IsMap [] = Unit
  IsMap ((k, v) ∷ m) = (lookup k m ≡ none) × IsMap m

  pub lookup-insert :
      (k j : Str) (v : V) (m : Map V)
      → lookup j (insert k v m) ≡ (if str_eq k j then some v else lookup j m)
  unfolding lookup insert
  lookup-insert k j v [] = refl
  lookup-insert k j v ((i, w) ∷ m) =
      ground (arith, str_eq_iff k j, str_eq_iff i k, str_eq_iff i j, lookup-insert k j v m)

  pub lookup-insert_self : (k : Str) (v : V) (m : Map V) → lookup k (insert k v m) ≡ some v
  lookup-insert_self k v m = rw (lookup-insert, str_eq_refl)

  pub insert-IsMap : (k : Str) (v : V) (m : Map V) → IsMap m → IsMap (insert k v m)
  unfolding lookup insert
  insert-IsMap k v [] h = (refl, tt)
  insert-IsMap k v ((j, w) ∷ m) h = elim (Bool-cases (str_eq j k)) [
    | inl e ↦ rw (e, insert) (ground (arith, str_eq_sound j k))
    | inr e ↦
        rw (e, insert)
          (
            ground (arith, str_eq_iff k j, str_eq_iff j k, lookup-insert k j v m),
            insert-IsMap k v m h.1,
          )
  ]

  pub merge-IsMap : (src dst : Map V) → IsMap dst → IsMap (merge src dst)
  unfolding merge
  merge-IsMap [] dst h = h
  merge-IsMap ((k, v) ∷ src) dst h = merge-IsMap src (insert k v dst) (insert-IsMap k v dst h)

  -- What a merge leaves under a key: the entry of the source if it has one.
  pub lookup-merge :
      (j : Str) (src dst : Map V)
      → IsMap src
      → lookup j (merge src dst) ≡ elim (lookup j src) [ none ↦ lookup j dst | some v ↦ some v ]
  unfolding lookup merge
  lookup-merge j [] dst h = refl
  lookup-merge j ((k, v) ∷ src) dst h =
      ground
        (arith, lookup-merge j src (insert k v dst) h.1, lookup-insert k j v dst, str_eq_iff k j)

-- `m[k]` in a `map[string]string`: a missing key reads as "".
unfoldable pub label : Str → Labels → Str
unfolding lookup
label k m = elim (lookup k m) [ none ↦ [] | some v ↦ v ]

module _ {V : Type 0} (P : Str × V → Type 0) where
  pub insert-All : (k : Str) (v : V) (m : Map V) → P (k, v) → All P m → All P (insert k v m)
  unfolding insert
  insert-All k v [] p h = (p, tt)
  insert-All k v ((j, w) ∷ m) p h = elim (Bool-cases (str_eq j k)) [
    | inl e ↦ rw e (p, h.1)
    | inr e ↦ rw e (h.0, insert-All k v m p h.1)
  ]

  pub lookup-All : (k : Str) (v : V) (m : Map V) → lookup k m ≡ some v → All P m → P (k, v)
  unfolding lookup
  lookup-All k v [] e h = absurd (none_ne_some e)
    where
      none_ne_some : ◌≡◌ {A = Option V} none (some v) → ⊥
      none_ne_some q = cc
  lookup-All k v ((j, w) ∷ m) e h = elim (Bool-cases (str_eq j k)) [
    | inl q ↦ subst₂ (λ a b. P (a, b)) (str_eq_sound j k q) (ground arith) h.0
    | inr q ↦ lookup-All k v m (ground arith) h.1
  ]
