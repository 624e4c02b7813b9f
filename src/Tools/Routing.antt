-- ===== src/Tools/Routing.antt =====
-- What the router (internal/tools/router.go) lists.
use mathlib.Core.List.{Memᴰ}
use mathlib.Core.List.Memᴰ
use kubeminds.Prelude.{◌≡◌, ◌↔◌, refl, inl, inr, List, [], ◌∷◌, ◌++◌}
use kubeminds.Prelude.Errors.{Fallible, ok, err}
use kubeminds.Agent.Types.{Tool}
use kubeminds.Tools.Router.{ToolProvider, listed, collect_tools, route_tools}

module _ {W : Type 0} (t : Tool W) where
  -- One of the providers, asked one after the other, answers with the tool.
  pub data Offers : List (ToolProvider W) → W → Type 0 where
    here :
        {p : ToolProvider W} {ps : List (ToolProvider W)} {w : W} (ts : List (Tool W))
        → (p w).0 ≡ ok ts
        → Memᴰ t ts
        → Offers (p ∷ ps) w
    there :
        {p : ToolProvider W} {ps : List (ToolProvider W)} {w : W}
        → Offers ps (p w).1
        → Offers (p ∷ ps) w

  collect_tools-Offers :
      (ps : List (ToolProvider W)) (w : W) → Memᴰ t (collect_tools ps w).0 → Offers ps w
  unfolding collect_tools
  collect_tools-Offers [] w m = absurd (Memᴰ.not-nil m)
  collect_tools-Offers (p ∷ ps) w m = go (λ n. collect_tools-Offers ps (p w).1 n) (p w).0 refl m
    where
      go :
          (Memᴰ t (collect_tools ps (p w).1).0 → Offers ps (p w).1)
          → (reply : Fallible (List (Tool W))) → (p w).0 ≡ reply
          → Memᴰ t (listed reply ++ (collect_tools ps (p w).1).0)
          → Offers (p ∷ ps) w
      go rest (err e) q n = there (rest n)
      go rest (ok ts) q n = elim (Memᴰ.append_cases ts n) [
        | inl i ↦ here ts q i
        | inr j ↦ there (rest j)
      ]

  Offers-collect_tools :
      (ps : List (ToolProvider W)) (w : W) → Offers ps w → Memᴰ t (collect_tools ps w).0
  unfolding collect_tools
  Offers-collect_tools _ w (here {p = p} {ps = ps} ts q i) =
      Memᴰ.append_left {s = listed (p w).0} (collect_tools ps (p w).1).0 (rw q i)
  Offers-collect_tools _ w (there {p = p} {ps = ps} o) =
      Memᴰ.append_right (listed (p w).0) (Offers-collect_tools ps (p w).1 o)

-- The router never fails, and lists exactly the tools of those of its providers that answer, asked
-- one after the other: a provider that fails hides no tool of another.
pub route_tools_iff :
    {W : Type 0} (ps : List (ToolProvider W)) (w : W)
    → (ts : List (Tool W)) × ((route_tools ps w).0 ≡ ok ts)
      × ((t : Tool W) → Memᴰ t ts ↔ Offers t ps w)
unfolding route_tools
route_tools_iff ps w =
    ((collect_tools ps w).0, refl, λ t. (collect_tools-Offers t ps w, Offers-collect_tools t ps w))
