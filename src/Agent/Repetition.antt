-- ===== src/Agent/Repetition.antt =====
-- `detectLoop` of internal/agent/engine.go against its description: the last three calls are the
-- same tool with the same arguments.
use mathlib.Core.Bool.{true≢false}
use kubeminds.Prelude.{
  ◌≡◌, ◌↔◌, refl, sym, ap, true, false, ◌&&◌, List, [], ◌∷◌, ◌++◌, arith, ◌≤◌, ◌<◌, ◌∙◌, &&-eq_true,
  lt→ltb,
}
use kubeminds.Prelude.Lists.{length, length-append}
use kubeminds.Prelude.Bytes.{str_eq_iff}
use kubeminds.Crd.{Finding}
use kubeminds.Agent.Engine.{same_call, detect_loop}

abbrev pub SameCall : Finding → Finding → Type 0
SameCall f g = (f.tool_name ≡ g.tool_name) × (f.tool_args ≡ g.tool_args)

-- The findings end in three of the same call.
pub record Repeats (fs : List Finding) : Type 0 where
  pub before : List Finding
  pub first : Finding
  pub second : Finding
  pub third : Finding
  pub split : fs ≡ before ++ (first ∷ second ∷ third ∷ [])
  pub again : SameCall second first
  pub still : SameCall third first

same_call_iff : (f g : Finding) → (same_call f g ≡ true) ↔ SameCall f g
unfolding same_call
same_call_iff f g =
    ground (arith, str_eq_iff f.tool_name g.tool_name, str_eq_iff f.tool_args g.tool_args)

detect_loop_three :
    (f g h : Finding) → detect_loop (f ∷ g ∷ h ∷ []) 3 ≡ (same_call g f && (same_call h f && true))
unfolding detect_loop
detect_loop_three f g h = refl

detect_loop-cons :
    (f g h k : Finding) (fs : List Finding)
    → detect_loop (f ∷ g ∷ h ∷ k ∷ fs) 3 ≡ detect_loop (g ∷ h ∷ k ∷ fs) 3
unfolding detect_loop
detect_loop-cons f g h k fs = ground arith

-- A longer past does not matter.
detect_loop-longer :
    (x : Finding) (fs : List Finding) → 3 ≤ length fs → detect_loop (x ∷ fs) 3 ≡ detect_loop fs 3
detect_loop-longer x [] h = absurd (omega arith)
detect_loop-longer x (f ∷ []) h = absurd (omega arith)
detect_loop-longer x (f ∷ g ∷ []) h = absurd (omega arith)
detect_loop-longer x (f ∷ g ∷ k ∷ fs) h = detect_loop-cons x f g k fs

detect_loop-append :
    (before : List Finding) (f g h : Finding)
    → detect_loop (before ++ (f ∷ g ∷ h ∷ [])) 3 ≡ (same_call g f && (same_call h f && true))
detect_loop-append [] f g h = detect_loop_three f g h
detect_loop-append (x ∷ before) f g h =
    detect_loop-longer x (before ++ (f ∷ g ∷ h ∷ []))
      (omega (arith, length-append before (f ∷ g ∷ h ∷ [])))
    ∙ detect_loop-append before f g h

too_short : (fs : List Finding) → length fs < 3 → detect_loop fs 3 ≡ false
unfolding detect_loop
too_short fs h = rw (lt→ltb (length fs) 3 h)

detect_loop-Repeats : (fs : List Finding) → detect_loop fs 3 ≡ true → Repeats fs
detect_loop-Repeats [] e = absurd (true≢false (sym e ∙ too_short [] (omega arith)))
detect_loop-Repeats (f ∷ []) e = absurd (true≢false (sym e ∙ too_short (f ∷ []) (omega arith)))
detect_loop-Repeats (f ∷ g ∷ []) e =
    absurd (true≢false (sym e ∙ too_short (f ∷ g ∷ []) (omega arith)))
detect_loop-Repeats (f ∷ g ∷ h ∷ []) e =
    let (p, q) = &&-eq_true (same_call g f) _ (sym (detect_loop_three f g h) ∙ e) in
    record {
      before = [];
      first = f;
      second = g;
      third = h;
      split = refl;
      again = (same_call_iff g f).0 p;
      still = (same_call_iff h f).0 (&&-eq_true (same_call h f) true q).0;
    }
detect_loop-Repeats (f ∷ g ∷ h ∷ k ∷ fs) e =
    let r = detect_loop-Repeats (g ∷ h ∷ k ∷ fs) (sym (detect_loop-cons f g h k fs) ∙ e) in
    record {
      before = f ∷ r.before;
      first = r.first;
      second = r.second;
      third = r.third;
      split = ap (λ xs. f ∷ xs) r.split;
      again = r.again;
      still = r.still;
    }

Repeats-detect_loop : (fs : List Finding) → Repeats fs → detect_loop fs 3 ≡ true
Repeats-detect_loop fs r = rw r.split (
    rw (detect_loop-append r.before r.first r.second r.third) (
      ground (
        arith,
        (same_call_iff r.second r.first).1 r.again,
        (same_call_iff r.third r.first).1 r.still,
      )))

-- The loop check fires exactly when the run's last three tool calls are of the same tool with the
-- same arguments.
pub detect_loop_iff : (fs : List Finding) → (detect_loop fs 3 ≡ true) ↔ Repeats fs
detect_loop_iff fs = (detect_loop-Repeats fs, Repeats-detect_loop fs)
