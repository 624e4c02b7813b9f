-- ===== src/Alert/Keys.antt =====
-- When two alerts have the same group key (internal/alert/types.go, `buildGroupKey`).
use mathlib.Core.List.{append_assoc}
use kubeminds.Prelude.{◌≡◌, ◌≢◌, ◌↔◌, refl, sym, ◌∙◌, [], ◌∷◌, ◌++◌, arith}
use kubeminds.Prelude.Lists.{All}
use kubeminds.Prelude.Bytes.{Str, lit}
use kubeminds.Prelude.Maps.{Labels, label}
use kubeminds.Alert.Types.{or_default, key_of, build_group_key}

abbrev pub NoSlash : Str → Type 0
NoSlash = All (λ b. b ≢ b'/')

slash_absurd : (x q p : Str) → NoSlash p → p ≢ x ++ (b'/' ∷ q)
slash_absurd [] q [] h e = cc
slash_absurd [] q (b ∷ p) h e = ground arith
slash_absurd (c ∷ x) q [] h e = cc
slash_absurd (c ∷ x) q (b ∷ p) h e = slash_absurd x q p h.1 (ground arith)

-- The text after the last slash is determined, and so is the text before it.
last_slash :
    (x y p q : Str) → NoSlash p → NoSlash q → x ++ (b'/' ∷ p) ≡ y ++ (b'/' ∷ q) → (x ≡ y) × (p ≡ q)
last_slash [] [] p q hp hq e = (refl, (ground arith))
last_slash [] (b ∷ y) p q hp hq e = absurd (slash_absurd y q p hp (ground arith))
last_slash (a ∷ x) [] p q hp hq e = absurd (slash_absurd x p q hq (ground arith))
last_slash (a ∷ x) (b ∷ y) p q hp hq e =
    let (r, s) = last_slash x y p q hp hq (ground arith) in ((ground arith), s)

or_default-NoSlash : (s d : Str) → NoSlash s → NoSlash d → NoSlash (or_default s d)
or_default-NoSlash [] d hs hd = hd
or_default-NoSlash (b ∷ s) d hs hd = hs

key_of-injective :
    (a n p a' n' p' : Str)
    → NoSlash n
    → NoSlash p
    → NoSlash n'
    → NoSlash p'
    → key_of a n p ≡ key_of a' n' p'
    → (a ≡ a') × (n ≡ n') × (p ≡ p')
unfolding key_of
key_of-injective a n p a' n' p' hn hp hn' hp' e =
    let (front, pods) = last_slash (a ++ (b'/' ∷ n)) (a' ++ (b'/' ∷ n')) p p' hp hp' (
      append_assoc a (b'/' ∷ n) (b'/' ∷ p) ∙ (e ∙ sym (append_assoc a' (b'/' ∷ n') (b'/' ∷ p')))) in
    let (names, spaces) = last_slash a a' n n' hn hn' front in (names, spaces, pods)

-- The parts of a key, with the defaults for what is missing.
abbrev pub name_part : Labels → Str
name_part l = or_default (label (lit "alertname") l) (lit "unknown")

abbrev pub namespace_part : Labels → Str
namespace_part l = or_default (label (lit "namespace") l) (lit "_")

abbrev pub pod_part : Labels → Str
pod_part l = or_default (label (lit "pod") l) (lit "_")

-- The namespace and the pod hold no slash, as the names of such objects do not.
abbrev pub IsPlain : Labels → Type 0
IsPlain l = NoSlash (label (lit "namespace") l) × NoSlash (label (lit "pod") l)

-- Two alerts whose namespaces and pods hold no slash have one group key exactly when they agree on
-- the alert name, the namespace and the pod, each with its default where it is missing.
pub build_group_key_iff :
    (l m : Labels)
    → IsPlain l
    → IsPlain m
    → (build_group_key l ≡ build_group_key m) ↔ (
        (name_part l ≡ name_part m)
        × (namespace_part l ≡ namespace_part m)
        × (pod_part l ≡ pod_part m))
unfolding build_group_key lit
build_group_key_iff l m hl hm = (
  key_of-injective _ (namespace_part l) (pod_part l) _ (namespace_part m) (pod_part m)
      (or_default-NoSlash _ (lit "_") hl.0 (omega arith))
      (or_default-NoSlash _ (lit "_") hl.1 (omega arith))
      (or_default-NoSlash _ (lit "_") hm.0 (omega arith))
      (or_default-NoSlash _ (lit "_") hm.1 (omega arith)),
  λ h. cc,
)
