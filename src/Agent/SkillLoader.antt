-- ===== src/Agent/SkillLoader.antt =====
-- internal/agent/skill_loader.go: reading the skill files, and the inheritance of skills. The walk
-- over the directory and the YAML decoder are outside: a walk is the list of what it visits.
use kubeminds.Prelude.{ℕ, zero, suc, Bool, true, false, ◌||◌, not, List, [], ◌∷◌, none, some}
use kubeminds.Prelude.Tests.{if◌then◌else◌}
use kubeminds.Prelude.Lists.{any, length}
use kubeminds.Prelude.Bytes.{Str, lit, str_eq, is_empty, has_suffix}
use kubeminds.Prelude.Maps.{Map, lookup, insert}
use kubeminds.Prelude.Errors.{Fallible, ok, err}
use kubeminds.Agent.Skill.{Skill, merge_with}

-- `no_fuel` is no error of the source: it stands for fuel that has run out.
pub data LoadError : Type 0 where
  walk_failed : Str → LoadError
  open_failed : Str → Str → LoadError
  parse_failed : Str → Str → LoadError
  missing_name : Str → LoadError
  not_found : Str → LoadError
  circular : Str → LoadError
  parent_failed : Str → LoadError → LoadError
  no_fuel : LoadError

pub data Loaded (A : Type 0) : Type 0 where
  loaded : A → Loaded A
  failed : LoadError → Loaded A

abbrev pub and_then : {A B : Type 0} → Loaded A → (A → Loaded B) → Loaded B
and_then (failed e) f = failed e
and_then (loaded a) f = f a

-- What the walk visits: an error, or a path, with whether it is a directory and what opening and
-- decoding it give, document by document.
pub record Visit : Type 0 where
  pub path : Str
  pub is_dir : Bool
  pub opened : Fallible (List (Fallible Skill))

unfoldable pub read_documents : Str → List (Fallible Skill) → Map Skill → Loaded (Map Skill)
read_documents path [] raw = loaded raw
read_documents path (err e ∷ ds) raw = failed (parse_failed path e)
read_documents path (ok s ∷ ds) raw =
    let rest = read_documents path ds (insert s.name s raw) in
    if is_empty s.name then failed (missing_name path) else rest

abbrev pub is_yaml : Str → Bool
is_yaml path = has_suffix path (lit ".yaml") || has_suffix path (lit ".yml")

unfoldable pub read_opened : Str → Fallible (List (Fallible Skill)) → Map Skill → Loaded (Map Skill)
unfolding read_documents
read_opened path (err e) raw = failed (open_failed path e)
read_opened path (ok docs) raw = read_documents path docs raw

unfoldable pub read_file : Visit → Map Skill → Loaded (Map Skill)
unfolding read_opened has_suffix lit
read_file v raw =
    if v.is_dir
    then loaded raw
    else if not (is_yaml v.path)
    then loaded raw
    else read_opened v.path v.opened raw

-- The first pass: all raw skills, by name; of two with one name the later stays.
unfoldable pub read_all : List (Fallible Visit) → Map Skill → Loaded (Map Skill)
unfolding read_file
read_all [] raw = loaded raw
read_all (err e ∷ vs) raw = failed (walk_failed e)
read_all (ok v ∷ vs) raw = and_then (read_file v raw) (λ raw'. read_all vs raw')

-- A resolved skill and the map `l.skills` after it.
abbrev pub Resolved : Type 0
Resolved = Loaded (Skill × Map Skill)

-- The end of `resolve`, once the parent is there.
abbrev pub inherit : Str → Skill → Resolved → Resolved
inherit name raw (failed e) = failed (parent_failed name e)
inherit name raw (loaded (parent, skills)) =
    let merged = merge_with parent raw in loaded (merged, insert name merged skills)

-- `resolve`. The names being resolved are an argument, since each call takes its own back when it
-- returns; `fuel` bounds the length of a chain of parents.
unfoldable pub resolve : ℕ → Map Skill → List Str → Map Skill → Str → Resolved
unfolding lookup insert merge_with
resolve zero raw resolving skills name = failed no_fuel
resolve (suc fuel) raw resolving skills name = elim (lookup name skills) [
  | some s ↦ loaded (s, skills)
  | none ↦ elim (lookup name raw) [
    | none ↦ failed (not_found name)
    | some r ↦ elim (any (λ n. str_eq n name) resolving) [
      | true ↦ failed (circular name)
      | false ↦ elim (is_empty r.parent) [
        | true ↦ loaded (r, insert name r skills)
        | false ↦ inherit name r (resolve fuel raw (name ∷ resolving) skills r.parent)
      ]
    ]
  ]
]

abbrev pub and_rest : (Map Skill → Loaded (Map Skill)) → Resolved → Loaded (Map Skill)
and_rest f (failed e) = failed e
and_rest f (loaded (_, skills)) = f skills

-- The second pass, over the names of the raw skills.
unfoldable pub resolve_all : ℕ → Map Skill → Map Skill → Map Skill → Loaded (Map Skill)
unfolding resolve
resolve_all fuel raw [] skills = loaded skills
resolve_all fuel raw ((name, _) ∷ rest) skills =
    and_rest (λ skills'. resolve_all fuel raw rest skills') (resolve fuel raw [] skills name)

unfoldable pub load_skills : List (Fallible Visit) → Loaded (Map Skill)
unfolding read_all resolve_all
load_skills visits =
    and_then (read_all visits []) (λ raw. resolve_all (suc (length raw)) raw raw [])
