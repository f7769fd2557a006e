-- ===== src/Gcs/Sink/Paths.antt =====
-- What the check of `LocalDirSink` lets through, and what it refuses.
use xero_visma_v.Base.{
  ℕ, ◌+◌, ◌-◌, ◌≡◌, refl, ap, ap₂, ◌∙◌, ◌⊎◌, inl, inr, true, Option, none, some, List, [], ◌∷◌,
  ◌++◌, append_assoc, append-nil, subst, Text, codes, text_eq_iff, text_eq_refl, ok, err, length,
  leb, All, All-append, &&_split, Bool-cases,
}
use xero_visma_v.Gcs.Sink.{
  Component, root_dir, cur_dir, parent_dir, normal, components, pop, component_eq, path_starts_with,
  resolve_loop, escapes, join_components, within_root, resolve_within_root,
}

-- A component of a path that neither stays nor goes up.
abbrev pub IsPlain : Component → Type 0
IsPlain cur_dir = ⊥
IsPlain parent_dir = ⊥
IsPlain root_dir = Unit
IsPlain (normal s) = Unit

abbrev pub IsNormal : Component → Type 0
IsNormal (normal s) = Unit
IsNormal _ = ⊥

pop-IsPlain : (path : List Component) → All IsPlain path → All IsPlain (pop path)
unfolding pop
pop-IsPlain [] h = tt
pop-IsPlain (root_dir ∷ []) h = h
pop-IsPlain (cur_dir ∷ []) h = tt
pop-IsPlain (parent_dir ∷ []) h = tt
pop-IsPlain (normal s ∷ []) h = tt
pop-IsPlain (c ∷ d ∷ rest) h = (h.0, pop-IsPlain (d ∷ rest) h.1)

resolve_loop-IsPlain :
    (depth_of_root : ℕ) (path resolved out : List Component) (depth : ℕ)
    → All IsPlain resolved
    → resolve_loop depth_of_root path resolved depth ≡ some out
    → All IsPlain out
unfolding resolve_loop
resolve_loop-IsPlain k [] resolved out depth h e = subst (All IsPlain) (cc) h
resolve_loop-IsPlain k (cur_dir ∷ path) resolved out depth h e =
    resolve_loop-IsPlain k path resolved out depth h e
resolve_loop-IsPlain k (parent_dir ∷ path) resolved out depth h e =
    elim (Bool-cases (leb depth k)) [
      | inl y ↦ absurd (cc (rw (y) at e))
      | inr n ↦
          resolve_loop-IsPlain k path (pop resolved) out (depth - 1) (pop-IsPlain resolved h)
            (rw n at e)
    ]
resolve_loop-IsPlain k (root_dir ∷ path) resolved out depth h e =
    resolve_loop-IsPlain k path (root_dir ∷ []) out (depth + 1) (tt, tt) e
resolve_loop-IsPlain k (normal s ∷ path) resolved out depth h e =
    resolve_loop-IsPlain k path (resolved ++ (normal s ∷ [])) out (depth + 1)
      (All-append IsPlain resolved (normal s ∷ []) h (tt, tt)) e

component_eq→eq : (c d : Component) → component_eq c d ≡ true → c ≡ d
component_eq→eq root_dir root_dir h = refl
component_eq→eq cur_dir cur_dir h = refl
component_eq→eq parent_dir parent_dir h = refl
component_eq→eq (normal s) (normal t) h = ap normal ((text_eq_iff s t).0 h)
component_eq→eq root_dir cur_dir h = cc
component_eq→eq root_dir parent_dir h = cc
component_eq→eq root_dir (normal t) h = cc
component_eq→eq cur_dir root_dir h = cc
component_eq→eq cur_dir parent_dir h = cc
component_eq→eq cur_dir (normal t) h = cc
component_eq→eq parent_dir root_dir h = cc
component_eq→eq parent_dir cur_dir h = cc
component_eq→eq parent_dir (normal t) h = cc
component_eq→eq (normal s) root_dir h = cc
component_eq→eq (normal s) cur_dir h = cc
component_eq→eq (normal s) parent_dir h = cc

starts_with-split :
    (path root : List Component)
    → path_starts_with path root ≡ true
    → (rest : List Component) × (path ≡ root ++ rest)
unfolding path_starts_with
starts_with-split path [] h = (path, refl)
starts_with-split [] (d ∷ root) h = absurd (cc)
starts_with-split (c ∷ path) (d ∷ root) h =
    let (same, more) = &&_split (component_eq c d) (path_starts_with path root) h in
    let (rest, e) = starts_with-split path root more in (rest, ap₂ ◌∷◌ (component_eq→eq c d same) e)

within_root-ok :
    (root : List Component) (key : Text) (o : Option (List Component)) (path : List Component)
    → within_root root key o ≡ ok path
    → (o ≡ some path) × (path_starts_with path root ≡ true)
unfolding within_root
within_root-ok root key none path h = absurd (cc)
within_root-ok root key (some found) path h = elim (Bool-cases (path_starts_with found root)) [
  | inl y ↦
      let same : found ≡ path = cc (rw y at h) in
      (ap some same, subst (λ p. path_starts_with p root ≡ true) same y)
  | inr n ↦ absurd (cc (rw n at h))
]

within_root-cases :
    (root : List Component) (key : Text) (o : Option (List Component))
    → (within_root root key o ≡ err (escapes key))
      ⊎ ((path : List Component) × (within_root root key o ≡ ok path))
unfolding within_root
within_root-cases root key none = inl refl
within_root-cases root key (some found) = elim (Bool-cases (path_starts_with found root)) [
  | inl y ↦ inr (found, rw y)
  | inr n ↦ inl (rw n)
]

-- What the check accepts stays below the root: the path is the root with more components behind
-- it, and no component of it goes up.
pub resolve_within_root_sound :
    (root : List Component) (key : Text) (path : List Component)
    → resolve_within_root root key ≡ ok path
    → (rest : List Component) × (path ≡ root ++ rest) × All IsPlain path
unfolding resolve_within_root
resolve_within_root_sound root key path h =
    let (found, starts) = within_root-ok root key _ path h in
    let (rest, e) = starts_with-split path root starts in
    (
      rest,
      e,
      resolve_loop-IsPlain (length root) (join_components root (components key)) [] path 0 tt found,
    )

All-front : (xs ys : List Component) → All IsPlain (xs ++ ys) → All IsPlain xs
All-front [] ys h = tt
All-front (x ∷ xs) ys h = (h.0, All-front xs ys h.1)

-- A root that itself begins with a dot, or goes up, lets no key through.
pub resolve_within_root-refuses :
    (root : List Component) (key : Text)
    → ¬ (All IsPlain root)
    → resolve_within_root root key ≡ err (escapes key)
unfolding resolve_within_root
resolve_within_root-refuses root key dotted = elim (within_root-cases root key _) [
  | inl e ↦ e
  | inr (path, e) ↦
      let (rest, split, plain) = resolve_within_root_sound root key path e in
      absurd (dotted (All-front root rest (subst (All IsPlain) split plain)))
]

-- The default of `--local-dir`, `./out`, refuses every key.
pub default_dir-refuses :
    (key : Text) → resolve_within_root (components (codes "./out")) key ≡ err (escapes key)
unfolding components
default_dir-refuses key = resolve_within_root-refuses (components (codes "./out")) key (λ h. h.0)

loop-normals :
    (k depth : ℕ) (path resolved : List Component)
    → All IsNormal path
    → resolve_loop k path resolved depth ≡ some (resolved ++ path)
unfolding resolve_loop
loop-normals k depth [] resolved h = rw append-nil
loop-normals k depth (root_dir ∷ path) resolved h = absurd h.0
loop-normals k depth (cur_dir ∷ path) resolved h = absurd h.0
loop-normals k depth (parent_dir ∷ path) resolved h = absurd h.0
loop-normals k depth (normal s ∷ path) resolved h =
    loop-normals k (depth + 1) path (resolved ++ (normal s ∷ [])) h.1
    ∙ ap some (append_assoc resolved (normal s ∷ []) path)

component_eq_refl : (c : Component) → component_eq c c ≡ true
component_eq_refl root_dir = refl
component_eq_refl cur_dir = refl
component_eq_refl parent_dir = refl
component_eq_refl (normal s) = text_eq_refl s

starts_with-append : (root rest : List Component) → path_starts_with (root ++ rest) root ≡ true
unfolding path_starts_with
starts_with-append [] rest = refl
starts_with-append (c ∷ root) rest = rw (component_eq_refl c) (starts_with-append root rest)

-- An absolute root: the root directory and names below it.
abbrev pub IsAbsolute : List Component → Type 0
IsAbsolute (root_dir ∷ names) = All IsNormal names
IsAbsolute _ = ⊥

join-normals :
    (names path : List Component)
    → All IsNormal path
    → join_components (root_dir ∷ names) path ≡ root_dir ∷ names ++ path
unfolding join_components
join-normals names [] h = refl
join-normals names (root_dir ∷ path) h = absurd h.0
join-normals names (cur_dir ∷ path) h = absurd h.0
join-normals names (parent_dir ∷ path) h = absurd h.0
join-normals names (normal s ∷ path) h = refl

within_root-found :
    (root : List Component) (key : Text) (rest : List Component)
    → within_root root key (some (root ++ rest)) ≡ ok (root ++ rest)
unfolding within_root
within_root-found root key rest = rw (starts_with-append root rest)

-- Below an absolute root every key of plain names is accepted, and its path is the root with those
-- names behind it.
resolve_within_root-accepts :
    (root : List Component) (key : Text)
    → IsAbsolute root
    → All IsNormal (components key)
    → resolve_within_root root key ≡ ok (root ++ components key)
unfolding resolve_within_root
resolve_within_root-accepts [] key ha hk = absurd ha
resolve_within_root-accepts (cur_dir ∷ names) key ha hk = absurd ha
resolve_within_root-accepts (parent_dir ∷ names) key ha hk = absurd ha
resolve_within_root-accepts (normal s ∷ names) key ha hk = absurd ha
resolve_within_root-accepts (root_dir ∷ names) key ha hk =
    let root : List Component = root_dir ∷ names in
    let looped =
      loop-normals (length root) 1 (names ++ components key) (root_dir ∷ [])
        (All-append IsNormal names (components key) ha hk) in
    ap (λ path. within_root root key (resolve_loop (length root) path [] 0))
      (join-normals names (components key) hk)
    ∙ ap (within_root root key) looped
    ∙ within_root-found root key (components key)
