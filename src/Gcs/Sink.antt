-- ===== src/Gcs/Sink.antt =====
-- core/crates/xero-gcs/src/sink.rs: where the local sink puts a key. Paths are those of Unix, and a
-- path is the list of its components.
pub mod Paths
pub mod Writes
pub mod Local
use xero_visma_v.Base.{
  ℕ, zero, suc, ◌+◌, ◌-◌, Bool, true, false, not, ◌&&◌, ◌||◌, Option, none, some, List, [], ◌∷◌,
  ◌++◌, Text, codes, text_eq, Result, ok, err, ◌>>=◌, length, leb, ◌==◌, is_nil, if◌then◌else◌,
}
use xero_visma_v.Base.BTree.{insert}
use xero_visma_v.Errors.{GcsError, upload, io}
use xero_visma_v.Foreign.{Json, Chrono}
use xero_visma_v.Gcs.Keys.{sidecar_key, manifest_key}
use xero_visma_v.Gcs.Meta.{ObjectMeta}

-- `std::path::Component` of a Unix path
pub data Component : Type 0 where
  root_dir cur_dir parent_dir : Component
  normal : Text → Component

-- The pieces between slashes.
unfoldable pub pieces : Text → Text → List Text
pieces [] current = current ∷ []
pieces (c ∷ s) current =
    let rest = pieces s [] in
    let more = pieces s (current ++ (c ∷ [])) in if c == b'/' then current ∷ rest else more

-- Empty pieces and dots are left out, but for a dot in front.
abbrev component : Text → List Component
component s =
    if is_nil s
    then []
    else if text_eq s (codes ".")
    then []
    else if text_eq s (codes "..")
    then parent_dir ∷ []
    else normal s ∷ []

unfoldable pub later_components : List Text → List Component
later_components [] = []
later_components (s ∷ rest) = component s ++ later_components rest

first_components : List Text → List Component
unfolding later_components
first_components [] = []
first_components (s ∷ rest) =
    if text_eq s (codes ".") then cur_dir ∷ later_components rest else later_components (s ∷ rest)

-- `Path::components`
unfoldable pub components : Text → List Component
unfolding pieces first_components later_components
components [] = []
components (c ∷ s) =
    if c == b'/'
    then root_dir ∷ later_components (pieces s [])
    else first_components (pieces (c ∷ s) [])

-- `PathBuf::push` on components: a root replaces what is there.
unfoldable pub push : Component → List Component → List Component
push root_dir path = root_dir ∷ []
push c path = path ++ (c ∷ [])

-- `PathBuf::pop`
unfoldable pub pop : List Component → List Component
pop [] = []
pop (c ∷ []) = elim c [ root_dir ↦ root_dir ∷ [] | _ ↦ [] ]
pop (c ∷ d ∷ rest) = c ∷ pop (d ∷ rest)

abbrev component_eq : Component → Component → Bool
component_eq root_dir root_dir = true
component_eq cur_dir cur_dir = true
component_eq parent_dir parent_dir = true
component_eq (normal s) (normal t) = text_eq s t
component_eq _ _ = false

-- `Path::starts_with`
unfoldable pub path_starts_with : List Component → List Component → Bool
path_starts_with path [] = true
path_starts_with [] (d ∷ base) = false
path_starts_with (c ∷ path) (d ∷ base) = component_eq c d && path_starts_with path base

-- The loop of `resolve_within_root` over the components of the joined path.
unfoldable pub resolve_loop : ℕ → List Component → List Component → ℕ → Option (List Component)
unfolding push pop
resolve_loop root_depth [] resolved depth = some resolved
resolve_loop root_depth (cur_dir ∷ rest) resolved depth =
    resolve_loop root_depth rest resolved depth
resolve_loop root_depth (parent_dir ∷ rest) resolved depth =
    if leb depth root_depth then none else resolve_loop root_depth rest (pop resolved) (depth - 1)
resolve_loop root_depth (root_dir ∷ rest) resolved depth =
    resolve_loop root_depth rest (push root_dir resolved) (depth + 1)
resolve_loop root_depth (normal s ∷ rest) resolved depth =
    resolve_loop root_depth rest (push (normal s) resolved) (depth + 1)

-- The message has the key as it is, without the quotes of `{:?}`.
pub escapes : Text → GcsError
escapes key = io (codes "key " ++ key ++ codes " escapes the sink root directory")

-- `Path::join`, on components: a key with a root of its own replaces the root.
unfoldable pub join_components : List Component → List Component → List Component
join_components root (root_dir ∷ key) = root_dir ∷ key
join_components [] key = key
join_components (r ∷ root) (cur_dir ∷ key) = r ∷ root ++ key
join_components (r ∷ root) key = r ∷ root ++ key

within_root : List Component → Text → Option (List Component) → Result GcsError (List Component)
unfolding path_starts_with escapes
within_root root key none = err (escapes key)
within_root root key (some resolved) =
    if path_starts_with resolved root then ok resolved else err (escapes key)

-- `LocalDirSink::resolve_within_root`, for the components of the root and a key.
unfoldable pub resolve_within_root : List Component → Text → Result GcsError (List Component)
unfolding within_root resolve_loop join_components components
resolve_within_root root key =
    within_root root key (resolve_loop (length root) (join_components root (components key)) [] 0)
