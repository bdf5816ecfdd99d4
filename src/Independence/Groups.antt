-- ===== src/Independence/Groups.antt =====
-- independence.py, the second half of `analyze_category`: the union-find structure that groups the
-- providers which share a dependency. A dictionary is a list of keys with their values; `find` and
-- `union` change it, so they return it. `none` is a missing key, or a recursion past `depth`.
pub mod Roots
pub mod Classes
pub mod Count
mod Examples
use continuityos.Prelude.{
  ℕ, zero, suc, ◌+◌, String, str_eq, List, [], ◌∷◌, ◌++◌, Bool, true, false, Option, none, some,
  length, if◌then◌else◌,
}
use continuityos.Graph.{among}
use continuityos.Struct.{◌>>=◌}

abbrev pub Parents : Type 0
Parents = List (String × String)

-- `parent[i]`
unfoldable pub parent_of : String → Parents → Option String
parent_of i [] = none
parent_of i ((k, p) ∷ parents) =
    let rest = parent_of i parents in if str_eq i k then some p else rest

-- `parent[i] = r`
unfoldable pub assign : String → String → Parents → Parents
assign i r [] = (i, r) ∷ []
assign i r ((k, p) ∷ parents) =
    let rest = assign i r parents in if str_eq i k then (k, r) ∷ parents else (k, p) ∷ rest

-- `{pid: pid for pid in provider_node_ids}`
unfoldable pub own_parents : List String → Parents → Parents
own_parents [] parents = parents
own_parents (pid ∷ pids) parents = own_parents pids (assign pid pid parents)

unfoldable pub find : ℕ → String → Parents → Option (String × Parents)
find zero i parents = none
find (suc depth) i parents = do
  p ← parent_of i parents
  let above = find depth p parents
  if str_eq p i
      then some (i, parents)
      else (above >>= λ (r, parents'). some (r, assign i r parents'))

unfoldable pub union : ℕ → String → String → Parents → Option Parents
union depth i j parents = do
  (root_i, parents1) ← find depth i parents
  (root_j, parents2) ← find depth j parents1
  some (if str_eq root_i root_j then parents2 else assign root_i root_j parents2)

-- `pids[i]` with `pids[i + 1]`
abbrev pub neighbours : List String → List (String × String)
neighbours [] = []
neighbours (p ∷ []) = []
neighbours (p ∷ q ∷ pids) = (p, q) ∷ neighbours (q ∷ pids)

-- the unions of the loop over `shared_list`, in its order
abbrev pub links : List (List String) → List (String × String)
links [] = []
links (pids ∷ shared) = neighbours pids ++ links shared

unfoldable pub union_all : ℕ → List (String × String) → Parents → Option Parents
union_all depth [] parents = some parents
union_all depth ((i, j) ∷ pairs) parents = do
  parents' ← union depth i j parents
  union_all depth pairs parents'

-- `add` on a set
abbrev pub add : String → List String → List String
add x xs = if among x xs then xs else x ∷ xs

-- `{find(pid) for pid in provider_node_ids}`
unfoldable pub unique_roots : ℕ → List String → List String → Parents → Option (List String)
unique_roots depth [] roots parents = some roots
unique_roots depth (pid ∷ pids) roots parents = do
  (r, parents') ← find depth pid parents
  unique_roots depth pids (add r roots) parents'

-- A union makes a chain of parents longer by one at most.
abbrev pub depth_for : List (List String) → ℕ
depth_for shared = length (links shared) + 1

-- `independent_count`, from the providers of each shared dependency
unfoldable pub independent_count : List String → List (List String) → Option ℕ
independent_count provider_node_ids shared = do
  parents ← union_all (depth_for shared) (links shared) (own_parents provider_node_ids [])
  roots ← unique_roots (depth_for shared) provider_node_ids [] parents
  some (length roots)
