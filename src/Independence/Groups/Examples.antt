-- ===== src/Independence/Groups/Examples.antt =====
-- Four providers, of which three hang together by two shared dependencies.
use continuityos.Prelude.{String, List, [], ◌∷◌, none, some, ◌≡◌, refl}
use continuityos.Graph.{among}
use continuityos.Independence.Groups.{
  independent_count, union_all, union, find, assign, parent_of, own_parents, unique_roots,
}

abbrev providers : List String
providers = "fiber" ∷ "gov" ∷ "oneweb" ∷ "starlink" ∷ []

abbrev shared : List (List String)
shared = ("fiber" ∷ "oneweb" ∷ []) ∷ ("gov" ∷ "oneweb" ∷ []) ∷ []

two_groups : independent_count providers shared ≡ some 2
unfolding independent_count union_all union find assign parent_of own_parents unique_roots among
two_groups = refl

unknown_provider : independent_count providers (("fiber" ∷ "mars" ∷ []) ∷ []) ≡ none
unfolding independent_count union_all union find assign parent_of own_parents unique_roots among
unknown_provider = refl
