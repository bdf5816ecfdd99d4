-- ===== src/Independence/Category/Verdict.antt =====
-- The verdict of `analyze_category`: it is always given, its count is the number of classes of
-- providers, and two providers with a common upstream node are in one class.
use continuityos.Prelude.{
  ℕ, String, List, [], ◌∷◌, map, true, some, length, ltb, any, ◌≡◌, ◌↔◌, inl, inr, refl, ap, sym,
  ◌∙◌, subst, arith, Bool-cases, eq_iff, Any, All, ◌||◌, any_iff,
}
use continuityos.Graph.{DependencyGraph, among}
use continuityos.Graph.Unvisited.{among-append}
use continuityos.Independence.Reach.{Upstream}
use continuityos.Independence.Exact.{get_upstream_dependencies-Upstream}
use continuityos.Independence.Groups.{links, neighbours}
use continuityos.Independence.Groups.Roots.{str_cases}
use continuityos.Independence.Groups.Classes.{Linked}
use continuityos.Independence.Groups.Count.{distinct, independent_count-Linked, among-All}
use continuityos.Independence.Groups.Classes.Linked.{itself}
use continuityos.Independence.Category.{
  SharedDependency, IndependenceResult, Upstreams, sorted, sorted_set, users_of, upstream_ids,
  is_dependency, put_shared, node_dependency, node_dependencies, attr_keys, shared_list,
  upstreams_of, providers_of, is_redundant, analyze_category,
}
use continuityos.Independence.Category.Linking.{
  sort_dependencies-All, sort_dependencies-Any, Any-both, users_of-here, users_of-there,
  Linked-more, members-Linked, links-neighbours,
}
use continuityos.Independence.Category.Shared.{
  sorted_set-All, sorted_set-among, two_members, users_of-All, pids_with-All, values_of-All,
  put_shared-All, node_dependencies-All, node_dependencies-Any, attribute_dependencies-All,
  attribute_dependencies-Any,
}

module _ {F : Type 0} (graph : DependencyGraph F) (ps : List String) where
  -- every shared dependency names declared providers
  shared_list-declared :
      (ups : Upstreams)
      → All (λ e. among e.0 ps ≡ true) ups
      → All (λ d. All (λ p. among p ps ≡ true) d.shared_by_providers) (shared_list graph ps ups)
  unfolding shared_list
  shared_list-declared ups h =
      let Q = λ (d : SharedDependency). All (λ p. among p ps ≡ true) d.shared_by_providers in
      sort_dependencies-All Q _ (
        attribute_dependencies-All graph.nodes Q ps attr_keys _
          (λ key v.
            sorted_set-All (λ p. among p ps ≡ true) _
              (pids_with-All (λ p. among p ps ≡ true) v _
                (values_of-All graph.nodes (λ p. among p ps ≡ true) key ps
                  (among-All ps (λ k m. m)))))
          (node_dependencies-All graph.nodes Q ups (upstream_ids ups) []
            (λ u.
              sorted_set-All (λ p. among p ps ≡ true) _
                (users_of-All (λ p. among p ps ≡ true) u ups h))
            tt))

  -- the dependency on a node, with all its users
  abbrev NamesUsers : Upstreams → SharedDependency → Type 0
  NamesUsers ups d = d.shared_by_providers ≡ sorted_set (users_of d.dependency_id ups)

  put_shared-node :
      (ups : Upstreams) (u : String) (deps : List SharedDependency)
      → All (NamesUsers ups) deps
      → ltb 1 (length (sorted_set (users_of u ups))) ≡ true
      → Any
          (λ d. d.shared_by_providers ≡ sorted_set (users_of u ups))
          (put_shared (node_dependency graph.nodes ups u) deps)
  put_shared-node ups u deps names two = elim (Bool-cases (any (is_dependency u) deps)) [
    | inl p ↦
        simp (two, p)
          (Any-both (λ d same named. named ∙ ap (λ i. sorted_set (users_of i ups)) same) deps
            ((any_iff (is_dependency u) (λ d. d.dependency_id ≡ u) (λ d. eq_iff d.dependency_id u)
                deps).0
              p)
            names)
    | inr p ↦ simp (two, p) (inl refl)
  ]

  node_dependencies-node :
      (ups : Upstreams) (u : String) (us : List String) (deps : List SharedDependency)
      → All (NamesUsers ups) deps
      → among u us ≡ true
      → ltb 1 (length (sorted_set (users_of u ups))) ≡ true
      → Any
          (λ d. d.shared_by_providers ≡ sorted_set (users_of u ups))
          (node_dependencies graph.nodes ups us deps)
  unfolding node_dependencies among
  node_dependencies-node ups u [] deps names h two = absurd (cc)
  node_dependencies-node ups u (w ∷ us) deps names h two = elim (str_cases u w) [
    | inl e ↦
        node_dependencies-Any graph.nodes _ ups us
          (put_shared (node_dependency graph.nodes ups w) deps)
          (subst
            (λ x.
              Any (λ d. d.shared_by_providers ≡ sorted_set (users_of u ups))
                (put_shared (node_dependency graph.nodes ups x) deps))
            e (put_shared-node ups u deps names two))
    | inr (_, e) ↦
        node_dependencies-node ups u us (put_shared (node_dependency graph.nodes ups w) deps)
          (put_shared-All (NamesUsers ups) (node_dependency graph.nodes ups w) deps refl names)
          (ground arith) two
  ]

  upstreams_of_total :
      (pids : List String)
      → All (λ p. among p ps ≡ true) pids
      → (ups : Upstreams) × (upstreams_of graph pids ≡ some ups)
        × All (λ e. among e.0 ps ≡ true) ups
        × ((k u : String)
            → among k pids ≡ true
            → Upstream graph.edges k u
            → (among u (upstream_ids ups) ≡ true) × (among k (users_of u ups) ≡ true))
  unfolding upstreams_of among
  upstreams_of_total [] h = ([], refl, tt, λ k u m _. absurd (cc))
  upstreams_of_total (pid ∷ pids) (h, hs) =
      let (up, found, exact) = get_upstream_dependencies-Upstream graph pid in
      let (ups, rest, names, uses) = upstreams_of_total pids hs in
      (
        (pid, up) ∷ ups,
        simp (found, rest) refl,
        (h, names),
        λ k u m above. elim (str_cases k pid) [
          | inl e ↦
              let below = (exact u).1 (subst (λ x. Upstream graph.edges x u) e above) in
              (
                among-append u up (upstream_ids ups)
                    ∙ ap (λ b. b || among u (upstream_ids ups)) below,
                subst (λ x. among x (users_of u ((pid, up) ∷ ups)) ≡ true) (sym e)
                    (users_of-here u pid up ups below),
              )
          | inr (_, e) ↦
              let (ids, users) = uses k u (ground arith) above in
              (
                ground (arith, among-append u up (upstream_ids ups)),
                users_of-there u k pid up ups users,
              )
        ],
      )

  -- two different providers with a common upstream node are connected
  shared_list-Linked :
      (ups : Upstreams) (k l u : String)
      → among u (upstream_ids ups) ≡ true
      → among k (users_of u ups) ≡ true
      → among l (users_of u ups) ≡ true
      → Linked (links (providers_of (shared_list graph ps ups))) k l
  unfolding shared_list
  shared_list-Linked ups k l u ids in_k in_l = elim (str_cases k l) [
    | inl e ↦ subst (Linked _ k) e itself
    | inr (apart, _) ↦
        let users = sorted_set (users_of u ups) in
        let has_k = sorted_set-among k (users_of u ups) in_k in
        let has_l = sorted_set-among l (users_of u ups) in_l in
        let Q = λ (d : SharedDependency). d.shared_by_providers ≡ users in
        Linked-more (neighbours users) _
          (links-neighbours users _ (
            sort_dependencies-Any Q _ (
              attribute_dependencies-Any graph.nodes Q ps attr_keys _ (
                node_dependencies-node ups u (upstream_ids ups) [] tt ids
                  (two_members k l users has_k has_l apart)))))
          k l (members-Linked k l users has_k has_l)
  ]

providers_of-All :
    (P : String → Type 0) (deps : List SharedDependency)
    → All (λ d. All P d.shared_by_providers) deps
    → All (λ pids. All P pids) (providers_of deps)
providers_of-All P [] h = tt
providers_of-All P (d ∷ deps) (h, hs) = (h, providers_of-All P deps hs)

-- For every graph and every declared provider, the analysis gives a result. Some naming of the classes
-- gives two declared providers the same name exactly when the reported dependencies connect them, two
-- providers with a common upstream node have the same name, and the independent count is the number
-- of distinct names.
pub analyze_category-Linked :
    {F : Type 0} (graph : DependencyGraph F) (category pid : String) (pids : List String)
    (minimum : ℕ)
    → (r : IndependenceResult) × (analyze_category graph category (pid ∷ pids) minimum ≡ some r)
      × ((name : String → String) × ((k l : String)
            → among k (pid ∷ pids) ≡ true
            → among l (pid ∷ pids) ≡ true
            → (name k ≡ name l) ↔ Linked (links (providers_of r.shared_dependencies)) k l)
          × ((k l u : String)
              → among k (pid ∷ pids) ≡ true
              → among l (pid ∷ pids) ≡ true
              → Upstream graph.edges k u
              → Upstream graph.edges l u
              → name k ≡ name l)
          × (r.independent_count ≡ length (distinct (map name (pid ∷ pids)) [])))
unfolding analyze_category
analyze_category-Linked graph category pid pids minimum =
    let ps = pid ∷ pids in
    let (ups, found, names, uses) = upstreams_of_total graph ps ps (among-All ps (λ k m. m)) in
    let shared = shared_list graph ps ups in
    let (name, classes, count) = independent_count-Linked ps (providers_of shared) (
      providers_of-All (λ p. among p ps ≡ true) shared (shared_list-declared graph ps ups names)) in
    (
      record {
        category = category;
        declared_providers = sorted ps;
        declared_count = length ps;
        independent_count = length (distinct (map name ps) []);
        shared_dependencies = shared;
        redundancy_valid = is_redundant minimum (length ps) (length (distinct (map name ps) []));
      },
      simp (found, count) refl,
      (
        name,
        classes,
        λ k l u in_k in_l up_k up_l.
            let (ids, has_k) = uses k u in_k up_k in
            let (_, has_l) = uses l u in_l up_l in
            (classes k l in_k in_l).1 (shared_list-Linked graph ps ups k l u ids has_k has_l),
        refl,
      ),
    )
