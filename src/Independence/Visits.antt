-- ===== src/Independence/Visits.antt =====
-- What a visit of independence.py returns is what the node depends on, at any depth.
use continuityos.Prelude.{
  ℕ, zero, suc, String, eq_iff, List, [], ◌∷◌, true, Option, some, ◌≡◌, refl, subst, inl, inr,
  arith, Bool-cases, some_injective, if◌then◌else◌,
}
use continuityos.Graph.{DependencyEdge, among}
use continuityos.Graph.Unvisited.{among-cons}
use continuityos.Independence.{scan_edges, visit_upstream}
use continuityos.Independence.Reach.{DependsOn, Spec, ScanSpec, scan-ScanSpec}

module _ {F : Type 0} where
  Spec-visited :
      (edges : List (DependencyEdge F)) (node : String) (v : List String)
      → among node v ≡ true
      → Spec edges node v [] v
  unfolding among
  Spec-visited edges node v h = record {
    grows = λ y a. a;
    itself = h;
    sound = λ x a. absurd (cc);
    closed = λ y x a b d. absurd (cc);
  }

  Spec-scanned :
      (edges : List (DependencyEdge F)) (node : String) (v up v' : List String)
      → ScanSpec edges edges node (node ∷ v) up v'
      → Spec edges node v up v'
  Spec-scanned edges node v up v' s = record {
    grows = λ y a. s.grows y (ground (arith, among-cons y node v));
    itself = s.grows node (ground (arith, among-cons node node v, eq_iff node node));
    sound = s.sound;
    closed = λ y x now before d. elim (Bool-cases (among y (node ∷ v))) [
      | inl a ↦
          let same : y ≡ node = ground (arith, among-cons y node v, eq_iff y node) in
          s.scanned x (subst (λ m. DependsOn edges m x) same d)
      | inr a ↦ s.closed y x now a d
    ];
  }

  pub visit-suc :
      (edges : List (DependencyEdge F)) (depth : ℕ) (node : String) (v : List String)
      → visit_upstream edges (suc depth) node v ≡ (
          if among node v
          then some ([], v)
          else scan_edges (visit_upstream edges depth) node edges (node ∷ v))
  unfolding visit_upstream
  visit-suc edges depth node v = refl

  visit-zero :
      (edges : List (DependencyEdge F)) (node : String) (v up v' : List String)
      → visit_upstream edges zero node v ≡ some (up, v')
      → ⊥
  unfolding visit_upstream
  visit-zero edges node v up v' h = cc

  visit-visited :
      (edges : List (DependencyEdge F)) (depth : ℕ) (node : String) (v up v' : List String)
      → among node v ≡ true
      → visit_upstream edges (suc depth) node v ≡ some (up, v')
      → ◌≡◌ {A = Option (List String × List String)} (some ([], v)) (some (up, v'))
  visit-visited edges depth node v up v' a h = ground (arith, visit-suc edges depth node v)

  -- Whatever a visit returns, it is right.
  pub visit-Spec :
      (edges : List (DependencyEdge F)) (depth : ℕ) (node : String) (v up v' : List String)
      → visit_upstream edges depth node v ≡ some (up, v')
      → Spec edges node v up v'
  visit-Spec edges zero node v up v' h = absurd (visit-zero edges node v up v' h)
  visit-Spec edges (suc depth) node v up v' h = elim (Bool-cases (among node v)) [
    | inl a ↦
        subst (λ r. Spec edges node v r.0 r.1)
          (some_injective (visit-visited edges depth node v up v' a h))
          (Spec-visited edges node v a)
    | inr a ↦ Spec-scanned edges node v up v' (
        scan-ScanSpec edges (visit_upstream edges depth) node
          (λ m w up' w' e. visit-Spec edges depth m w up' w' e) edges (node ∷ v) up v' (λ x d. d)
          (ground (arith, visit-suc edges depth node v)))
  ]
