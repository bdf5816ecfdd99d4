-- ===== src/Graph/Paths/Sorted.antt =====
-- graph.py: the paths sorted by their length.
use continuityos.Prelude.{
  subst, ◌≤◌, String, List, [], ◌∷◌, true, false, leb, length, ◌≡◌, refl, ◌⊎◌, inl, inr, ◌↔◌, arith,
  Any, All, All-map, Bool-cases,
}
use continuityos.Graph.Paths.{insert_path, sort_paths}

abbrev pub IsAscending : List (List String) → Type 0
IsAscending [] = Unit
IsAscending (p ∷ ps) = All (λ q. length p ≤ length q) ps × IsAscending ps

insert_path-before :
    (p q : List String) (qs : List (List String))
    → leb (length p) (length q) ≡ true
    → p ∷ q ∷ qs ≡ insert_path p (q ∷ qs)
unfolding insert_path
insert_path-before p q qs h = rw h refl

insert_path-after :
    (p q : List String) (qs : List (List String))
    → leb (length p) (length q) ≡ false
    → q ∷ insert_path p qs ≡ insert_path p (q ∷ qs)
unfolding insert_path
insert_path-after p q qs h = rw h refl

insert_path-All :
    (P : List String → Type 0) (p : List String) (qs : List (List String))
    → P p
    → All P qs
    → All P (insert_path p qs)
unfolding insert_path
insert_path-All P p [] h k = (h, tt)
insert_path-All P p (q ∷ qs) h k = elim (Bool-cases (leb (length p) (length q))) [
  | inl b ↦ subst (All P) (insert_path-before p q qs b) (h, k)
  | inr b ↦ subst (All P) (insert_path-after p q qs b) (k.0, insert_path-All P p qs h k.1)
]

insert_path-IsAscending :
    (p : List String) (qs : List (List String)) → IsAscending qs → IsAscending (insert_path p qs)
unfolding insert_path
insert_path-IsAscending p [] a = (tt, tt)
insert_path-IsAscending p (q ∷ qs) a = elim (Bool-cases (leb (length p) (length q))) [
  | inl b ↦
      let le : length p ≤ length q = ground arith in
      subst IsAscending (insert_path-before p q qs b) ((le, All-map (λ r k. omega arith) qs a.0), a)
  | inr b ↦
      let le : length q ≤ length p = ground arith in
      subst IsAscending (insert_path-after p q qs b)
        (insert_path-All (λ r. length q ≤ length r) p qs le a.0, insert_path-IsAscending p qs a.1)
]

pub sort_paths-IsAscending : (ps : List (List String)) → IsAscending (sort_paths ps)
unfolding sort_paths
sort_paths-IsAscending [] = tt
sort_paths-IsAscending (p ∷ ps) =
    insert_path-IsAscending p (sort_paths ps) (sort_paths-IsAscending ps)

insert_path-Any :
    (P : List String → Type 0) (p : List String) (qs : List (List String))
    → Any P (insert_path p qs) ↔ (P p ⊎ Any P qs)
unfolding insert_path
insert_path-Any P p [] = (λ h. h, λ h. h)
insert_path-Any P p (q ∷ qs) = elim (Bool-cases (leb (length p) (length q))) [
  | inl b ↦
      subst (λ l. Any P l ↔ (P p ⊎ Any P (q ∷ qs))) (insert_path-before p q qs b) (λ h. h, λ h. h)
  | inr b ↦
      let (f, g) = insert_path-Any P p qs in
      subst (λ l. Any P l ↔ (P p ⊎ Any P (q ∷ qs))) (insert_path-after p q qs b)
        (λ h. ground (arith, f), λ h. ground (arith, g))
]

-- Sorting keeps the members.
pub sort_paths-Any :
    (P : List String → Type 0) (ps : List (List String)) → Any P (sort_paths ps) ↔ Any P ps
unfolding sort_paths
sort_paths-Any P [] = (λ h. h, λ h. h)
sort_paths-Any P (p ∷ ps) =
    let (f, g) = insert_path-Any P p (sort_paths ps) in
    let (f', g') = sort_paths-Any P ps in (λ h. ground (arith, f, f'), λ h. ground (arith, g, g'))
