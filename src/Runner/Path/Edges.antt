-- ===== src/Runner/Path/Edges.antt =====
-- The vector `adjacency` holds the usable links, each in both directions.
use afsim_ns.Base.{
  ℕ, zero, suc, ◌<◌, ◌≡◌, refl, Bool, true, List, [], ◌∷◌, ◌++◌, arith, length, get_or, set, In,
  ◌⊎◌, inl, inr, ◌↔◌, ◌==◌, if◌then◌else◌, replicate, Bool-cases, ◌&&◌,
}
use afsim_ns.Double.{Double}
use afsim_ns.Runner.Scenario.{NodeInput, LinkInput}
use afsim_ns.Runner.Path.Search.{push_edge, is_alive, is_usable, add_links}
use afsim_ns.Runner.Path.Scan.{length-set, length-replicate, get_or-replicate}

In-concat : (v x : ℕ) (xs : List ℕ) → In v (xs ++ x ∷ []) ↔ (In v xs ⊎ (v ≡ x))
In-concat v x [] = ground arith
In-concat v x (y ∷ xs) = ground (arith, In-concat v x xs)

get_or-set_list :
    (table : List (List ℕ)) (i u : ℕ) (row : List ℕ)
    → i < length table
    → get_or (set table i row) u [] ≡ (if u == i then row else get_or table u [])
get_or-set_list [] i u row h = absurd (omega arith)
get_or-set_list (r ∷ table) zero zero row h = refl
get_or-set_list (r ∷ table) zero (suc u) row h = ground arith
get_or-set_list (r ∷ table) (suc i) zero row h = ground arith
get_or-set_list (r ∷ table) (suc i) (suc u) row h = ground (arith, get_or-set_list table i u row)

In-push_edge :
    (a b u v : ℕ) (table : List (List ℕ))
    → a < length table
    → In v (get_or (push_edge a b table) u []) ↔ (In v (get_or table u []) ⊎ ((u ≡ a) × (v ≡ b)))
unfolding push_edge
In-push_edge a b u v table h = ground (
  arith,
  get_or-set_list table a u (get_or table a [] ++ b ∷ []) h,
  In-concat v b (get_or table a []),
)

length-push_edge : (a b : ℕ) (table : List (List ℕ)) → length (push_edge a b table) ≡ length table
unfolding push_edge
length-push_edge a b table = length-set table a (get_or table a [] ++ b ∷ [])

module _ (d : Double) where
  -- The two ends of a link, in one order or the other.
  abbrev pub Joins : LinkInput d → ℕ → ℕ → Type 0
  Joins link u v = ((u ≡ link.source) × (v ≡ link.target)) ⊎ ((u ≡ link.target) × (v ≡ link.source))

  -- Some link of the list is up, its ends are alive, and it joins the two nodes.
  abbrev pub IsEdge : List (NodeInput d) → List (LinkInput d) → ℕ → ℕ → Type 0
  IsEdge nodes [] u v = ⊥
  IsEdge nodes (link ∷ links) u v =
      ((is_usable d nodes link ≡ true) × Joins link u v) ⊎ IsEdge nodes links u v

  pub alive-lt : (nodes : List (NodeInput d)) (i : ℕ) → is_alive d nodes i ≡ true → i < length nodes
  alive-lt [] i h = cc
  alive-lt (n ∷ nodes) zero h = omega arith
  alive-lt (n ∷ nodes) (suc i) h = omega (arith, alive-lt nodes i h)

  pub usable-lt :
      (nodes : List (NodeInput d)) (link : LinkInput d)
      → is_usable d nodes link ≡ true
      → (link.source < length nodes) × (link.target < length nodes)
  unfolding is_usable
  usable-lt nodes link h =
      let (a, b) = split link.up (is_alive d nodes link.source) (is_alive d nodes link.target) h in
      (alive-lt nodes link.source a, alive-lt nodes link.target b)
    where
      split : (a b c : Bool) → a && b && c ≡ true → (b ≡ true) × (c ≡ true)
      split a b c e = ground arith

  pub IsEdge-lt :
      (nodes : List (NodeInput d)) (links : List (LinkInput d)) (u v : ℕ)
      → IsEdge nodes links u v
      → (u < length nodes) × (v < length nodes)
  IsEdge-lt nodes [] u v h = absurd h
  IsEdge-lt nodes (link ∷ links) u v (inr h) = IsEdge-lt nodes links u v h
  IsEdge-lt nodes (link ∷ links) u v (inl (h, j)) = ground (arith, usable-lt nodes link h)

  In-add_links :
      (nodes : List (NodeInput d)) (links : List (LinkInput d)) (table : List (List ℕ)) (u v : ℕ)
      → length table ≡ length nodes
      → In v (get_or (add_links d nodes links table) u [])
        ↔ (In v (get_or table u []) ⊎ IsEdge nodes links u v)
  unfolding add_links
  In-add_links nodes [] table u v h = ground arith
  In-add_links nodes (link ∷ links) table u v h = elim (Bool-cases (is_usable d nodes link)) [
    | inr e ↦ rw e (ground (arith, In-add_links nodes links table u v h))
    | inl e ↦
        let (a, b) = usable-lt nodes link e in
        let once = push_edge link.source link.target table in
        let size = length-push_edge link.source link.target table in
        let twice_size = length-push_edge link.target link.source once in
        rw e (
          ground (
            arith,
            In-add_links nodes links (push_edge link.target link.source once) u v (omega arith),
            In-push_edge link.source link.target u v table (omega arith),
            In-push_edge link.target link.source u v once (omega arith),
          ))
  ]

  -- After the loop over the links.
  pub In-adjacency :
      (nodes : List (NodeInput d)) (links : List (LinkInput d)) (u v : ℕ)
      → In v (get_or (add_links d nodes links (replicate (length nodes) [])) u [])
        ↔ IsEdge nodes links u v
  In-adjacency nodes links u v = ground (
    arith,
    In-add_links nodes links (replicate (length nodes) []) u v (length-replicate _ _),
    get_or-replicate {A = List ℕ} (length nodes) u [],
  )
