-- ===== src/Runner/Path/Search.antt =====
-- The search itself.
use afsim_ns.Base.{
  ℕ, zero, suc, Bool, true, false, not, ◌&&◌, ◌||◌, List, [], ◌∷◌, ◌++◌, leb, ◌==◌, if◌then◌else◌,
  length, get_or, set, replicate, map,
}
use afsim_ns.Double.{Double}
use afsim_ns.Runner.Scenario.{NodeInput, LinkInput, Scenario}

-- The vectors `visited` and `pending`; the back of `pending` is the head of the list.
pub record Search : Type 0 where
  pub visited : List Bool
  pub pending : List ℕ

-- `adjacency[u].push_back(v)`
unfoldable pub push_edge : ℕ → ℕ → List (List ℕ) → List (List ℕ)
push_edge u v adjacency = set adjacency u (get_or adjacency u [] ++ v ∷ [])

-- The body of the loop over `adjacency[current]`.
unfoldable pub visit : ℕ → Search → Search
visit next s =
    if get_or s.visited next false
    then s
    else record { visited = set s.visited next true; pending = next ∷ s.pending }

unfoldable pub visit_all : List ℕ → Search → Search
unfolding visit
visit_all [] s = s
visit_all (next ∷ nexts) s = visit_all nexts (visit next s)

-- `while (!pending.empty())`, on fuel; the answer is only reached with fuel left.
unfoldable pub search_from : ℕ → List (List ℕ) → ℕ → List Bool → List ℕ → Bool
unfolding visit_all
search_from zero adjacency target visited pending = false
search_from (suc fuel) adjacency target visited [] = false
search_from (suc fuel) adjacency target visited (current ∷ pending) = elim (current == target) [
  | true ↦ true
  | false ↦
      let s : Search =
        visit_all (get_or adjacency current []) (record { visited = visited; pending = pending }) in
      search_from fuel adjacency target s.visited s.pending
]

module _ (d : Double) where
  -- `scenario.nodes[index].alive`, within the range of the vector
  abbrev pub is_alive : List (NodeInput d) → ℕ → Bool
  is_alive nodes index = get_or (map (λ n. n.alive) nodes) index false

  -- The link is not skipped by the `continue`.
  unfoldable pub is_usable : List (NodeInput d) → LinkInput d → Bool
  is_usable nodes link = link.up && is_alive nodes link.source && is_alive nodes link.target

  unfoldable pub add_links : List (NodeInput d) → List (LinkInput d) → List (List ℕ) → List (List ℕ)
  unfolding is_usable push_edge
  add_links nodes [] adjacency = adjacency
  add_links nodes (link ∷ links) adjacency = add_links nodes links (
      if is_usable nodes link
      then push_edge link.target link.source (push_edge link.source link.target adjacency)
      else adjacency)

  -- Each node is pushed once at most, so a round for each and one to find the vector empty are
  -- enough.
  unfoldable pub has_active_path : Scenario d → ℕ → ℕ → Bool
  unfolding search_from add_links
  has_active_path s source target =
      let count = length s.nodes in
      if leb count source
        || leb count target
        || not (is_alive s.nodes source)
        || not (is_alive s.nodes target)
      then false
      else search_from (suc count) (add_links s.nodes s.links (replicate count [])) target
          (set (replicate count false) source true) (source ∷ [])
