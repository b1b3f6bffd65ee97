-- ===== src/Runner/Path/Correct.antt =====
-- `HasActivePath` finds a path exactly when there is one.
use afsim_ns.Base.{
  ℕ, zero, suc, ◌+◌, ◌<◌, ◌≡◌, ◌≢◌, refl, sym, ◌∙◌, subst, Bool, true, false, not, ◌||◌, List, [],
  ◌∷◌, arith, length, get_or, set, In, All, ◌⊎◌, inl, inr, ◌↔◌, ◌==◌, ==_iff, leb, if◌then◌else◌,
  replicate, Bool-cases, ◌&&◌,
}
use mathlib.Core.HLevel.{⊥_prop}
use mathlib.Core.Logic.{∥∥₁_elim}
use afsim_ns.Double.{Double}
use afsim_ns.Runner.Scenario.{NodeInput, LinkInput, Scenario}
use afsim_ns.Runner.Path.Search.{
  Search, search_from, visit_all, add_links, is_alive, has_active_path,
}
use afsim_ns.Runner.Path.Scan.{
  unseen, marked, visit_all-sizes, marked-visit_all, In-visit_all, get_or-set, length-set,
  unseen-set, length-replicate, get_or-replicate, unseen-replicate,
}
use afsim_ns.Runner.Path.Edges.{IsEdge, IsEdge-lt, alive-lt, In-adjacency}

module _ (d : Double) (nodes : List (NodeInput d)) (links : List (LinkInput d)) where
  -- A walk over usable links.
  pub data Walk (source : ℕ) : ℕ → Type 0 where
    here : Walk source source
    step : {u v : ℕ} → Walk source u → IsEdge d nodes links u v → Walk source v

  abbrev table : List (List ℕ)
  table = add_links d nodes links (replicate (length nodes) [])

  row_fits : (u n : ℕ) → n ≡ length nodes → All (λ v. v < n) (get_or table u [])
  row_fits u n e =
      all_of (get_or table u [])
        λ v i. rw e ((IsEdge-lt d nodes links u v ((In-adjacency d nodes links u v).0 i)).1)
    where
      all_of : (xs : List ℕ) → ((v : ℕ) → In v xs → v < n) → All (λ v. v < n) xs
      all_of [] h = tt
      all_of (x ∷ xs) h = (h x (inl refl), all_of xs (λ v i. h v (inr i)))

  module _ (source target : ℕ) where
    record Inv (s : Search) : Type 0 where
      size : length s.visited ≡ length nodes
      begun : marked s source ≡ true
      queued : (v : ℕ) → In v s.pending → marked s v ≡ true
      sound : (v : ℕ) → marked s v ≡ true → Walk source v
      closed :
          (u v : ℕ)
          → marked s u ≡ true
          → IsEdge d nodes links u v
          → In u s.pending ⊎ (marked s v ≡ true)
      waits : marked s target ≡ true → In target s.pending

    complete : (s : Search) → Inv s → s.pending ≡ [] → {v : ℕ} → Walk source v → marked s v ≡ true
    complete s h e here = h.begun
    complete s h e (step {u} {v} p edge) = elim (h.closed u v (complete s h e p) edge) [
      | inl waiting ↦ absurd (subst (In u) e waiting)
      | inr m ↦ m
    ]

    Inv-round :
        (s : Search) (current : ℕ) (pending : List ℕ)
        → s.pending ≡ current ∷ pending
        → current ≢ target
        → Inv s
        → Inv (visit_all (get_or table current []) (record s { pending = pending }))
    Inv-round s current pending e ne h =
        let nexts = get_or table current [] in
        let t : Search = record s { pending = pending } in
        let fit = row_fits current (length s.visited) h.size in
        let flags = λ (w : ℕ). marked-visit_all nexts t w fit in
        let queue = λ (w : ℕ). In-visit_all nexts t w fit in
        let edges = λ (w : ℕ). In-adjacency d nodes links current w in
        let to_current = h.sound current (h.queued current (rw e (inl refl))) in
        let was_waiting : (u : ℕ) → In u s.pending → (u ≡ current) ⊎ In u pending =
          λ u i. subst (In u) e i in
        record {
          size = (visit_all-sizes nexts t fit).0 ∙ h.size;
          begun = (flags source).1 (inl h.begun);
          queued = λ v i. ground (arith, flags v, queue v, h.queued v, i, e);
          sound = λ v m. elim ((flags v).0 m) [
            | inl old ↦ h.sound v old
            | inr new ↦ step to_current ((edges v).0 new)
          ];
          closed = λ u v m edge. elim (Bool-cases (marked s u)) [
            | inr new ↦ inl ((queue u).1 (inr (m, new)))
            | inl old ↦ elim (h.closed u v old edge) [
              | inr mv ↦ inr ((flags v).1 (inl mv))
              | inl w ↦ elim (was_waiting u w) [
                | inr p ↦ inl ((queue u).1 (inl p))
                | inl same ↦ inr (
                    (flags v).1
                      (inr ((edges v).1 (subst (λ (x : ℕ). IsEdge d nodes links x v) same edge))))
              ]
            ]
          ];
          waits = λ m. elim (Bool-cases (marked s target)) [
            | inr new ↦ (queue target).1 (inr (m, new))
            | inl old ↦ elim (was_waiting target (h.waits old)) [
              | inr p ↦ (queue target).1 (inl p)
              | inl same ↦ absurd (ne (sym same))
            ]
          ];
        }

    -- Some walk leads from the source to the target.
    abbrev pub Reachable : Type 0
    Reachable = ∥ Walk source target ∥₁

    -- With a round for each node that is queued or not yet marked, the search answers.
    search_from-Walk :
        (fuel : ℕ) (visited : List Bool) (pending : List ℕ)
        → Inv (record { visited = visited; pending = pending })
        → unseen visited + length pending < fuel
        → (search_from fuel table target visited pending ≡ true) ↔ Reachable
    unfolding search_from
    search_from-Walk zero visited pending h f = absurd (omega arith)
    search_from-Walk (suc fuel) visited [] h f = (
      λ e. cc,
      λ w. absurd (
          ∥∥₁_elim w ⊥_prop
            λ p. h.waits (complete (record { visited = visited; pending = [] }) h refl p)),
    )
    search_from-Walk (suc fuel) visited (current ∷ pending) h f =
        elim (Bool-cases (current == target)) [
          | inl e ↦
              let same : current ≡ target = (==_iff current target).0 e in
              rw (e, search_from)
                (
                  λ _.
                      ∣ subst (Walk source) same (h.sound current (h.queued current (inl refl))) ∣₁,
                  λ _. refl,
                )
          | inr e ↦
              let t : Search =
                visit_all (get_or table current [])
                  (record { visited = visited; pending = pending }) in
              let fit = row_fits current (length visited) h.size in
              let sizes =
                visit_all-sizes (get_or table current [])
                  (record { visited = visited; pending = pending }) fit in
              rw (e, search_from)
                (search_from-Walk fuel t.visited t.pending
                  (Inv-round (record { visited = visited; pending = current ∷ pending }) current
                    pending refl (λ same. cc ((==_iff current target).1 same)) h)
                  (omega arith))
        ]

    Inv-start :
        source < length nodes
        → Inv (record {
          visited = set (replicate (length nodes) false) source true;
          pending = source ∷ [];
        })
    Inv-start lt =
        let blank = replicate (length nodes) false in
        let blank_size = length-replicate (length nodes) false in
        let flag = λ (v : ℕ). get_or-set blank source v (rw blank_size lt) in
        let unset = λ (v : ℕ). get_or-replicate (length nodes) v false in
        let only : (v : ℕ) → get_or (set blank source true) v false ≡ true → v ≡ source =
          λ v m. ground (arith, flag v, unset v, m) in
        record {
          size = length-set blank source true ∙ blank_size;
          begun = ground (arith, flag source);
          queued = λ v i. ground (arith, flag v, i);
          sound = λ v m. rw (only v m) here;
          closed = λ u v m edge. inl (inl (only u m));
          waits = λ m. inl (only target m);
        }

    started-Walk :
        source < length nodes
        → (search_from
              (suc (length nodes))
              table
              target
              (set (replicate (length nodes) false) source true)
              (source ∷ [])
            ≡ true)
          ↔ Reachable
    started-Walk lt = search_from-Walk (suc (length nodes)) _ _ (Inv-start lt) (
        omega (
          arith,
          unseen-set (replicate (length nodes) false) source
              (rw (length-replicate (length nodes) false) lt)
              (get_or-replicate (length nodes) source false),
          unseen-replicate (length nodes),
        ))

guard_stops :
    (p q a b r : Bool) → (a && b ≡ false) → (if p || q || not a || not b then false else r) ≡ false
guard_stops p q a b r h = ground arith

guard_passes :
    (p q a b r : Bool)
    → p ≡ false
    → q ≡ false
    → a && b ≡ true
    → (if p || q || not a || not b then false else r) ≡ r
guard_passes p q a b r h k l = ground arith

both : (a b : Bool) → a && b ≡ true → (a ≡ true) × (b ≡ true)
both a b e = ground arith

module _ (d : Double) where
  -- `HasActivePath` returns true exactly when both nodes are alive and some walk leads from one to
  -- the other over links that are up and whose ends are alive.
  pub has_active_path_lem :
      (s : Scenario d) (source target : ℕ)
      → (has_active_path d s source target ≡ true) ↔ (
          (is_alive d s.nodes source ≡ true)
          × (is_alive d s.nodes target ≡ true)
          × ∥ Walk d s.nodes s.links source target ∥₁)
  unfolding has_active_path
  has_active_path_lem s source target =
      let alive_source = is_alive d s.nodes source in
      let alive_target = is_alive d s.nodes target in
      let found =
        search_from (suc (length s.nodes))
          (add_links d s.nodes s.links (replicate (length s.nodes) [])) target
          (set (replicate (length s.nodes) false) source true) (source ∷ []) in
      elim (Bool-cases (alive_source && alive_target)) [
        | inr dead ↦
            let stops : has_active_path d s source target ≡ false =
              guard_stops (leb (length s.nodes) source) (leb (length s.nodes) target) alive_source
                alive_target found dead in
            (λ h. cc, λ (a, b, w). cc (rw (a, b) at dead))
        | inl alive ↦
            let (a, b) = both alive_source alive_target alive in
            let source_lt = alive-lt d s.nodes source a in
            let target_lt = alive-lt d s.nodes target b in
            let passes : has_active_path d s source target ≡ found =
              guard_passes (leb (length s.nodes) source) (leb (length s.nodes) target) alive_source
                alive_target found (ground arith) (ground arith) alive in
            let search = started-Walk d s.nodes s.links source target source_lt in
            (λ h. (a, b, search.0 (sym passes ∙ h)), λ (x, y, w). passes ∙ search.1 w)
      ]
