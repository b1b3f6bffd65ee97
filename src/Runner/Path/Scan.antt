-- ===== src/Runner/Path/Scan.antt =====
-- The vectors of the search: flags, neighbours, and what one round adds.
use afsim_ns.Base.{
  ℕ, zero, suc, ◌+◌, ◌<◌, ◌≡◌, refl, ap, ◌∙◌, Bool, true, false, List, [], ◌∷◌, arith, length,
  get_or, set, In, All, ◌⊎◌, ◌↔◌, ◌==◌, if◌then◌else◌, replicate,
}
use afsim_ns.Runner.Path.Search.{Search, visit, visit_all}

-- The flags that are still false.
abbrev pub unseen : List Bool → ℕ
unseen [] = 0
unseen (false ∷ flags) = suc (unseen flags)
unseen (true ∷ flags) = unseen flags

pub get_or-set :
    (flags : List Bool) (i v : ℕ)
    → i < length flags
    → get_or (set flags i true) v false ≡ (if v == i then true else get_or flags v false)
get_or-set [] i v h = absurd (omega arith)
get_or-set (b ∷ flags) zero zero h = refl
get_or-set (b ∷ flags) zero (suc v) h = ground arith
get_or-set (b ∷ flags) (suc i) zero h = ground arith
get_or-set (b ∷ flags) (suc i) (suc v) h = ground (arith, get_or-set flags i v)

pub length-set {ℓ} : {A : Type ℓ} (xs : List A) (i : ℕ) (v : A) → length (set xs i v) ≡ length xs
length-set [] i v = refl
length-set (x ∷ xs) zero v = refl
length-set (x ∷ xs) (suc i) v = ap suc (length-set xs i v)

pub unseen-set :
    (flags : List Bool) (i : ℕ)
    → i < length flags
    → get_or flags i false ≡ false
    → suc (unseen (set flags i true)) ≡ unseen flags
unseen-set [] i h e = absurd (omega arith)
unseen-set (false ∷ flags) zero h e = refl
unseen-set (true ∷ flags) zero h e = cc
unseen-set (false ∷ flags) (suc i) h e = ap suc (unseen-set flags i (omega arith) e)
unseen-set (true ∷ flags) (suc i) h e = unseen-set flags i (omega arith) e

pub get_or-replicate {ℓ} : {A : Type ℓ} (n v : ℕ) (a : A) → get_or (replicate n a) v a ≡ a
get_or-replicate zero v a = refl
get_or-replicate (suc n) zero a = refl
get_or-replicate (suc n) (suc v) a = get_or-replicate n v a

pub length-replicate {ℓ} : {A : Type ℓ} (n : ℕ) (a : A) → length (replicate n a) ≡ n
length-replicate zero a = refl
length-replicate (suc n) a = ap suc (length-replicate n a)

pub unseen-replicate : (n : ℕ) → unseen (replicate n false) ≡ n
unseen-replicate zero = refl
unseen-replicate (suc n) = ap suc (unseen-replicate n)

abbrev pub marked : Search → ℕ → Bool
marked s v = get_or s.visited v false

visit-sizes :
    (v : ℕ) (s : Search)
    → v < length s.visited
    → (length (visit v s).visited ≡ length s.visited)
      × (unseen (visit v s).visited + length (visit v s).pending
          ≡ unseen s.visited + length s.pending)
unfolding visit
visit-sizes v s h = ground (arith, length-set s.visited v true, unseen-set s.visited v h)

marked-visit :
    (v : ℕ) (s : Search) (w : ℕ)
    → v < length s.visited
    → (marked (visit v s) w ≡ true) ↔ ((marked s w ≡ true) ⊎ (w ≡ v))
unfolding visit
marked-visit v s w h = ground (arith, get_or-set s.visited v w h)

In-visit :
    (v : ℕ) (s : Search) (w : ℕ)
    → v < length s.visited
    → In w (visit v s).pending
      ↔ (In w s.pending ⊎ (marked (visit v s) w ≡ true) × (marked s w ≡ false))
unfolding visit
In-visit v s w h = ground (arith, get_or-set s.visited v w h)

-- All of the nodes have a flag.
abbrev pub FitsFlags : Search → List ℕ → Type 0
FitsFlags s = All (λ v. v < length s.visited)

visit-FitsFlags :
    (v : ℕ) (s : Search) (nexts : List ℕ)
    → v < length s.visited
    → FitsFlags s nexts
    → FitsFlags (visit v s) nexts
visit-FitsFlags v s nexts h k = rw ((visit-sizes v s h).0) k

-- One round keeps the number of flags, and pushes as many nodes as it marks.
pub visit_all-sizes :
    (nexts : List ℕ) (s : Search)
    → FitsFlags s nexts
    → (length (visit_all nexts s).visited ≡ length s.visited)
      × (unseen (visit_all nexts s).visited + length (visit_all nexts s).pending
          ≡ unseen s.visited + length s.pending)
unfolding visit_all
visit_all-sizes [] s h = (refl, refl)
visit_all-sizes (v ∷ nexts) s h =
    let (a, b) = visit-sizes v s h.0 in
    let (e, f) = visit_all-sizes nexts (visit v s) (visit-FitsFlags v s nexts h.0 h.1) in
    (e ∙ a, f ∙ b)

-- It marks the nodes of the list,
pub marked-visit_all :
    (nexts : List ℕ) (s : Search) (w : ℕ)
    → FitsFlags s nexts
    → (marked (visit_all nexts s) w ≡ true) ↔ ((marked s w ≡ true) ⊎ In w nexts)
unfolding visit_all
marked-visit_all [] s w h = ground arith
marked-visit_all (v ∷ nexts) s w h = ground (
  arith,
  marked-visit v s w h.0,
  marked-visit_all nexts (visit v s) w (visit-FitsFlags v s nexts h.0 h.1),
)

-- and pushes those that it marks.
pub In-visit_all :
    (nexts : List ℕ) (s : Search) (w : ℕ)
    → FitsFlags s nexts
    → In w (visit_all nexts s).pending
      ↔ (In w s.pending ⊎ (marked (visit_all nexts s) w ≡ true) × (marked s w ≡ false))
unfolding visit_all
In-visit_all [] s w h = ground arith
In-visit_all (v ∷ nexts) s w h = ground (
  arith,
  In-visit v s w h.0,
  marked-visit v s w h.0,
  marked-visit_all nexts (visit v s) w (visit-FitsFlags v s nexts h.0 h.1),
  In-visit_all nexts (visit v s) w (visit-FitsFlags v s nexts h.0 h.1),
)
