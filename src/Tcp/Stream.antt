-- ===== src/Tcp/Stream.antt =====
-- What `DispatchLines` makes of a stream: the same lines however it is cut into chunks, and the
-- lines that `Normalize` made.
use afsim_ns.Base.{
  ℕ, zero, suc, ◌≤◌, ◌<◌, ◌≡◌, ◌≢◌, refl, ap, sym, ◌∙◌, true, false, List, [], ◌∷◌, ◌++◌,
  append_assoc, append-nil, Bytes, Option, none, some, arith, length, ◌==◌, All, Bool-cases,
  Option-cases, All-append, inl, inr,
}
use afsim_ns.Tcp.Lines.{split_line, prepend, strip_return, handed, dispatch_from, dispatch_lines}
use afsim_ns.Tcp.Queue.{normalize, trim_breaks}

-- A reader that takes one byte after another: the lines, and the beginning of the next one.
feed : Bytes → Bytes → List Bytes × Bytes
feed partial [] = ([], partial)
feed partial (c ∷ s) = elim (c == b'\n') [
  | true ↦ let (lines, rest) = feed [] s in (handed (strip_return partial) lines, rest)
  | false ↦ feed (partial ++ c ∷ []) s
]

handed-append : (line : Bytes) (xs ys : List Bytes) → handed line (xs ++ ys) ≡ handed line xs ++ ys
unfolding handed
handed-append [] xs ys = refl
handed-append (c ∷ line) xs ys = refl

feed-append :
    (partial a b : Bytes)
    → feed partial (a ++ b)
      ≡ ((feed partial a).0 ++ (feed (feed partial a).1 b).0, (feed (feed partial a).1 b).1)
unfolding feed
feed-append partial [] b = refl
feed-append partial (c ∷ a) b = ground (
  arith,
  feed-append [] a b,
  handed-append (strip_return partial) (feed [] a).0 (feed (feed [] a).1 b).0,
  feed-append (partial ++ c ∷ []) a b,
)

-- The first line of a buffer and what is left, against the reader.
abbrev split_feed : Bytes → Bytes → Option (Bytes × Bytes) → List Bytes × Bytes
split_feed partial s none = ([], partial ++ s)
split_feed partial s (some (line, tail)) =
    (handed (strip_return (partial ++ line)) (feed [] tail).0, (feed [] tail).1)

split_feed-prepend :
    (partial : Bytes) (c : ℕ) (s : Bytes) (o : Option (Bytes × Bytes))
    → split_feed (partial ++ c ∷ []) s o ≡ split_feed partial (c ∷ s) (prepend c o)
split_feed-prepend partial c s none = ap (λ r. ([], r)) (append_assoc partial (c ∷ []) s)
split_feed-prepend partial c s (some (line, tail)) =
    ap (λ r. (handed (strip_return r) (feed [] tail).0, (feed [] tail).1))
      (append_assoc partial (c ∷ []) line)

feed-split : (partial s : Bytes) → feed partial s ≡ split_feed partial s (split_line s)
unfolding feed split_line
feed-split partial [] = rw append-nil
feed-split partial (c ∷ s) = ground (
  arith,
  append-nil partial,
  feed-split (partial ++ c ∷ []) s,
  split_feed-prepend partial c s (split_line s),
)

split_line-length :
    (s line tail : Bytes) → split_line s ≡ some (line, tail) → length tail < length s
unfolding split_line
split_line-length [] line tail e = cc
split_line-length (c ∷ s) line tail e = elim (Bool-cases (c == b'\n')) [
  | inl h ↦ ground arith
  | inr h ↦ elim (Option-cases (split_line s)) [
    | inl n ↦ ground arith
    | inr ((l, t), n) ↦ ground (arith, split_line-length s l t n)
  ]
]

-- The loop, with fuel for each byte, is the reader.
dispatch_from-feed : (fuel : ℕ) (s : Bytes) → length s ≤ fuel → dispatch_from fuel s ≡ feed [] s
unfolding dispatch_from
dispatch_from-feed zero [] h = unfold feed in refl
dispatch_from-feed zero (c ∷ s) h = absurd (omega arith)
dispatch_from-feed (suc fuel) s h = elim (Option-cases (split_line s)) [
  | inl n ↦ rw (feed-split [] s, n, dispatch_from)
  | inr ((line, tail), n) ↦ rw (
    feed-split [] s,
    n,
    dispatch_from,
    dispatch_from-feed fuel tail (omega (arith, split_line-length s line tail n)),
  )
]

dispatch_lines-feed : (s : Bytes) → dispatch_lines s ≡ feed [] s
unfolding dispatch_lines
dispatch_lines-feed s = dispatch_from-feed (length s) s (omega arith)

feed-unbroken :
    (partial s : Bytes) → All (λ c. (c == b'\n') ≡ false) s → feed partial s ≡ ([], partial ++ s)
unfolding feed
feed-unbroken partial [] h = rw append-nil
feed-unbroken partial (c ∷ s) h =
    rw (h.0, feed)
      (feed-unbroken (partial ++ c ∷ []) s h.1
        ∙ ap (λ r. ([], r)) (append_assoc partial (c ∷ []) s))

feed-resume : (r b : Bytes) → All (λ c. (c == b'\n') ≡ false) r → feed [] (r ++ b) ≡ feed r b
feed-resume r b h = feed-append [] r b ∙ rw (feed-unbroken [] r h)

rest-unbroken :
    (partial s : Bytes)
    → All (λ c. (c == b'\n') ≡ false) partial
    → All (λ c. (c == b'\n') ≡ false) (feed partial s).1
unfolding feed
rest-unbroken partial [] h = h
rest-unbroken partial (c ∷ s) h = elim (Bool-cases (c == b'\n')) [
  | inl e ↦ rw (e, feed) (rest-unbroken [] s tt)
  | inr e ↦
      rw (e, feed) (rest-unbroken (partial ++ c ∷ []) s (All-append _ partial (c ∷ []) h (e, tt)))
]

-- Bytes that arrive in two chunks give the lines that they give at once, and leave the same bytes
-- in the buffer; what the first chunk leaves holds no line break.
pub dispatch_chunks :
    (a b : Bytes)
    → (dispatch_lines (a ++ b) ≡ (
      (dispatch_lines a).0 ++ (dispatch_lines ((dispatch_lines a).1 ++ b)).0,
      (dispatch_lines ((dispatch_lines a).1 ++ b)).1,
    ))
      × All (λ c. (c == b'\n') ≡ false) (dispatch_lines a).1
dispatch_chunks a b =
    let plain = rest-unbroken [] a tt in
    rw
      (
        dispatch_lines-feed (a ++ b),
        dispatch_lines-feed a,
        dispatch_lines-feed ((feed [] a).1 ++ b),
      )
      (
        feed-append [] a b
            ∙ ap (λ r. ((feed [] a).0 ++ r.0, r.1)) (sym (feed-resume (feed [] a).1 b plain)),
        plain,
      )

-- A text that is not empty and has no control byte.
abbrev pub IsText : Bytes → Type 0
IsText s = (s ≢ []) × All (λ c. 0x20 ≤ c) s

trim_breaks-plain : (s : Bytes) → All (λ c. 0x20 ≤ c) s → trim_breaks s ≡ s
unfolding trim_breaks
trim_breaks-plain [] h = refl
trim_breaks-plain (c ∷ s) h = ground (arith, trim_breaks-plain s h.1)

strip_return-plain : (s : Bytes) → All (λ c. 0x20 ≤ c) s → strip_return s ≡ s
unfolding strip_return
strip_return-plain [] h = refl
strip_return-plain (c ∷ []) h = ground arith
strip_return-plain (c ∷ e ∷ s) h = ap (λ r. c ∷ r) (strip_return-plain (e ∷ s) h.1)

unbroken-plain : (s : Bytes) → All (λ c. 0x20 ≤ c) s → All (λ c. (c == b'\n') ≡ false) s
unbroken-plain [] h = tt
unbroken-plain (c ∷ s) h = (ground arith, unbroken-plain s h.1)

handed-text :
    (s : Bytes) (lines : List Bytes) (rest : Bytes)
    → s ≢ []
    → ◌≡◌ {A = List Bytes × Bytes} (handed s lines, rest) (s ∷ lines, rest)
unfolding handed
handed-text [] lines rest n = absurd (n refl)
handed-text (c ∷ s) lines rest n = refl

feed-line :
    (s rest : Bytes)
    → IsText s
    → feed [] (normalize s ++ rest) ≡ (s ∷ (feed [] rest).0, (feed [] rest).1)
unfolding normalize feed
feed-line s rest (n, h) =
    rw
      (
        trim_breaks-plain s h,
        append_assoc s (b'\n' ∷ []) rest,
        feed-resume s (b'\n' ∷ rest) (unbroken-plain s h),
        strip_return-plain s h,
      )
      (handed-text s (feed [] rest).0 (feed [] rest).1 n)

-- The bytes that the lines of a queue make on the socket.
abbrev pub stream : List Bytes → Bytes
stream [] = []
stream (json ∷ rest) = normalize json ++ stream rest

feed-stream : (texts : List Bytes) → All IsText texts → feed [] (stream texts) ≡ (texts, [])
feed-stream [] h = unfold feed in refl
feed-stream (json ∷ texts) h = feed-line json (stream texts) h.0 ∙ rw (feed-stream texts h.1)

-- Normalised texts, one behind the other, are taken apart into the same texts again, and nothing
-- is left in the buffer. A text is not empty and has no control byte.
pub dispatch-stream :
    (texts : List Bytes) → All IsText texts → dispatch_lines (stream texts) ≡ (texts, [])
dispatch-stream texts h = dispatch_lines-feed (stream texts) ∙ feed-stream texts h
