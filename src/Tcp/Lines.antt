-- ===== src/Tcp/Lines.antt =====
-- `DispatchLines`: the lines that go to the handler, and what stays in the buffer.
use afsim_ns.Base.{
  ℕ, zero, suc, List, [], ◌∷◌, Bytes, Option, none, some, ◌==◌, if◌then◌else◌, length,
}

abbrev pub prepend : ℕ → Option (Bytes × Bytes) → Option (Bytes × Bytes)
prepend c none = none
prepend c (some (line, tail)) = some (c ∷ line, tail)

-- `find('\n')`, `substr(0, newline)` and `erase(0, newline + 1)`
unfoldable pub split_line : Bytes → Option (Bytes × Bytes)
split_line [] = none
split_line (c ∷ buffer) =
    let rest = split_line buffer in if c == b'\n' then some ([], buffer) else prepend c rest

-- `if (line.back() == '\r') line.pop_back()`
unfoldable pub strip_return : Bytes → Bytes
strip_return [] = []
strip_return (c ∷ []) = if c == b'\r' then [] else c ∷ []
strip_return (c ∷ e ∷ line) = c ∷ strip_return (e ∷ line)

-- `if (handler && !line.empty()) handler(line)`, before the later calls.
unfoldable pub handed : Bytes → List Bytes → List Bytes
handed [] lines = lines
handed (c ∷ line) lines = (c ∷ line) ∷ lines

-- The `while` loop, on fuel.
unfoldable pub dispatch_from : ℕ → Bytes → List Bytes × Bytes
unfolding split_line strip_return handed
dispatch_from zero buffer = ([], buffer)
dispatch_from (suc fuel) buffer = elim (split_line buffer) [
  | none ↦ ([], buffer)
  | some (line, tail) ↦
      let (lines, rest) = dispatch_from fuel tail in (handed (strip_return line) lines, rest)
]

-- A round takes one byte at least.
unfoldable pub dispatch_lines : Bytes → List Bytes × Bytes
unfolding dispatch_from
dispatch_lines buffer = dispatch_from (length buffer) buffer
