-- ===== src/Session/Path.antt =====
-- The string operations of Walk and WalkParent: std::getline over '/', rfind and ==.
use qnx_unit_tests.Base.{
  ℕ, suc, ◌+◌, List, [], ◌∷◌, ◌++◌, Option, none, some, Bool, true, false, ◌&&◌, ◌==◌,
  if◌then◌else◌, take, drop,
}

unfoldable pub bytes_eq : List ℕ → List ℕ → Bool
bytes_eq [] [] = true
bytes_eq [] (y ∷ ys) = false
bytes_eq (x ∷ xs) [] = false
bytes_eq (x ∷ xs) (y ∷ ys) = x == y && bytes_eq xs ys

-- A component is kept if it is not empty.
abbrev pub keep : List ℕ → List (List ℕ) → List (List ℕ)
keep [] names = names
keep (c ∷ cs) names = (c ∷ cs) ∷ names

-- The components of the stream, where `component` has been read of the first.
unfoldable pub components : List ℕ → List ℕ → List (List ℕ)
components component [] = keep component []
components component (c ∷ rest) = elim (c == b'/') [
  | true ↦ keep component (components [] rest)
  | false ↦ components (component ++ c ∷ []) rest
]

-- The position of the last `c`; `none` is npos.
unfoldable pub rfind : ℕ → List ℕ → Option ℕ
rfind c [] = none
rfind c (x ∷ xs) = elim (rfind c xs) [
  | some i ↦ some (suc i)
  | none ↦ if x == c then some 0 else none
]

-- The path up to its last slash, and the name behind it.
unfoldable pub split_last : List ℕ → List ℕ × List ℕ
unfolding rfind
split_last path = elim (rfind b'/' path) [
  | none ↦ ([], path)
  | some pos ↦ (take pos path, drop (pos + 1) path)
]
