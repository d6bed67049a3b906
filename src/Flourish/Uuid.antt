-- ===== src/Flourish/Uuid.antt =====
-- The package github.com/google/uuid, which is not part of the repository. A `uuid.UUID` is its 16
-- bytes, read as one number below 2 ^ 128 (`==` compares the bytes). Its text form is a parameter.
use tanzlaurel.Base.{ℕ, ◌^◌, ◌<◌, ◌≡◌, List, [], ◌∷◌, Bool, true, false, ◌&&◌, ◌||◌}
use tanzlaurel.Base.{Option, some, ltb, ◌==◌}

-- `String()` writes a UUID, and `Parse` reads one back. What `Parse` returns beside an error, which may
-- be filled in part, is `rest_of`.
pub record UuidText : Type 0 where
  pub to_string : ℕ → List ℕ
  pub parse : List ℕ → Option ℕ
  pub rest_of : List ℕ → ℕ
  pub parse-to_string : (u : ℕ) → u < 2 ^ 128 → parse (to_string u) ≡ some u

-- Go's `<` on strings: byte by byte, and a proper prefix is smaller.
unfoldable pub string_lt : List ℕ → List ℕ → Bool
string_lt [] [] = false
string_lt [] (y ∷ ys) = true
string_lt (x ∷ xs) [] = false
string_lt (x ∷ xs) (y ∷ ys) = ltb x y || (x == y && string_lt xs ys)

-- `uuid.Nil`
abbrev pub nil_uuid : ℕ
nil_uuid = 0
