-- ===== src/Pattern.antt =====
-- The regular expressions that the program checks names with. Each is a class for the first
-- character, a class for the others, and a bound on the length; `codes` are code points, and every
-- class is ASCII, so that a text is accepted byte by byte just when it is accepted here.
use duto_ai.Prelude.{
  ℕ, String, Bool, false, ◌&&◌, ◌||◌, List, [], ◌∷◌, leb, ◌==◌, length, all, codes,
}

abbrev pub is_lower : ℕ → Bool
is_lower c = leb b'a' c && leb c b'z'

abbrev pub is_upper : ℕ → Bool
is_upper c = leb b'A' c && leb c b'Z'

abbrev pub is_digit : ℕ → Bool
is_digit c = leb b'0' c && leb c b'9'

-- [a-z0-9-]
abbrev pub is_word : ℕ → Bool
is_word c = is_lower c || is_digit c || c == b'-'

-- [A-Za-z0-9_.-]
abbrev pub is_resource : ℕ → Bool
is_resource c = is_lower c || is_upper c || is_digit c || c == b'_' || c == b'.' || c == b'-'

-- [0-9a-f]
abbrev pub is_hex : ℕ → Bool
is_hex c = is_digit c || (leb b'a' c && leb c b'f')

-- ^[first][rest]{0,n}$
unfoldable pub head_and_rest : (ℕ → Bool) → (ℕ → Bool) → ℕ → List ℕ → Bool
unfolding all
head_and_rest first rest n [] = false
head_and_rest first rest n (c ∷ cs) = first c && all rest cs && leb (length cs) n

-- ^[class]+$
unfoldable pub some_of : (ℕ → Bool) → List ℕ → Bool
unfolding all
some_of class [] = false
some_of class (c ∷ cs) = class c && all class cs

-- ^[a-z][a-z0-9-]{0,62}$
unfoldable pub is_name : String → Bool
unfolding head_and_rest
is_name s = head_and_rest is_lower is_word 62 (codes s)

-- ^[a-z0-9][a-z0-9-]{0,62}$
unfoldable pub is_admission : String → Bool
unfolding head_and_rest
is_admission s = head_and_rest (λ c. is_lower c || is_digit c) is_word 62 (codes s)

-- ^[a-z0-9][a-z0-9-]{0,126}$
unfoldable pub is_local_id : String → Bool
unfolding head_and_rest
is_local_id s = head_and_rest (λ c. is_lower c || is_digit c) is_word 126 (codes s)

-- ^\d+$
unfoldable pub is_decimal : String → Bool
unfolding some_of
is_decimal s = some_of is_digit (codes s)

-- ^[A-Za-z0-9_.-]+$
unfoldable pub is_resource_name : String → Bool
unfolding some_of
is_resource_name s = some_of is_resource (codes s)

-- ^[0-9a-f]{40}$
unfoldable pub is_sha : String → Bool
unfolding all
is_sha s = all is_hex (codes s) && length (codes s) == 40
