-- ===== src/Graph/Names.antt =====
-- The regular expressions `namePattern` and `imagePattern` of
-- engine/ax/internal/taskgraph/model.go, as matchers on code points.
use task_a.Prelude.{
  String, ℕ, Bool, false, not, ◌&&◌, ◌||◌, List, [], ◌∷◌, leb, nat_eq, all, length,
}
use task_a.Graph.Paths.Codes.{codes, has_prefix}

abbrev pub between : ℕ → ℕ → ℕ → Bool
between lo hi c = leb lo c && leb c hi

-- [a-z0-9-]
abbrev pub is_name_char : ℕ → Bool
is_name_char c = between b'a' b'z' c || between b'0' b'9' c || nat_eq c b'-'

-- ^[a-z][a-z0-9-]{0,39}$
unfoldable pub name_codes : List ℕ → Bool
name_codes [] = false
name_codes (c ∷ cs) = between b'a' b'z' c && all is_name_char cs && leb (length cs) 39

unfoldable pub valid_name : String → Bool
unfolding name_codes
valid_name s = name_codes (codes s)

-- [a-f0-9]
abbrev pub is_hex : ℕ → Bool
is_hex c = between b'a' b'f' c || between b'0' b'9' c

abbrev pub drop : ℕ → List ℕ → List ℕ
drop n [] = []
drop ℕ.zero (c ∷ cs) = c ∷ cs
drop (ℕ.suc n) (c ∷ cs) = drop n cs

-- @sha256:[a-f0-9]{64}$
abbrev pub is_digest : List ℕ → Bool
is_digest p =
    has_prefix (codes "@sha256:") p && all is_hex (drop 8 p) && nat_eq (length (drop 8 p)) 64

-- ^.+ and then a digest: one more character, no line feed, and the digest or more characters.
unfoldable pub image_codes : List ℕ → Bool
image_codes [] = false
image_codes (c ∷ p) = not (nat_eq c 10) && (is_digest p || image_codes p)

unfoldable pub valid_image : String → Bool
unfolding image_codes has_prefix
valid_image s = image_codes (codes s)
