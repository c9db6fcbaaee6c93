-- ===== src/Text.antt =====
-- The texts that the program checks with regular expressions, and Python's order on texts.
use Prim.Native.Char.{code}
use codex_remote_runner.Prelude.{
  ltb, leb, eqb, if◌then◌else◌, length, all, any, string_eq, nat_eq, ℕ, String, ◌≡◌, ◌⊎◌, inl, inr,
  Bool, true, false, ◌&&◌, ◌||◌, List, [], ◌∷◌, arith,
}

-- The code points of a text.
abbrev pub codes : String → List ℕ
codes String.[] = []
codes (String.◌∷◌ c s) = code c ∷ codes s

-- [A-Za-z0-9]
unfoldable pub is_alnum : ℕ → Bool
is_alnum c = (leb b'0' c && leb c b'9') || (leb b'A' c && leb c b'Z') || (leb b'a' c && leb c b'z')

-- [A-Za-z0-9._-]
unfoldable pub is_name_code : ℕ → Bool
unfolding is_alnum
is_name_code c = is_alnum c || eqb c b'.' || eqb c b'_' || eqb c b'-'

-- [0-9a-f]
unfoldable pub is_hex : ℕ → Bool
is_hex c = (leb b'0' c && leb c b'9') || (leb b'a' c && leb c b'f')

-- [A-Za-z0-9][A-Za-z0-9._-]*
unfoldable pub name_codes : List ℕ → Bool
unfolding is_name_code
name_codes [] = false
name_codes (c ∷ cs) = is_alnum c && all is_name_code cs

-- PROJECT_ID_RE.fullmatch
unfoldable pub is_project_id : String → Bool
unfolding name_codes
is_project_id s = name_codes (codes s)

-- MACHINE_ID_RE.fullmatch
unfoldable pub is_machine_id : String → Bool
unfolding name_codes
is_machine_id s = name_codes (codes s) && leb (length (codes s)) 128

-- [0-9a-f]{n}
unfoldable pub is_hex_text : ℕ → List ℕ → Bool
unfolding is_hex
is_hex_text n cs = eqb (length cs) n && all is_hex cs

-- The codes behind a fixed beginning.
unfoldable pub after_prefix : List ℕ → (List ℕ → Bool) → List ℕ → Bool
after_prefix [] rest cs = rest cs
after_prefix (p ∷ ps) rest [] = false
after_prefix (p ∷ ps) rest (c ∷ cs) = eqb p c && after_prefix ps rest cs

-- rr-[0-9a-f]{16}
unfoldable pub is_run_id : String → Bool
unfolding after_prefix is_hex_text
is_run_id s = after_prefix (codes "rr-") (is_hex_text 16) (codes s)

-- sha256:[0-9a-f]{64}
unfoldable pub is_sha256 : String → Bool
unfolding after_prefix is_hex_text
is_sha256 s = after_prefix (codes "sha256:") (is_hex_text 64) (codes s)

-- str.isspace
unfoldable pub is_space : ℕ → Bool
is_space c =
    (leb 9 c && leb c 13)
    || (leb 28 c && leb c 32)
    || eqb c 133
    || eqb c 160
    || eqb c 5760
    || (leb 8192 c && leb c 8202)
    || eqb c 8232
    || eqb c 8233
    || eqb c 8239
    || eqb c 8287
    || eqb c 12288

-- `not value.strip()`
unfoldable pub is_blank : String → Bool
unfolding is_space
is_blank s = all is_space (codes s)

-- Whether a NUL or the end of a line is in a text.
unfoldable pub has_controls : String → Bool
has_controls s = any (λ c. eqb c 0 || (eqb c 10 || eqb c 13)) (codes s)

-- Python compares texts by their code points.
abbrev pub codes_le : List ℕ → List ℕ → Bool
codes_le [] ys = true
codes_le (x ∷ xs) [] = false
codes_le (x ∷ xs) (y ∷ ys) = ltb x y || (eqb x y && codes_le xs ys)

unfoldable pub str_le : String → String → Bool
str_le s t = codes_le (codes s) (codes t)

codes_le_total : (xs ys : List ℕ) → (codes_le xs ys ≡ true) ⊎ (codes_le ys xs ≡ true)
codes_le_total [] ys = inl (ground arith)
codes_le_total (x ∷ xs) [] = inr (ground arith)
codes_le_total (x ∷ xs) (y ∷ ys) = ground (arith, codes_le_total xs ys)

codes_le_trans :
    (xs ys zs : List ℕ) → codes_le xs ys ≡ true → codes_le ys zs ≡ true → codes_le xs zs ≡ true
codes_le_trans [] ys zs h k = ground arith
codes_le_trans (x ∷ xs) [] zs h k = ground arith
codes_le_trans (x ∷ xs) (y ∷ ys) [] h k = ground arith
codes_le_trans (x ∷ xs) (y ∷ ys) (z ∷ zs) h k = ground (arith, codes_le_trans xs ys zs)

pub str_le_total : (s t : String) → (str_le s t ≡ true) ⊎ (str_le t s ≡ true)
unfolding str_le
str_le_total s t = codes_le_total (codes s) (codes t)

pub str_le_trans : (s t u : String) → str_le s t ≡ true → str_le t u ≡ true → str_le s u ≡ true
unfolding str_le
str_le_trans s t u h k = codes_le_trans (codes s) (codes t) (codes u) h k

-- How Python compares tuples: by the first members, and by the rest where those are equal.
abbrev pub text_then : String → String → Bool → Bool
text_then s t rest = if str_le s t then (if str_le t s then rest else true) else false

abbrev pub number_then : ℕ → ℕ → Bool → Bool
number_then a b rest = if ltb a b then true else if ltb b a then false else rest

pub text_then_total :
    (s t : String) (r r' : Bool)
    → (r ≡ true) ⊎ (r' ≡ true)
    → (text_then s t r ≡ true) ⊎ (text_then t s r' ≡ true)
text_then_total s t r r' h = ground (arith, str_le_total s t)

pub text_then_trans :
    (s t u : String) (r r' r'' : Bool)
    → (r ≡ true → r' ≡ true → r'' ≡ true)
    → text_then s t r ≡ true
    → text_then t u r' ≡ true
    → text_then s u r'' ≡ true
text_then_trans s t u r r' r'' f h k =
    ground (arith, str_le_trans s t u, str_le_trans u s t, str_le_trans t u s)

pub number_then_total :
    (a b : ℕ) (r r' : Bool)
    → (r ≡ true) ⊎ (r' ≡ true)
    → (number_then a b r ≡ true) ⊎ (number_then b a r' ≡ true)
number_then_total a b r r' h = ground arith

pub number_then_trans :
    (a b c : ℕ) (r r' r'' : Bool)
    → (r ≡ true → r' ≡ true → r'' ≡ true)
    → number_then a b r ≡ true
    → number_then b c r' ≡ true
    → number_then a c r'' ≡ true
number_then_trans a b c r r' r'' f h k = ground arith

pub text_then-le : (s t : String) (rest : Bool) → text_then s t rest ≡ true → str_le s t ≡ true
text_then-le s t rest h = ground arith

pub text_then-same : (s t : String) (rest : Bool) → text_then s t rest ≡ true → s ≡ t → rest ≡ true
text_then-same s t rest h e = ground (arith, str_le_total s t)
