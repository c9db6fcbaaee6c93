-- ===== src/OutputPaths.antt =====
-- src/remote_runner/_internal/output_paths.py: the paths that a run's output may have. A path is
-- the list of its code points; `posix_text` is what `str(PurePosixPath(text))` gives.
use codex_remote_runner.Text.{codes, is_blank, has_controls}
use codex_remote_runner.Prelude.{
  eqb, if◌then◌else◌, any, filter, string_eq, nat_eq, value_error, Result, ok, ◌>>=◌, ◌>>◌,
  raise_if, >>=-eq-ok, ok_injective, passed, ℕ, String, ◌≡◌, ap, ◌∙◌, Bool, true, false, not, ◌&&◌,
  ◌||◌, Option, none, some, List, [], ◌∷◌, ◌++◌,
}

-- text.split("/")
abbrev pub split_slashes : List ℕ → List (List ℕ)
split_slashes [] = [] ∷ []
split_slashes (c ∷ cs) =
    if eqb c b'/' then [] ∷ split_slashes cs else before_slash c (split_slashes cs)
  where
    before_slash : ℕ → List (List ℕ) → List (List ℕ)
    before_slash c [] = (c ∷ []) ∷ []
    before_slash c (part ∷ parts) = (c ∷ part) ∷ parts

abbrev pub same_codes : List ℕ → List ℕ → Bool
same_codes [] [] = true
same_codes [] (y ∷ ys) = false
same_codes (x ∷ xs) [] = false
same_codes (x ∷ xs) (y ∷ ys) = eqb x y && same_codes xs ys

-- The components of a path, without the root: empty ones and dots are dropped.
unfoldable pub parts : List ℕ → List (List ℕ)
parts cs =
    filter (λ part. not (same_codes part []) && not (same_codes part (codes ".")))
      (split_slashes cs)

abbrev join_slashes : List (List ℕ) → List ℕ
join_slashes [] = []
join_slashes (part ∷ []) = part
join_slashes (part ∷ other ∷ rest) = part ++ (b'/' ∷ join_slashes (other ∷ rest))

-- Two slashes at the beginning are a root of their own; three or more are one.
abbrev root : List ℕ → List ℕ
root [] = []
root (a ∷ []) = if eqb a b'/' then codes "/" else []
root (a ∷ b ∷ []) = if eqb a b'/' then (if eqb b b'/' then codes "//" else codes "/") else []
root (a ∷ b ∷ c ∷ cs) =
    if eqb a b'/' then (if eqb b b'/' && not (eqb c b'/') then codes "//" else codes "/") else []

abbrev or_dot : List ℕ → List ℕ
or_dot [] = codes "."
or_dot (c ∷ cs) = c ∷ cs

unfoldable pub posix_text : List ℕ → List ℕ
unfolding parts
posix_text cs = or_dot (root cs ++ join_slashes (parts cs))

abbrev pub starts_with : ℕ → List ℕ → Bool
starts_with c [] = false
starts_with c (x ∷ xs) = eqb x c

-- _path_text
unfoldable pub path_text : String → Result (Unit {0})
unfolding is_blank has_controls
path_text value = do
  raise_if (is_blank value) (value_error "output path must be a non-empty string")
  raise_if (has_controls value) (value_error "output path contains invalid control characters")
  raise_if (any (λ c. eqb c b'$' || eqb c b'`') (codes value) || starts_with b'~' (codes value))
      (value_error "output path must be literal and cannot use shell expansion")

unfoldable pub normalize_absolute_output_path : String → Result String
unfolding path_text posix_text
normalize_absolute_output_path value = do
  path_text value
  raise_if (not (starts_with b'/' (codes value)))
      (value_error "output path must be an absolute POSIX path")
  raise_if (not (same_codes (posix_text (codes value)) (codes value)))
      (value_error "output path must be a normalized POSIX path")
  ok value

unfoldable pub normalize_output_relpath : String → Result String
unfolding path_text posix_text parts
normalize_output_relpath value = do
  path_text value
  raise_if (starts_with b'/' (codes value))
      (value_error "output path must be a relative POSIX path")
  raise_if
      (same_codes (posix_text (codes value)) (codes ".")
        || any (λ part. same_codes part (codes "..")) (parts (codes value)))
      (value_error "output path cannot contain dot or parent traversal components")
  raise_if (not (same_codes (posix_text (codes value)) (codes value)))
      (value_error "output path must be a normalized POSIX path")
  ok value

-- A value that may be missing.
abbrev pub optional : (String → Result String) → Option String → Result (Option String)
optional normalize none = ok none
optional normalize (some value) = normalize value >>= λ text. ok (some text)

unfoldable pub normalize_output_root : Option String → Result (Option String)
unfolding normalize_absolute_output_path
normalize_output_root = optional normalize_absolute_output_path

-- What passes is the text as it was given.
normalize_absolute_output_path-same :
    (value text : String) → normalize_absolute_output_path value ≡ ok text → value ≡ text
unfolding normalize_absolute_output_path
normalize_absolute_output_path-same value text h =
    let (_, _, h1) = >>=-eq-ok (path_text value) _ h in
    let (_, h2) = passed (not (starts_with b'/' (codes value))) _ _ h1 in
    let (_, h3) = passed (not (same_codes (posix_text (codes value)) (codes value))) _ _ h2 in
    ok_injective _ _ h3

normalize_output_relpath-same :
    (value text : String) → normalize_output_relpath value ≡ ok text → value ≡ text
unfolding normalize_output_relpath
normalize_output_relpath-same value text h =
    let (_, _, h1) = >>=-eq-ok (path_text value) _ h in
    let (_, h2) = passed (starts_with b'/' (codes value)) _ _ h1 in
    let (_, h3) = passed _ _ _ h2 in
    let (_, h4) = passed (not (same_codes (posix_text (codes value)) (codes value))) _ _ h3 in
    ok_injective _ _ h4

optional-same :
    (normalize : String → Result String) (value text : Option String)
    → ((v t : String) → normalize v ≡ ok t → v ≡ t)
    → optional normalize value ≡ ok text
    → value ≡ text
optional-same normalize none text same h = ok_injective _ _ h
optional-same normalize (some value) text same h =
    let (found, one, rest) = >>=-eq-ok (normalize value) _ h in
    ap some (same value found one) ∙ ok_injective _ _ rest

pub optional_relpath-same :
    (value text : Option String) → optional normalize_output_relpath value ≡ ok text → value ≡ text
optional_relpath-same value text h =
    optional-same normalize_output_relpath value text normalize_output_relpath-same h

pub optional_path-same :
    (value text : Option String)
    → optional normalize_absolute_output_path value ≡ ok text
    → value ≡ text
optional_path-same value text h =
    optional-same normalize_absolute_output_path value text normalize_absolute_output_path-same h

pub normalize_output_root-same :
    (value text : Option String) → normalize_output_root value ≡ ok text → value ≡ text
unfolding normalize_output_root
normalize_output_root-same = optional_path-same
