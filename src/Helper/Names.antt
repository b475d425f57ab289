-- ===== src/Helper/Names.antt =====
-- baa_set_program_name, baa_strlwr and baa_strupr of src/helper.c. malloc works; tolower and toupper
-- are parameters.
use libbaalue.Prelude.{
  ℕ, ◌≡◌, ◌≢◌, refl, false, Option, none, some, List, [], ◌∷◌, ◌++◌, map, All, arith, if◌then◌else◌,
  ◌==◌,
}

-- strrchr: the text from the last such byte on.
abbrev pub strrchr : List ℕ → ℕ → Option (List ℕ)
strrchr [] c = none
strrchr (b ∷ s) c =
    let here : Option (List ℕ) = if b == c then some (b ∷ s) else none in
    elim (strrchr s c) [ none ↦ here | some found ↦ some found ]

abbrev pub tail : List ℕ → List ℕ
tail [] = []
tail (b ∷ s) = s

abbrev pub dummy : List ℕ
dummy = b'd' ∷ b'u' ∷ b'm' ∷ b'm' ∷ b'y' ∷ []

-- `none` is NULL.
unfoldable pub baa_set_program_name : Option (List ℕ) → List ℕ
baa_set_program_name kdo_arg =
    let arg : List ℕ = elim kdo_arg [ none ↦ dummy | some a ↦ a ] in
    elim (strrchr arg b'/') [ none ↦ arg | some found ↦ tail found ]

-- The bytes of a buffer up to its first NUL are changed in place; `none` is a read past the buffer.
unfoldable pub case_loop : (ℕ → ℕ) → List ℕ → Option (List ℕ)
case_loop change [] = none
case_loop change (b ∷ s) =
    let rest : Option (List ℕ) = elim (case_loop change s) [
      | none ↦ none
      | some r ↦ some (change b ∷ r)
    ] in
    if b == 0 then some (b ∷ s) else rest

unfoldable pub baa_strlwr : (ℕ → ℕ) → List ℕ → Option (List ℕ)
unfolding case_loop
baa_strlwr tolower str = case_loop tolower str

unfoldable pub baa_strupr : (ℕ → ℕ) → List ℕ → Option (List ℕ)
unfolding case_loop
baa_strupr toupper str = case_loop toupper str

abbrev pub NoSlash : List ℕ → Type 0
NoSlash = All (λ b. b ≢ b'/')

strrchr-none : (s : List ℕ) → NoSlash s → strrchr s b'/' ≡ none
strrchr-none [] h = refl
strrchr-none (b ∷ s) h =
    let other : (b == b'/') ≡ false = ground (arith, h.0) in rw (strrchr-none s h.1, other)

strrchr_last : (dir s : List ℕ) → NoSlash s → strrchr (dir ++ b'/' ∷ s) b'/' ≡ some (b'/' ∷ s)
strrchr_last [] s h = rw (strrchr-none s h)
strrchr_last (b ∷ dir) s h = rw (strrchr_last dir s h)

-- The program's name is what stands behind the last slash of its path, and the whole text if there
-- is no slash.
pub baa_set_program_name_lem :
    (dir name : List ℕ)
    → NoSlash name
    → (baa_set_program_name (some (dir ++ b'/' ∷ name)) ≡ name)
      × (baa_set_program_name (some name) ≡ name)
unfolding baa_set_program_name
baa_set_program_name_lem dir name h = (
  rw (baa_set_program_name, strrchr_last dir name h),
  rw (baa_set_program_name, strrchr-none name h),
)

case_loop_lem :
    (change : ℕ → ℕ) (s rest : List ℕ)
    → All (λ b. b ≢ 0) s
    → case_loop change (s ++ 0 ∷ rest) ≡ some (map change s ++ 0 ∷ rest)
unfolding case_loop
case_loop_lem change [] rest h = refl
case_loop_lem change (b ∷ s) rest h =
    let other : (b == 0) ≡ false = ground (arith, h.0) in
    rw (case_loop_lem change s rest h.1, other)

-- Both functions change each byte of a C string by tolower or toupper, and neither its NUL nor
-- what stands behind it.
pub case_lem :
    (tolower toupper : ℕ → ℕ) (s rest : List ℕ)
    → All (λ b. b ≢ 0) s
    → (baa_strlwr tolower (s ++ 0 ∷ rest) ≡ some (map tolower s ++ 0 ∷ rest))
      × (baa_strupr toupper (s ++ 0 ∷ rest) ≡ some (map toupper s ++ 0 ∷ rest))
unfolding baa_strlwr baa_strupr
case_lem tolower toupper s rest h = (case_loop_lem tolower s rest h, case_loop_lem toupper s rest h)
