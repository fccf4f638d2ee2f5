-- ===== src/Nawarun/CommandLine/Laws.antt =====
-- A command line that is put together from overrides and a file is read back.
use nawa.Common.{
  ℕ, ◌≡◌, ◌≢◌, refl, sym, ap, ◌∙◌, true, false, List, [], ◌∷◌, ◌++◌, append_assoc, append-nil, map,
  arith, none, some, if◌then◌else◌, inl, inr, Bool-cases, length, length-append, All, Bytes, Lacks,
  Fits, codes, beq, beq_iff, find_first_of, is_empty, npos, substr, take_all,
}
use nawa.Config.{Entry}
use nawa.Util.Strings.{split_string}
use nawa.Util.Strings.Split.{kept, non_empty, pieces-append, pieces_single, split_string-pieces}
use nawa.Nawarun.CommandLine.{
  given, entry_of, of_parts, override_of, last_path, parse_arguments, parse_command_line,
}

-- `--category:key=value`.
unfoldable pub option : Entry → Bytes
option ((category, key), value) = codes "--" ++ ((category ++ b':' ∷ key) ++ b'=' ∷ value)

abbrev pub Filled : Bytes → Type 0
Filled s = is_empty s ≡ false

-- No part of an override is empty, and none has a delimiter that would split it.
abbrev pub IsOption : Entry → Type 0
IsOption e =
    let ((category, key), value) = e in
    (Filled category × Lacks b':' category × Lacks b'=' category)
    × (Filled key × Lacks b':' key × Lacks b'=' key)
    × (Filled value × Lacks b'=' value)
    × Fits (option e)

filled : (s : Bytes) (c : ℕ) (t : Bytes) → Filled (s ++ c ∷ t)
filled [] c t = refl
filled (x ∷ s) c t = refl

-- Two parts that are not empty.
split_two :
    (d : ℕ) (s t : Bytes)
    → Filled s
    → Filled t
    → Lacks d s
    → Lacks d t
    → Fits (s ++ d ∷ t)
    → split_string (s ++ d ∷ t) d true ≡ s ∷ t ∷ []
unfolding kept
split_two d [] t fs ft ls lt fits = cc
split_two d (c ∷ s) [] fs ft ls lt fits = cc
split_two d (c ∷ s) (b ∷ t) fs ft ls lt fits =
    split_string-pieces ((c ∷ s) ++ d ∷ (b ∷ t)) d true fits
    ∙ ap non_empty (pieces-append d (c ∷ s) (b ∷ t) ls ∙ ap (◌∷◌ (c ∷ s)) (pieces_single d b t lt))

Lacks-append : (d c : ℕ) (s t : Bytes) → c ≢ d → Lacks d s → Lacks d t → Lacks d (s ++ c ∷ t)
Lacks-append d c [] t n ls lt = (n, lt)
Lacks-append d c (x ∷ s) t n ls lt = (ls.0, Lacks-append d c s t n ls.1 lt)

colon-equals : ◌≢◌ {A = ℕ} b':' b'='
colon-equals e = omega (arith, e)

override_of-option : (e : Entry) → IsOption e → override_of (option e) ≡ some e
unfolding override_of option of_parts entry_of substr beq
override_of-option ((category, key), value) ((fc, lc, ec), (fk, lk, ek), (fv, lv), fits) =
    let id = category ++ b':' ∷ key in
    let rest = id ++ b'=' ∷ value in
    let size = length-append id (b'=' ∷ value) in
    ap (λ s. of_parts (split_string s b'=' true)) (take_all npos rest (omega (arith, fits)))
    ∙ ap of_parts (
        split_two b'=' id value (filled category b':' key) fv
          (Lacks-append b'=' b':' category key colon-equals ec ek) lv (omega (arith, fits)))
    ∙ ap (λ parts. entry_of parts value)
        (split_two b':' category key fc fk lc lk (omega (arith, fits, size)))

non_empty-Filled : (s : Bytes) (ss : List Bytes) → Filled s → non_empty (s ∷ ss) ≡ s ∷ non_empty ss
unfolding non_empty
non_empty-Filled [] ss h = cc
non_empty-Filled (c ∷ s) ss h = refl

three_parts :
    (d : ℕ) (r s t : Bytes)
    → Filled r
    → Filled s
    → Filled t
    → Lacks d r
    → Lacks d s
    → Lacks d t
    → Fits (r ++ d ∷ (s ++ d ∷ t))
    → split_string (r ++ d ∷ (s ++ d ∷ t)) d true ≡ r ∷ s ∷ t ∷ []
unfolding kept
three_parts d r s [] fr fs ft lr ls lt fits = cc
three_parts d r s (c ∷ t) fr fs ft lr ls lt fits =
    split_string-pieces (r ++ d ∷ (s ++ d ∷ c ∷ t)) d true fits
    ∙ ap non_empty (
        pieces-append d r (s ++ d ∷ c ∷ t) lr
        ∙ ap (◌∷◌ r) (pieces-append d s (c ∷ t) ls ∙ ap (◌∷◌ s) (pieces_single d c t lt)))
    ∙ non_empty-Filled r (s ∷ (c ∷ t) ∷ []) fr
    ∙ ap (◌∷◌ r) (non_empty-Filled s ((c ∷ t) ∷ []) fs ∙ ap (◌∷◌ s) (unfold non_empty in refl))

-- A value with an equals sign makes a third part.
override_of-equals :
    (e : Entry) (more : Bytes)
    → IsOption e
    → Filled more
    → Lacks b'=' more
    → Fits (option e ++ b'=' ∷ more)
    → override_of (option e ++ b'=' ∷ more) ≡ none
unfolding override_of option of_parts substr beq
override_of-equals ((category, key), value) more ((fc, lc, ec), (fk, lk, ek), (fv, lv), fits) fm lm
      whole =
    let id = category ++ b':' ∷ key in
    let rest = (id ++ b'=' ∷ value) ++ b'=' ∷ more in
    let none_in_id = Lacks-append b'=' b':' category key colon-equals ec ek in
    let shape : rest ≡ id ++ b'=' ∷ (value ++ b'=' ∷ more) =
      append_assoc id (b'=' ∷ value) (b'=' ∷ more) in
    let size = ap length shape in
    ap (λ s. of_parts (split_string s b'=' true))
      (take_all npos rest (omega (arith, whole)) ∙ shape)
    ∙ ap of_parts (
        three_parts b'=' id value more (filled category b':' key) fv fm none_in_id lv lm
          (omega (arith, whole, size)))

-- An override is never taken for one of the four options that end the program.
not_flag :
    (flag arg : Bytes) (e : Entry)
    → override_of flag ≡ none
    → override_of arg ≡ some e
    → beq arg flag ≡ false
not_flag flag arg e h k = elim (Bool-cases (beq arg flag)) [
  | inl same ↦ cc (ap override_of ((beq_iff arg flag).0 same), h, k)
  | inr other ↦ other
]

option-parse_arguments :
    (arg : Bytes) (e : Entry) (args : List Bytes) (overrides : List Entry)
    → override_of arg ≡ some e
    → parse_arguments (arg ∷ args) overrides ≡ parse_arguments args (overrides ++ e ∷ [])
unfolding parse_arguments
option-parse_arguments arg e [] overrides h = rw (h, parse_arguments) refl
option-parse_arguments arg e (next ∷ args) overrides h = rw (h, parse_arguments) refl

options-parse_arguments :
    (es : List Entry) (args : List Bytes) (overrides : List Entry)
    → All IsOption es
    → parse_arguments (map option es ++ args) overrides ≡ parse_arguments args (overrides ++ es)
options-parse_arguments [] args overrides ok =
    ap (parse_arguments args) (sym (append-nil overrides))
options-parse_arguments (e ∷ es) args overrides (ok, oks) =
    option-parse_arguments (option e) e (map option es ++ args) overrides (override_of-option e ok)
    ∙ options-parse_arguments es args (overrides ++ e ∷ []) oks
    ∙ ap (parse_arguments args) (append_assoc overrides (e ∷ []) es)

-- Not one of the options that are answered in first place.
abbrev pub IsPlain : Bytes → Type 0
IsPlain arg =
    (beq arg (codes "--help") ≡ false)
    × (beq arg (codes "-h") ≡ false)
    × (beq arg (codes "--version") ≡ false)
    × (beq arg (codes "-v") ≡ false)

plain_lem :
    (arg : Bytes) (args : List Bytes)
    → IsPlain arg
    → parse_command_line (arg ∷ args) ≡ given (parse_arguments (arg ∷ args) [])
unfolding parse_command_line
plain_lem arg args (a, b, c, d) = rw (a, b, c, d) refl

no_flags :
    (override_of (codes "--help") ≡ none)
    × (override_of (codes "-h") ≡ none)
    × (override_of (codes "--version") ≡ none)
    × (override_of (codes "-v") ≡ none)
unfolding override_of of_parts split_string substr beq find_first_of
no_flags = (refl, refl, refl, refl)

option-IsPlain : (e : Entry) → IsOption e → IsPlain (option e)
option-IsPlain e ok =
    let (a, b, c, d) = no_flags in
    let read = override_of-option e ok in
    (
      not_flag (codes "--help") (option e) e a read,
      not_flag (codes "-h") (option e) e b read,
      not_flag (codes "--version") (option e) e c read,
      not_flag (codes "-v") (option e) e d read,
    )

options-parse_command_line :
    (es : List Entry) (args : List Bytes)
    → All IsOption es
    → All IsPlain args
    → parse_command_line (map option es ++ args) ≡ given (parse_arguments args es)
unfolding parse_command_line
options-parse_command_line [] [] ok plain = refl
options-parse_command_line [] (arg ∷ args) ok plain = plain_lem arg args plain.0
options-parse_command_line (e ∷ es) args ok plain =
    plain_lem (option e) (map option es ++ args) (option-IsPlain e ok.0)
    ∙ ap given (options-parse_arguments (e ∷ es) args [] ok)

-- Overrides whose category, key and value are not empty, whose category and key have no colon and no
-- equals sign, and whose value has no equals sign, are read back in their order, whatever their
-- number, if they are written as options that fit in memory. Behind them a last argument that is not
-- an option, and none of `--help`, `-h`, `--version` and `-v`, names the file, the last argument
-- `--no-config-file` stands for no file, and without a further argument the file is `config.ini`. An
-- option with a value of two such parts, joined by an equals sign, is not read as an override.
pub parse_command_line-option :
    (es : List Entry) (path : Bytes) (e : Entry) (more : Bytes)
    → All IsOption es
    → IsPlain path
    → override_of path ≡ none
    → IsOption e
    → Filled more
    → Lacks b'=' more
    → Fits (option e ++ b'=' ∷ more)
    → (parse_command_line (map option es ++ path ∷ [])
        ≡ given (record {
          config_file = if beq path (codes "--no-config-file") then none else some path;
          config_overrides = es;
        }))
      × (parse_command_line (map option es)
          ≡ given (record { config_file = some (codes "config.ini"); config_overrides = es }))
      × (override_of (option e ++ b'=' ∷ more) ≡ none)
unfolding parse_arguments last_path
parse_command_line-option es path e more ok plain named is_option filled_more lacks fits = (
  options-parse_command_line es (path ∷ []) ok (plain, tt)
      ∙ ap given (rw (named, parse_arguments) refl),
  ap parse_command_line (sym (append-nil (map option es))) ∙ options-parse_command_line es [] ok tt,
  override_of-equals e more is_option filled_more lacks fits,
)
