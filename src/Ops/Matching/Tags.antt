-- ===== src/Ops/Matching/Tags.antt =====
-- packages/ops/src/matching.ts: the regular expressions that find a case's tag in a text. With the
-- flag `i` and no `u` they compare letters as ASCII does.
use Prim.Native.Char.{code}
use qev_platform.Base.{
  ℕ, suc, String, ◌≡◌, refl, Bool, true, false, not, ◌&&◌, ◌||◌, Option, none, some, List, [], ◌∷◌,
  ◌<>◌, leb, ltb, eqb, if◌then◌else◌, truthy,
}

abbrev between : ℕ → ℕ → ℕ → Bool
between low high n = leb low n && leb n high

abbrev is_letter : ℕ → Bool
is_letter n = between 0x41 0x5a n || between 0x61 0x7a n

abbrev is_digit : ℕ → Bool
is_digit n = between 0x30 0x39 n

-- [A-Z0-9-] and \w
abbrev is_tag : ℕ → Bool
is_tag n = is_letter n || is_digit n || eqb n 0x2d

abbrev is_word : ℕ → Bool
is_word n = is_letter n || is_digit n || eqb n 0x5f

abbrev differ : Bool → Bool → Bool
differ true b = not b
differ false b = b

abbrev count : String → ℕ
count String.[] = 0
count (String.◌∷◌ c s) = suc (count s)

-- The longest prefix of characters that pass the test, and the text behind it.
abbrev run : (ℕ → Bool) → String → String
run p String.[] = ""
run p (String.◌∷◌ c s) = if p (code c) then String.◌∷◌ c (run p s) else ""

abbrev after_run : (ℕ → Bool) → String → String
after_run p String.[] = ""
after_run p (String.◌∷◌ c s) = if p (code c) then after_run p s else String.◌∷◌ c s

-- The text behind one character of the given code.
abbrev after : ℕ → String → Option String
after n String.[] = none
after n (String.◌∷◌ c s) = if eqb (code c) n then some s else none

-- A text that starts with these characters, the letters in either case.
abbrev starts : List (ℕ × ℕ) → String → Bool
starts [] s = true
starts (n ∷ ns) String.[] = false
starts (n ∷ ns) (String.◌∷◌ c s) = (eqb (code c) n.0 || eqb (code c) n.1) && starts ns s

abbrev starts_job : String → Bool
starts_job s = starts ((0x4a, 0x6a) ∷ (0x4f, 0x6f) ∷ (0x42, 0x62) ∷ (0x2d, 0x2d) ∷ []) s

-- /(JOB-[A-Z0-9-]+)/i: the first place where more than JOB- is matched; JOB- is itself in the class.
unfoldable pub job_tag : String → Option String
job_tag String.[] = none
job_tag (String.◌∷◌ c s) =
    let later = job_tag s in
    if starts_job (String.◌∷◌ c s) && ltb 4 (count (run is_tag (String.◌∷◌ c s)))
    then some (run is_tag (String.◌∷◌ c s))
    else later

abbrev starts_word : String → Bool
starts_word String.[] = false
starts_word (String.◌∷◌ c s) = is_word (code c)

-- The longest prefix in the class that ends at a word boundary.
abbrev bounded_run : String → String
bounded_run String.[] = ""
bounded_run (String.◌∷◌ c s) =
    let longer = bounded_run s in
    if is_tag (code c)
    then (if truthy longer
        then String.◌∷◌ c longer
        else if differ (is_word (code c)) (starts_word s)
        then String.◌∷◌ c ""
        else "")
    else ""

-- /\b(JOB-[A-Z0-9-]+)\b/i, where `inside` says that the character before is one of a word.
unfoldable pub job_word : (inside : Bool) → String → Option String
job_word inside String.[] = none
job_word inside (String.◌∷◌ c s) =
    let later = job_word (is_word (code c)) s in
    if not inside && starts_job (String.◌∷◌ c s) && ltb 4 (count (bounded_run (String.◌∷◌ c s)))
    then some (bounded_run (String.◌∷◌ c s))
    else later

-- [A-Z]+-\d+[A-Z0-9-]*\] at the start of a text, without its last character.
abbrev bracket_body : String → Option String
bracket_body s =
    if truthy (run is_letter s)
    then elim (after 0x2d (after_run is_letter s)) [
      | none ↦ none
      | some rest ↦
          if truthy (run is_digit rest)
          then elim (after 0x5d (after_run is_tag rest)) [
            | none ↦ none
            | some end ↦ some (run is_letter s <> "-" <> run is_tag rest)
          ]
          else none
    ]
    else none

-- /\[([A-Z]+-\d+[A-Z0-9-]*)\]/i
unfoldable pub bracket_tag : String → Option String
bracket_tag String.[] = none
bracket_tag (String.◌∷◌ c s) =
    let later = bracket_tag s in
    if eqb (code c) 0x5b
    then elim (bracket_body s) [ none ↦ later | some tag ↦ some tag ]
    else later

-- The first expression, else the second.
unfoldable pub subject_tag : String → Option String
unfolding bracket_tag job_word
subject_tag s = elim (bracket_tag s) [ none ↦ job_word false s | some tag ↦ some tag ]

tag_tests :
    (job_tag "jobs/job-/JOB-12-A_2.pdf" ≡ some "JOB-12-A")
    × (job_word false "xJOB-1 job-7- done" ≡ some "job-7")
    × (subject_tag "Re: [wo-9x] JOB-3" ≡ some "wo-9x")
    × (subject_tag "Re: [wo-] JOB-3" ≡ some "JOB-3")
    × (subject_tag "hello" ≡ none)
unfolding job_tag job_word subject_tag bracket_tag
tag_tests = (refl, refl, refl, refl, refl)
