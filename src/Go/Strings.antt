-- ===== src/Go/Strings.antt =====
-- What the build script uses of Go's packages strings and path/filepath, on Unix.
use Prim.Native.Char.{Char, code}
use Prim.Native.String
use syncflux.Prelude.{
  ℕ, String, Bool, true, false, ◌||◌, ◌&&◌, not, List, [], ◌∷◌, str_eq, if◌then◌else◌, leb, ◌==◌,
}

-- A character before the first of some parts.
unfoldable pub prepend : Char → List String → List String
prepend c [] = String.◌∷◌ c "" ∷ []
prepend c (p ∷ ps) = String.◌∷◌ c p ∷ ps

-- strings.Split(s, sep), for a separator of one character.
unfoldable pub split : String → String → List String
unfolding prepend
split sep String.[] = "" ∷ []
split sep (String.◌∷◌ c s) =
    let rest = split sep s in if str_eq (String.◌∷◌ c "") sep then "" ∷ rest else prepend c rest

-- strings.Join(parts, sep).
unfoldable pub join_with : String → List String → String
join_with sep [] = ""
join_with sep (p ∷ []) = p
join_with sep (p ∷ q ∷ ps) = String.◌++◌ p (String.◌++◌ sep (join_with sep (q ∷ ps)))

-- strings.HasPrefix(s, start).
unfoldable pub has_prefix : String → String → Bool
has_prefix s String.[] = true
has_prefix String.[] (String.◌∷◌ c start) = false
has_prefix (String.◌∷◌ d s) (String.◌∷◌ c start) =
    let rest = has_prefix s start in code c == code d && rest

-- strings.Contains(s, part).
unfoldable pub contains : String → String → Bool
unfolding has_prefix
contains String.[] part = has_prefix "" part
contains (String.◌∷◌ c s) part =
    let rest = contains s part in has_prefix (String.◌∷◌ c s) part || rest

-- s[n:], for an `n` that the text has.
unfoldable pub drop : ℕ → String → String
drop ℕ.zero s = s
drop (ℕ.suc n) String.[] = ""
drop (ℕ.suc n) (String.◌∷◌ c s) = drop n s

-- unicode.IsSpace.
abbrev pub is_space : ℕ → Bool
is_space c =
    (leb 9 c && leb c 13)
    || c == 32
    || c == 0x85
    || c == 0xa0
    || c == 0x1680
    || (leb 0x2000 c && leb c 0x200a)
    || c == 0x2028
    || c == 0x2029
    || c == 0x202f
    || c == 0x205f
    || c == 0x3000

unfoldable pub trim_left : String → String
trim_left String.[] = ""
trim_left (String.◌∷◌ c s) =
    let rest = trim_left s in if is_space (code c) then rest else String.◌∷◌ c s

unfoldable pub trim_right : String → String
trim_right String.[] = ""
trim_right (String.◌∷◌ c s) =
    let rest = trim_right s in if is_space (code c) && str_eq rest "" then "" else String.◌∷◌ c rest

-- strings.TrimSpace.
unfoldable pub trim_space : String → String
unfolding trim_left trim_right
trim_space s = trim_right (trim_left s)

-- The elements of a path, cleaned, from the last one back: `.` and empty ones go, and `..` takes the one before
-- it, or stays at the start of a path that is not rooted.
unfoldable pub clean_from : Bool → List String → List String → List String
clean_from rooted back [] = back
clean_from rooted back (p ∷ ps) = elim (str_eq p "" || str_eq p ".") [
  | true ↦ clean_from rooted back ps
  | false ↦ elim (str_eq p "..") [
    | false ↦ clean_from rooted (p ∷ back) ps
    | true ↦ elim back [
      | [] ↦ clean_from rooted (if rooted then [] else ".." ∷ []) ps
      | b ∷ bs ↦ clean_from rooted (if str_eq b ".." then ".." ∷ b ∷ bs else bs) ps
    ]
  ]
]

unfoldable pub reversed : List String → List String → List String
reversed onto [] = onto
reversed onto (p ∷ ps) = reversed (p ∷ onto) ps

-- filepath.Clean.
unfoldable pub clean_path : String → String
unfolding clean_from reversed join_with has_prefix split
clean_path path =
    let rooted = has_prefix path "/" in
    let elements = reversed [] (clean_from rooted [] (split "/" path)) in
    let rest = join_with "/" elements in
    if rooted then String.◌++◌ "/" rest else (if str_eq rest "" then "." else rest)

-- filepath.Join.
unfoldable pub join : List String → String
unfolding clean_path
join [] = ""
join (p ∷ ps) =
    let rest = join ps in if str_eq p "" then rest else clean_path (join_with "/" (p ∷ ps))

-- A path up to its last slash, which it keeps; the empty text where there is none.
unfoldable pub through_slash : String → String
through_slash String.[] = ""
through_slash (String.◌∷◌ c s) =
    let rest = through_slash s in
    if not (str_eq rest "")
    then String.◌∷◌ c rest
    else if str_eq (String.◌∷◌ c "") "/"
    then "/"
    else ""

-- filepath.Dir.
unfoldable pub dir_of : String → String
unfolding clean_path through_slash
dir_of path = clean_path (through_slash path)
