-- ===== src/Inventory/Paths.antt =====
-- The parts of Go's filepath, strings, strconv, bufio and sort that reading sysfs uses, and the
-- file system, which is a parameter.
use dra_linux_networks.Prelude.{
  ℕ, zero, suc, Char, code, String, ◌<>◌, Bool, true, false, not, ◌&&◌, Option, none, some, List,
  [], ◌∷◌, ◌==◌, if◌then◌else◌, has_prefix, join, ltb, eqb, ◌≡◌, refl, is_empty,
}
use dra_linux_networks.Prelude.Int.{ℤ, pos, negsuc}
use dra_linux_networks.Prelude.Decimal.{parse_digits}

-- `filepath.EvalSymlinks`, `os.ReadFile`, `filepath.Glob` and `os.Stat`; `path_match` is the
-- pattern matching of the package path, false for a bad pattern.
pub record Files : Type 0 where
  pub eval_symlinks : String → Option String
  pub read_file : String → Option String
  pub glob : String → Option (List String)
  pub file_exists : String → Bool
  pub path_match : String → String → Bool

-- The pieces between the characters of a kind: the first, and those that follow.
pieces : (Char → Bool) → String → String × List String
pieces test String.[] = ("", [])
pieces test (String.◌∷◌ c s) =
    let (piece, rest) = pieces test s in
    if test c then ("", piece ∷ rest) else (String.◌∷◌ c piece, rest)

-- `strings.Split`, by one character
unfoldable pub split : (Char → Bool) → String → List String
unfolding pieces
split test s = let (piece, rest) = pieces test s in piece ∷ rest

non_empty : List String → List String
non_empty [] = []
non_empty (s ∷ rest) = let others = non_empty rest in if s == "" then others else s ∷ others

-- `strings.FieldsFunc`
unfoldable pub fields_func : (Char → Bool) → String → List String
unfolding non_empty
fields_func test s = non_empty (split test s)

abbrev pub is_slash : Char → Bool
is_slash c = eqb (code c) 47

-- The elements of a clean path, the last first.
clean_elements : Bool → List String → List String → List String
clean_elements rooted [] up = up
clean_elements rooted (element ∷ rest) up = clean_elements rooted rest (
    if element == "." then up else if not (element == "..") then element ∷ up else elim up [
      | [] ↦ if rooted then [] else ".." ∷ []
      | last ∷ others ↦ if last == ".." then ".." ∷ last ∷ others else others
    ])

reversed : List String → List String → List String
reversed [] done = done
reversed (s ∷ rest) done = reversed rest (s ∷ done)

-- `filepath.Clean`
unfoldable pub clean : String → String
unfolding clean_elements reversed
clean path =
    let rooted = has_prefix path "/" in
    let elements = reversed (clean_elements rooted (fields_func is_slash path) []) [] in
    if rooted
    then "/" <> join elements "/"
    else if is_empty elements
    then "."
    else join elements "/"

-- `filepath.Join`
unfoldable pub join_path : List String → String
unfolding non_empty
join_path elements =
    let parts = non_empty elements in if is_empty parts then "" else clean (join parts "/")

last_of : String → List String → String
last_of found [] = found
last_of found (s ∷ rest) = last_of s rest

-- `filepath.Base`
unfoldable pub base : String → String
unfolding last_of
base path =
    if path == ""
    then "."
    else elim (fields_func is_slash path) [ [] ↦ "/" | s ∷ rest ↦ last_of s rest ]

-- `bufio.Scanner`: the lines, without their ends.
without_return : String → String
without_return String.[] = ""
without_return (String.◌∷◌ c s) =
    let rest = without_return s in if s == "" && eqb (code c) 13 then "" else String.◌∷◌ c rest

lines_of : List String → List String
unfolding without_return
lines_of [] = []
lines_of (s ∷ rest) =
    let others = lines_of rest in if is_empty rest && s == "" then [] else without_return s ∷ others

unfoldable pub scan_lines : String → List String
unfolding lines_of
scan_lines text = lines_of (split (λ c. eqb (code c) 10) text)

-- `strings.Cut(s, "=")`
unfoldable pub cut_equals : String → Option (String × String)
cut_equals String.[] = none
cut_equals (String.◌∷◌ c s) =
    let rest = cut_equals s in
    if eqb (code c) 61
    then some ("", s)
    else elim rest [ none ↦ none | some (key, value) ↦ some (String.◌∷◌ c key, value) ]

-- `strconv.Atoi`, of numbers that an int holds.
signed : Option ℕ → Option ℤ
signed none = none
signed (some n) = some (elim n [ zero ↦ pos 0 | suc m ↦ negsuc m ])

unfoldable pub atoi : String → Option ℤ
unfolding signed
atoi String.[] = none
atoi (String.◌∷◌ c s) =
    if eqb (code c) 45
    then signed (parse_digits s)
    else elim (if eqb (code c) 43 then parse_digits s else parse_digits (String.◌∷◌ c s)) [
      | none ↦ none
      | some n ↦ some (pos n)
    ]

-- `sort.Strings`; UTF-8 keeps the order of the characters.
text_leb : String → String → Bool
text_leb String.[] t = true
text_leb (String.◌∷◌ c s) String.[] = false
text_leb (String.◌∷◌ c s) (String.◌∷◌ d t) =
    let rest = text_leb s t in if ltb (code c) (code d) then true else eqb (code c) (code d) && rest

insert_text : String → List String → List String
insert_text s [] = s ∷ []
insert_text s (t ∷ rest) =
    let later = insert_text s rest in if text_leb s t then s ∷ t ∷ rest else t ∷ later

unfoldable pub sort_texts : List String → List String
unfolding insert_text text_leb
sort_texts [] = []
sort_texts (s ∷ rest) = insert_text s (sort_texts rest)

-- A pattern of one test for each character.
unfoldable pub matches : List (Char → Bool) → String → Bool
matches [] String.[] = true
matches [] (String.◌∷◌ c s) = false
matches (test ∷ tests) String.[] = false
matches (test ∷ tests) (String.◌∷◌ c s) = test c && matches tests s

clean_test : join_path ("/sys/class/" ∷ "" ∷ "net/../x" ∷ "." ∷ "eth1" ∷ []) ≡ "/sys/class/x/eth1"
unfolding join_path clean split pieces has_prefix join fields_func
clean_test = refl

lines_test : scan_lines "a=b\r\nc\n" ≡ "a=b" ∷ "c" ∷ []
unfolding scan_lines split
lines_test = refl
