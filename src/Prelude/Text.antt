-- ===== src/Prelude/Text.antt =====
-- Go's `strings` and `fmt`, as far as the program uses them. A text is the sequence of its Unicode
-- characters.
use Prim.Native.Nat.{ℕ, zero, suc, ◌/◌, ◌%◌}
use Prim.Native.Char.{Char, code}
use Prim.Native.String.{String, ◌++◌ as append}
use mathlib.Core.Bool.{Bool, ◌&&◌, ◌||◌}
use mathlib.Core.List.{List, [], ◌∷◌}
use mathlib.Core.Option.{Option, none, some}
use command_center.Prelude.Tests.{nat_beq, ltb, leb, if◌then◌else◌}
use command_center.Prelude.Equality.{◌==◌, string_eq}

infixr 65 ◌⧺◌
abbrev pub ◌⧺◌ : String → String → String
s ⧺ t = append s t

abbrev pub is_blank : String → Bool
is_blank s = s == ""

-- `strings.Join`.
unfoldable pub join : String → List String → String
join sep [] = ""
join sep (s ∷ []) = s
join sep (s ∷ t ∷ r) = s ⧺ sep ⧺ join sep (t ∷ r)

digit : ℕ → String
digit d =
    if nat_beq d 0
    then "0"
    else if nat_beq d 1
    then "1"
    else if nat_beq d 2
    then "2"
    else if nat_beq d 3
    then "3"
    else if nat_beq d 4
    then "4"
    else if nat_beq d 5
    then "5"
    else if nat_beq d 6
    then "6"
    else if nat_beq d 7
    then "7"
    else if nat_beq d 8
    then "8"
    else "9"

-- The digits of a number before `acc`; `n + 1` rounds are enough for `n`.
decimal_from : ℕ → ℕ → String → String
decimal_from zero n acc = acc
decimal_from (suc f) n acc =
    let text = digit (n % 10) ⧺ acc in
    let more = decimal_from f (n / 10) text in if ltb n 10 then text else more

-- The verb `%d` of `fmt`.
unfoldable pub decimal : ℕ → String
unfolding decimal_from digit
decimal n = decimal_from (suc n) n ""

-- `unicode.IsSpace`.
unfoldable pub is_space : ℕ → Bool
is_space c =
    leb 9 c && leb c 13
    || nat_beq c 32
    || nat_beq c 0x85
    || nat_beq c 0xA0
    || nat_beq c 0x1680
    || leb 0x2000 c && leb c 0x200A
    || nat_beq c 0x2028
    || nat_beq c 0x2029
    || nat_beq c 0x202F
    || nat_beq c 0x205F
    || nat_beq c 0x3000

trim_left : String → String
trim_left String.[] = ""
trim_left (String.◌∷◌ c s) =
    let rest = trim_left s in if is_space (code c) then rest else String.◌∷◌ c s

trim_right : String → String
trim_right String.[] = ""
trim_right (String.◌∷◌ c s) =
    let rest = trim_right s in if is_blank rest && is_space (code c) then "" else String.◌∷◌ c rest

-- `strings.TrimSpace`.
unfoldable pub trim_space : String → String
unfolding trim_left trim_right is_space
trim_space s = trim_right (trim_left s)

char_beq : Char → Char → Bool
char_beq c d = nat_beq (code c) (code d)

-- The rest of a text behind a prefix of it: `strings.HasPrefix` and `strings.CutPrefix`.
unfoldable pub cut_prefix : String → String → Option String
unfolding char_beq
cut_prefix s String.[] = some s
cut_prefix String.[] (String.◌∷◌ d t) = none
cut_prefix (String.◌∷◌ c s) (String.◌∷◌ d t) =
    let rest = cut_prefix s t in if char_beq c d then rest else none

-- `strings.Cut`: the text before the first occurrence of `sep`, and the text after it.
unfoldable pub cut : String → String → Option (String × String)
unfolding cut_prefix
cut String.[] sep = elim (cut_prefix "" sep) [ some rest ↦ some ("", rest) | none ↦ none ]
cut (String.◌∷◌ c s) sep =
    let later : Option (String × String) = elim (cut s sep) [
      | some (a, b) ↦ some (String.◌∷◌ c a, b)
      | none ↦ none
    ] in
    elim (cut_prefix (String.◌∷◌ c s) sep) [ some rest ↦ some ("", rest) | none ↦ later ]

-- The text before a suffix: `strings.HasSuffix` and `strings.TrimSuffix`.
unfoldable pub cut_suffix : String → String → Option String
cut_suffix String.[] t = if t == "" then some "" else none
cut_suffix (String.◌∷◌ c s) t =
    let rest : Option String = elim (cut_suffix s t) [
      | some r ↦ some (String.◌∷◌ c r)
      | none ↦ none
    ] in
    if String.◌∷◌ c s == t then some "" else rest

-- The text behind the last slash, if there is one; `seen` is what stands before.
after_last_slash : String → String → String
after_last_slash seen String.[] = seen
after_last_slash seen (String.◌∷◌ c s) =
    after_last_slash (if nat_beq (code c) b'/' then "" else seen ⧺ String.◌∷◌ c "") s

trim_slashes : String → String
trim_slashes String.[] = ""
trim_slashes (String.◌∷◌ c s) =
    let rest = trim_slashes s in
    if is_blank rest && nat_beq (code c) b'/' then "" else String.◌∷◌ c rest

-- `filepath.Base` on Unix.
unfoldable pub base_path : String → String
unfolding after_last_slash trim_slashes
base_path path =
    let name = after_last_slash "" (trim_slashes path) in
    if is_blank path then "." else if is_blank name then "/" else name
