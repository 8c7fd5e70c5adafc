-- ===== src/Base/Text.antt =====
-- What the operator uses of Go's `strings` and `strconv`. `to_lower` and `to_upper` are those of ASCII.
use Prim.Native.Nat.{ℕ, zero, suc, ◌/◌, ◌%◌, compare, Ordering}
use Prim.Native.Char.{Char, code}
use Prim.Native.String.{String, count, ◌++◌ as ◌<>◌}
use mathlib.Core.Path.{◌≡◌, refl, ap, ◌∙◌}
use mathlib.Core.Logic.{◌≢◌, inl, inr}
use mathlib.Core.Bool.{Bool, true, false}
use mathlib.Core.Option
use mathlib.Core.Option.{Option, none, some}
use native.Mathlib.Omega.{arith}
use text.Mathlib.TextLemmas.{nil-append, cons-append, length-cons, length-append}
use openshift_karpenter_oper.Base.Equality.{if◌then◌else◌, ◌==◌, string_eq, Bool-cases}

same_char : Char → Char → Bool
same_char c d = elim (compare (code c) (code d)) [ Ordering.eq ↦ true | _ ↦ false ]

same_char_refl : (c : Char) → same_char c c ≡ true
unfolding same_char
same_char_refl c = ground arith

-- `strings.CutPrefix(s, prefix)`, with `none` where the prefix is not there.
unfoldable pub cut_prefix : String → String → Option String
unfolding same_char
cut_prefix s String.[] = some s
cut_prefix String.[] (String.◌∷◌ d p) = none
cut_prefix (String.◌∷◌ c s) (String.◌∷◌ d p) = if same_char c d then cut_prefix s p else none

-- `strings.TrimPrefix(s, prefix)`
unfoldable pub trim_prefix : String → String → String
unfolding cut_prefix
trim_prefix s prefix = elim (cut_prefix s prefix) [ some rest ↦ rest | none ↦ s ]

-- `strings.CutSuffix(s, suffix)`, with `none` where the suffix is not there.
unfoldable pub cut_suffix : String → String → Option String
cut_suffix String.[] suffix = if suffix == "" then some "" else none
cut_suffix (String.◌∷◌ c s) suffix =
    if String.◌∷◌ c s == suffix then some "" else Option.map (String.◌∷◌ c) (cut_suffix s suffix)

-- The text behind the first separator, as `strings.Cut` gives it.
unfoldable pub after_first : Char → String → Option String
unfolding same_char
after_first sep String.[] = none
after_first sep (String.◌∷◌ c s) = if same_char c sep then some s else after_first sep s

-- `s[strings.LastIndex(s, sep)+1:]`, with `none` where the index is negative.
unfoldable pub after_last : Char → String → Option String
unfolding same_char
after_last sep String.[] = none
after_last sep (String.◌∷◌ c s) = elim (after_last sep s) [
  | some rest ↦ some rest
  | none ↦ if same_char c sep then some s else none
]

-- `%q` of a text without characters that are escaped.
abbrev pub quote : String → String
quote s = "\"" <> s <> "\""

translate : String → String → Char → Char
translate (String.◌∷◌ a from) (String.◌∷◌ b to) c = if same_char c a then b else translate from to c
translate _ _ c = c

map_chars : (Char → Char) → String → String
map_chars f String.[] = String.[]
map_chars f (String.◌∷◌ c s) = String.◌∷◌ (f c) (map_chars f s)

abbrev lowers : String
lowers = "abcdefghijklmnopqrstuvwxyz"

abbrev uppers : String
uppers = "ABCDEFGHIJKLMNOPQRSTUVWXYZ"

-- `strings.ToLower`
unfoldable pub to_lower : String → String
unfolding translate map_chars same_char
to_lower = map_chars (translate uppers lowers)

-- `strings.ToUpper`
unfoldable pub to_upper : String → String
unfolding translate map_chars same_char
to_upper = map_chars (translate lowers uppers)

digit : ℕ → String
digit zero = "0"
digit (suc zero) = "1"
digit (suc (suc zero)) = "2"
digit (suc (suc (suc zero))) = "3"
digit (suc (suc (suc (suc zero)))) = "4"
digit (suc (suc (suc (suc (suc zero))))) = "5"
digit (suc (suc (suc (suc (suc (suc zero)))))) = "6"
digit (suc (suc (suc (suc (suc (suc (suc zero))))))) = "7"
digit (suc (suc (suc (suc (suc (suc (suc (suc zero)))))))) = "8"
digit _ = "9"

itoa_onto : ℕ → ℕ → String → String
itoa_onto zero n out = out
itoa_onto (suc fuel) n out = elim (n / 10) [
  | zero ↦ digit n <> out
  | suc more ↦ itoa_onto fuel (suc more) (digit (n % 10) <> out)
]

-- `strconv.Itoa` of a number that is not negative. Each round divides by ten, so `n + 1` rounds do.
unfoldable pub itoa : ℕ → String
unfolding itoa_onto digit
itoa n = itoa_onto (suc n) n ""

pub cut_prefix-append : (p s : String) → cut_prefix (p <> s) p ≡ some s
unfolding cut_prefix
cut_prefix-append String.[] s = ap some (nil-append s)
cut_prefix-append (String.◌∷◌ c p) s =
    rw (cons-append, cut_prefix) (rw (same_char_refl c) (cut_prefix-append p s))

-- A prefix that was put in front is trimmed off again.
pub trim_prefix-append : (p s : String) → trim_prefix (p <> s) p ≡ s
unfolding trim_prefix
trim_prefix-append p s = rw (cut_prefix-append p s, trim_prefix)

lowered : to_lower "IO1" ≡ "io1"
unfolding to_lower
lowered = refl

printed : itoa 1203 ≡ "1203"
unfolding itoa
printed = refl

cut : cut_suffix "a-karpenter" "-karpenter" ≡ some "a"
unfolding cut_suffix string_eq
cut = refl

last : after_last "/" "aws:///us-east-1a/i-0123" ≡ some "i-0123"
unfolding after_last
last = refl

pub after_first-append :
    (sep : Char) (s t : String)
    → after_first sep s ≡ none
    → after_first sep (s <> String.◌∷◌ sep t) ≡ some t
unfolding after_first
after_first-append sep String.[] t free = rw nil-append (rw (same_char_refl sep))
after_first-append sep (String.◌∷◌ c s) t free = elim (Bool-cases (same_char c sep)) [
  | inl here ↦ absurd (ground arith)
  | inr later ↦
      rw (cons-append, after_first) (rw later (after_first-append sep s t (rw later at free)))
]

pub after_last-append :
    (sep : Char) (s t : String)
    → after_last sep t ≡ none
    → after_last sep (s <> String.◌∷◌ sep t) ≡ some t
unfolding after_last
after_last-append sep String.[] t free = rw nil-append (ground (arith, same_char_refl sep))
after_last-append sep (String.◌∷◌ c s) t free =
    rw (cons-append, after_last) (ground (arith, after_last-append sep s t free))

-- A text is not its own proper end.
longer : (s t : String) (c : Char) → String.◌∷◌ c (s <> t) ≢ t
longer s t c e = omega (arith, ap count e, length-cons c (s <> t), length-append s t)

-- A suffix that was put behind is cut off again.
pub cut_suffix-append : (s t : String) → cut_suffix (s <> t) t ≡ some s
unfolding cut_suffix
cut_suffix-append String.[] String.[] = ground arith
cut_suffix-append String.[] (String.◌∷◌ d t) = rw nil-append (ground arith)
cut_suffix-append (String.◌∷◌ c s) t =
    rw (cons-append, cut_suffix) (ground (arith, longer s t c, cut_suffix-append s t))

pub char-append : (c : Char) (s : String) → String.◌∷◌ c String.[] <> s ≡ String.◌∷◌ c s
char-append c s = cons-append c String.[] s ∙ ap (String.◌∷◌ c) (nil-append s)
