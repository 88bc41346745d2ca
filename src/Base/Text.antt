-- ===== src/Base/Text.antt =====
-- The string methods that the code calls, on the native text. `units` is JavaScript's `length`.
use Prim.Native.Nat.{◌/◌, ◌%◌, ℕ, zero, suc, ◌+◌}
use Prim.Native.Char.{code}
use Prim.Native.String
use Prim.Native.String.append
use Prim.Native.String.{String}
use mathlib.Core.Bool.{Bool, true, false, ◌&&◌, ◌||◌}
use mathlib.Core.Option
use mathlib.Core.Option.{Option, none, some}
use mathlib.Core.List.{List, [], ◌∷◌}
use mathlib.Core.Path.{◌≡◌, refl}
use mathlib.Core.Logic.{inl, inr}
use native.Mathlib.Omega.{arith}
use janus_core.Base.Tests.{ltb, Bool-cases, if◌then◌else◌, leb, nat_eq}
use janus_core.Base.Lists.{any}

-- The white space and line terminators that `trim` removes.
unfoldable pub is_space : ℕ → Bool
is_space c =
    (leb 9 c && leb c 13)
    || nat_eq c 32
    || nat_eq c 160
    || nat_eq c 0x1680
    || (leb 0x2000 c && leb c 0x200a)
    || nat_eq c 0x2028
    || nat_eq c 0x2029
    || nat_eq c 0x202f
    || nat_eq c 0x205f
    || nat_eq c 0x3000
    || nat_eq c 0xfeff

-- `!s`
abbrev pub is_nil : String → Bool
is_nil String.[] = true
is_nil (String.◌∷◌ c s) = false

-- `!s.trim()`
unfoldable pub is_blank : String → Bool
unfolding is_space
is_blank String.[] = true
is_blank (String.◌∷◌ c s) = is_space (code c) && is_blank s

pub is_blank-append : (s t : String) → is_blank s ≡ false → is_blank (String.◌++◌ s t) ≡ false
unfolding is_blank
is_blank-append String.[] t h = cc
is_blank-append (String.◌∷◌ c s) t h = rw (append.cons c s t) (ground (arith, is_blank-append s t))

trim_start : String → String
trim_start String.[] = String.[]
trim_start (String.◌∷◌ c s) =
    let rest = trim_start s in if is_space (code c) then rest else String.◌∷◌ c s

trim_end : String → String
trim_end String.[] = String.[]
trim_end (String.◌∷◌ c s) =
    let rest = trim_end s in
    if is_space (code c) && is_nil rest then String.[] else String.◌∷◌ c rest

unfoldable pub trim : String → String
unfolding is_space trim_start trim_end
trim s = trim_end (trim_start s)

trim_end-trim_end : (s : String) → trim_end (trim_end s) ≡ trim_end s
unfolding trim_end
trim_end-trim_end String.[] = refl
trim_end-trim_end (String.◌∷◌ c s) = elim (Bool-cases (is_space (code c) && is_nil (trim_end s))) [
  | inl cut ↦ rw cut
  | inr kept ↦ rw kept (rw (trim_end-trim_end s) (rw kept))
]

-- No white space at the front.
abbrev HasNoLead : String → Type 0
HasNoLead String.[] = Unit
HasNoLead (String.◌∷◌ c s) = is_space (code c) ≡ false

trim_start-HasNoLead : (s : String) → HasNoLead (trim_start s)
unfolding trim_start
trim_start-HasNoLead String.[] = tt
trim_start-HasNoLead (String.◌∷◌ c s) = elim (Bool-cases (is_space (code c))) [
  | inl white ↦ rw white (trim_start-HasNoLead s)
  | inr black ↦ rw black black
]

trim_end-HasNoLead : (s : String) → HasNoLead s → HasNoLead (trim_end s)
unfolding trim_end
trim_end-HasNoLead String.[] h = tt
trim_end-HasNoLead (String.◌∷◌ c s) h = rw h h

trim_start_id : (s : String) → HasNoLead s → trim_start s ≡ s
unfolding trim_start
trim_start_id String.[] h = refl
trim_start_id (String.◌∷◌ c s) h = rw h

pub trim-trim : (s : String) → trim (trim s) ≡ trim s
unfolding trim
trim-trim s =
    let once = trim_end-HasNoLead (trim_start s) (trim_start-HasNoLead s) in
    rw (trim_start_id (trim_end (trim_start s)) once) (trim_end-trim_end (trim_start s))

unfoldable pub units : String → ℕ
units String.[] = 0
units (String.◌∷◌ c s) = (if leb 0x10000 (code c) then 2 else 1) + units s

-- `s.slice(0, n)`; a surrogate pair that the cut would halve is left out whole.
unfoldable pub slice_to : ℕ → String → String
slice_to zero s = String.[]
slice_to (suc zero) String.[] = String.[]
slice_to (suc zero) (String.◌∷◌ c s) =
    if leb 0x10000 (code c) then String.[] else String.◌∷◌ c String.[]
slice_to (suc (suc n)) String.[] = String.[]
slice_to (suc (suc n)) (String.◌∷◌ c s) =
    let wide = slice_to n s in
    let narrow = slice_to (suc n) s in
    if leb 0x10000 (code c) then String.◌∷◌ c wide else String.◌∷◌ c narrow

-- `s.endsWith('*')`, with `s.slice(0, -1)` where it does.
unfoldable pub unstar : String → Option String
unstar String.[] = none
unstar (String.◌∷◌ c s) =
    let rest = unstar s in
    if is_nil s
    then if nat_eq (code c) 42 then some String.[] else none
    else Option.map (String.◌∷◌ c) rest

-- The words of an operation name such as `gmail.draft.send`: what stands between `.` and `_`,
-- in lower case, as lists of code points.
lower : ℕ → ℕ
lower c = if leb b'A' c && leb c b'Z' then c + 32 else c

is_separator : ℕ → Bool
is_separator c = nat_eq c b'.' || nat_eq c b'_'

abbrev push_first : ℕ → List (List ℕ) → List (List ℕ)
push_first c [] = (c ∷ []) ∷ []
push_first c (w ∷ ws) = (c ∷ w) ∷ ws

unfoldable pub words : String → List (List ℕ)
unfolding lower is_separator
words String.[] = [] ∷ []
words (String.◌∷◌ c s) =
    let rest = words s in
    if is_separator (code c) then [] ∷ rest else push_first (lower (code c)) rest

abbrev pub codes : String → List ℕ
codes String.[] = []
codes (String.◌∷◌ c s) = code c ∷ codes s

abbrev pub codes_eq : List ℕ → List ℕ → Bool
codes_eq [] [] = true
codes_eq (a ∷ as') (b ∷ bs) = nat_eq a b && codes_eq as' bs
codes_eq _ _ = false

-- `/(^|[._])(w₁|w₂|…)([._]|$)/i.test(s)`: some word of `s` is in the list.
unfoldable pub names_word : List String → String → Bool
unfolding words
names_word verbs s = any (λ w. any (λ v. codes_eq w (codes v)) verbs) (words s)

is_hex : ℕ → Bool
is_hex c = (leb b'0' c && leb c b'9') || (leb b'a' c && leb c b'f') || (leb b'A' c && leb c b'F')

all_hex : String → Bool
all_hex String.[] = true
all_hex (String.◌∷◌ c s) = is_hex (code c) && all_hex s

-- `/^[a-f0-9]{64}$/i.test(s)`
unfoldable pub is_digest : String → Bool
unfolding is_hex all_hex units
is_digest s = nat_eq (units s) 64 && all_hex s

digit : ℕ → String
digit n =
    if nat_eq n 0
    then "0"
    else if nat_eq n 1
    then "1"
    else if nat_eq n 2
    then "2"
    else if nat_eq n 3
    then "3"
    else if nat_eq n 4
    then "4"
    else if nat_eq n 5
    then "5"
    else if nat_eq n 6
    then "6"
    else if nat_eq n 7
    then "7"
    else if nat_eq n 8
    then "8"
    else "9"

decimal_from : ℕ → ℕ → String
decimal_from zero n = digit (n % 10)
decimal_from (suc fuel) n =
    let rest = decimal_from fuel (n / 10) in
    if ltb n 10 then digit n else String.◌++◌ rest (digit (n % 10))

-- `${n}`; a number has fewer digits than its value says.
unfoldable pub decimal : ℕ → String
unfolding digit decimal_from
decimal n = decimal_from n n
