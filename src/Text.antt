-- ===== src/Text.antt =====
-- What the program uses of Go's `strings` and `fmt`. A text is the list of its characters. Letters
-- beyond ASCII have no case here: the program looks for ASCII words only.
pub mod Laws
pub mod Digits
use Prim.Native.Nat.{◌/◌, ◌%◌}
use Prim.Native.Char.{Char, code}
use Prim.Native.String.{char_at}
use victoria.Prelude.{
  ℕ, zero, suc, ◌-◌, String, Bool, true, false, Option, none, some, List, [], ◌∷◌, ◌&&◌, ◌||◌, ◌==◌,
  if◌then◌else◌, ltb, leb, eqb, join, ◌≡◌, refl,
}

abbrev pub cons : Char → String → String
cons = String.◌∷◌

-- unicode.IsSpace
is_space : Char → Bool
is_space c =
    (leb 9 (code c) && leb (code c) 13)
    || (eqb (code c) 32
        || (eqb (code c) 0x85
            || (eqb (code c) 0xa0
                || (eqb (code c) 0x1680
                    || ((leb 0x2000 (code c) && leb (code c) 0x200a)
                        || (eqb (code c) 0x2028
                            || (eqb (code c) 0x2029
                                || (eqb (code c) 0x202f
                                    || (eqb (code c) 0x205f || eqb (code c) 0x3000)))))))))

pub trim_left : (Char → Bool) → String → String
trim_left p String.[] = ""
trim_left p (String.◌∷◌ c s) = let rest = trim_left p s in if p c then rest else cons c s

trim_right : (Char → Bool) → String → String
trim_right p String.[] = ""
trim_right p (String.◌∷◌ c s) =
    let rest = trim_right p s in if p c && rest == "" then "" else cons c rest

-- strings.TrimSpace
unfoldable pub trim_space : String → String
unfolding is_space trim_left trim_right
trim_space s = trim_right is_space (trim_left is_space s)

-- whether the character is one of the cutset
pub one_of : String → Char → Bool
one_of String.[] c = false
one_of (String.◌∷◌ d s) c = eqb (code d) (code c) || one_of s c

-- strings.Trim
unfoldable pub trim : String → String → String
unfolding one_of trim_left trim_right
trim s cutset = trim_right (one_of cutset) (trim_left (one_of cutset) s)

lower_char : Char → Char
lower_char c =
    if leb 65 (code c) && leb (code c) 90
    then char_at "abcdefghijklmnopqrstuvwxyz" (code c - 65)
    else c

-- strings.ToLower
unfoldable pub to_lower : String → String
unfolding lower_char
to_lower String.[] = ""
to_lower (String.◌∷◌ c s) = cons (lower_char c) (to_lower s)

-- what follows the prefix, if the text begins with it
unfoldable pub after_prefix : String → String → Option String
after_prefix String.[] s = some s
after_prefix (String.◌∷◌ c t) String.[] = none
after_prefix (String.◌∷◌ c t) (String.◌∷◌ d s) =
    let rest = after_prefix t s in if eqb (code c) (code d) then rest else none

abbrev is_some {ℓ} : {A : Type ℓ} → Option A → Bool
is_some none = false
is_some (some a) = true

-- strings.HasPrefix(s, t)
unfoldable pub has_prefix : String → String → Bool
unfolding after_prefix
has_prefix s t = is_some (after_prefix t s)

-- what follows the first occurrence of the tag: s[strings.Index(s, tag)+len(tag):]
unfoldable pub after_first : String → String → Option String
unfolding after_prefix
after_first tag String.[] = after_prefix tag ""
after_first tag (String.◌∷◌ c s) =
    let later = after_first tag s in
    elim (after_prefix tag (cons c s)) [ some rest ↦ some rest | none ↦ later ]

-- strings.Contains(s, t)
unfoldable pub contains_text : String → String → Bool
unfolding after_first
contains_text s t = is_some (after_first t s)

-- the text before the first such character: s[:strings.IndexByte(s, c)]
unfoldable pub before_char : Char → String → Option String
before_char d String.[] = none
before_char d (String.◌∷◌ c s) =
    let rest = before_char d s in
    if eqb (code c) (code d) then some "" else elim rest [ none ↦ none | some t ↦ some (cons c t) ]

-- s[n:], in characters
unfoldable pub drop_chars : ℕ → String → String
drop_chars zero s = s
drop_chars (suc n) String.[] = ""
drop_chars (suc n) (String.◌∷◌ c s) = drop_chars n s

-- puts a character in front of the first word, where the text goes on with a word
abbrev extend : Char → List String → List String
extend c [] = cons c "" ∷ []
extend c (w ∷ ws) = cons c w ∷ ws

starts_with_space : String → Bool
unfolding is_space
starts_with_space String.[] = true
starts_with_space (String.◌∷◌ c s) = is_space c

-- strings.Fields
pub fields : String → List String
unfolding is_space starts_with_space
fields String.[] = []
fields (String.◌∷◌ c s) =
    let rest = fields s in
    if is_space c then rest else if starts_with_space s then cons c "" ∷ rest else extend c rest

-- the characters' codes: the bytes, if the text is ASCII
unfoldable pub codes : String → List ℕ
codes String.[] = []
codes (String.◌∷◌ c s) = code c ∷ codes s

-- strings.Join
unfoldable pub join_with : String → List String → String
join_with sep [] = ""
join_with sep (s ∷ []) = s
join_with sep (s ∷ t ∷ ts) = join s (join sep (join_with sep (t ∷ ts)))

unfoldable pub decimal_within : ℕ → ℕ → String
decimal_within zero n = ""
decimal_within (suc fuel) n =
    let more = decimal_within fuel (n / 10) in
    let last = cons (char_at "0123456789" (n % 10)) "" in if ltb n 10 then last else join more last

-- fmt's %d; a number has no more digits than the fuel given
unfoldable pub decimal : ℕ → String
unfolding decimal_within
decimal n = decimal_within (suc n) n

trim_test : trim_space "  a b\t" ≡ "a b"
unfolding trim_space
trim_test = refl

fields_test : fields " one  two" ≡ "one" ∷ "two" ∷ []
unfolding fields
fields_test = refl

decimal_test : decimal 1203 ≡ "1203"
unfolding decimal
decimal_test = refl

lower_test : to_lower "No GST!" ≡ "no gst!"
unfolding to_lower
lower_test = refl

contains_test : contains_text "please hold on" "hold" ≡ true
unfolding contains_text
contains_test = refl
