-- ===== src/Whatsapp/Replies.antt =====
-- ButtonForReply and atoi of internal/channel/whatsapp/adapter.go: a reply as a number or in words.
pub mod Numbers
use Prim.Native.Char.{Char, code}
use Prim.Native.Nat.{◌%◌, ◌^◌}
use victoria.Prelude.{
  ℕ, zero, suc, ◌+◌, ◌*◌, ◌-◌, String, Bool, false, Option, none, some, List, [], ◌∷◌, ◌==◌, ◌&&◌,
  ◌||◌, if◌then◌else◌, leb, ltb, length,
}
use victoria.Text.{trim_space, to_lower, has_prefix}
use victoria.Domain.{ButtonSpec}

-- an int is 64 bits wide: what the sum and the product leave of their result, as a bit pattern
abbrev pub int_mod : ℕ
int_mod = 2 ^ 64

abbrev pub digit : Char → Bool
digit c = leb b'0' (code c) && leb (code c) b'9'

-- the loop of atoi, from the value read so far; none is the error
pub atoi_from : ℕ → String → Option ℕ
atoi_from n String.[] = some n
atoi_from n (String.◌∷◌ c s) =
    let rest = atoi_from ((n * 10 + (code c - b'0')) % int_mod) s in if digit c then rest else none

pub atoi : String → Option ℕ
unfolding atoi_from
atoi s = atoi_from 0 s

-- buttons[i].ID
pub button_at : List ButtonSpec → ℕ → String
button_at [] i = ""
button_at (b ∷ bs) zero = b.id
button_at (b ∷ bs) (suc i) = button_at bs i

-- strings.EqualFold, on ASCII
abbrev equal_fold : String → String → Bool
equal_fold s t = to_lower s == to_lower t

-- the loop over the buttons
button_named : String → List ButtonSpec → String
button_named clean [] = ""
button_named clean (b ∷ bs) =
    let later = button_named clean bs in
    if equal_fold b.id clean || equal_fold b.label clean
    then b.id
    else if has_prefix (to_lower clean) (to_lower b.label)
    then b.id
    else later

-- `err == nil && n >= 1 && n <= len(buttons)`, where a pattern from 2^63 on is a negative number
pub in_range : Option ℕ → ℕ → Bool
in_range none count = false
in_range (some n) count = leb 1 n && (ltb n (2 ^ 63) && leb n count)

abbrev value_of : Option ℕ → ℕ
value_of none = 0
value_of (some n) = n

pub button_for_reply : String → List ButtonSpec → String
unfolding atoi button_at button_named in_range
button_for_reply reply buttons =
    let clean = trim_space reply in
    if clean == ""
    then ""
    else if in_range (atoi clean) (length buttons)
    then button_at buttons (value_of (atoi clean) - 1)
    else button_named clean buttons
