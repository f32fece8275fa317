-- ===== src/Text/Laws.antt =====
-- Laws of the functions on texts: prefixes, the search for a tag, and trimming.
use text.Mathlib.TextEquality.{Char-path}
use text.Mathlib.TextLemmas.{nil-append, cons-append}
use victoria.Prelude.{String, ◌≡◌, arith, some, join}
use victoria.Text.{after_prefix}

-- the text is the prefix and what follows it
pub after_prefix-join : (p s : String) → after_prefix p (join p s) ≡ some s
unfolding after_prefix
after_prefix-join String.[] s = rw (nil-append s)
after_prefix-join (String.◌∷◌ c p) s =
    rw (cons-append c p s) (ground (arith, after_prefix-join p s))

pub after_prefix-eq : (p s r : String) → after_prefix p s ≡ some r → s ≡ join p r
unfolding after_prefix
after_prefix-eq String.[] s r e = cc (nil-append r)
after_prefix-eq (String.◌∷◌ c p) String.[] r e = cc
after_prefix-eq (String.◌∷◌ c p) (String.◌∷◌ d s) r e =
    rw (cons-append c p r) (ground (arith, Char-path c d, after_prefix-eq p s r))
