-- ===== src/Intent/References.antt =====
-- The reference of a packet in a message: what the sender puts in is what the reader takes out.
use Prim.Native.Char.{Char, code}
use text.Mathlib.TextLemmas.{nil-append, cons-append, append-nil}
use victoria.Prelude.{String, ◌≡◌, refl, sym, ap, subst, ◌∙◌, arith, false, none, some, eqb, join}
use victoria.Text.{cons, after_prefix, after_first, before_char}
use victoria.Text.Laws.{after_prefix-join}
use victoria.Whatsapp.Messages.{with_tag}
use victoria.Intent.{extract_packet_reference}

-- the search goes on behind a character that does not begin the tag
after_first-cons :
    (c : Char) (s : String)
    → eqb (code c) b'[' ≡ false
    → after_first "[packet:" (cons c s) ≡ after_first "[packet:" s
unfolding after_first after_prefix
after_first-cons c s h = ground arith

after_first-here :
    (c : Char) (s rest : String)
    → after_prefix "[packet:" (cons c s) ≡ some rest
    → after_first "[packet:" (cons c s) ≡ some rest
unfolding after_first
after_first-here c s rest h = rw (h, after_first) refl

after_first-tag : (rest : String) → after_first "[packet:" (join "[packet:" rest) ≡ some rest
after_first-tag rest =
    let e : join "[packet:" rest ≡ cons "[" (join "packet:" rest) =
      cons-append "[" "packet:" rest in
    ap (after_first "[packet:") e
    ∙ after_first-here "[" (join "packet:" rest) rest
        (ap (after_prefix "[packet:") (sym e) ∙ after_prefix-join "[packet:" rest)

line_break :
    (rest : String) → join "\n\n[packet:" rest ≡ cons "\n" (cons "\n" (join "[packet:" rest))
line_break rest =
    cons-append "\n" "\n[packet:" rest ∙ ap (cons "\n") (cons-append "\n" "[packet:" rest)

-- the first tag is found where no character before it begins one
after_first-join :
    (body rest : String)
    → before_char "[" body ≡ none
    → after_first "[packet:" (join body (join "\n\n[packet:" rest)) ≡ some rest
unfolding before_char
after_first-join String.[] rest h =
    rw (nil-append (join "\n\n[packet:" rest), line_break rest)
      (after_first-cons "\n" _ refl ∙ (after_first-cons "\n" _ refl ∙ after_first-tag rest))
after_first-join (String.◌∷◌ c body) rest h =
    rw (cons-append c body (join "\n\n[packet:" rest))
      (after_first-cons c _ (ground arith) ∙ after_first-join body rest (ground arith))

before_char-join :
    (id rest : String)
    → before_char "]" id ≡ none
    → before_char "]" (join id (join "]" rest)) ≡ some id
unfolding before_char
before_char-join String.[] rest h = rw (nil-append (join "]" rest), cons-append "]" "" rest) refl
before_char-join (String.◌∷◌ c id) rest h =
    rw (cons-append c id (join "]" rest)) (ground (arith, before_char-join id rest))

-- The operator's message that quotes the list message of a packet names that packet, where the body
-- has no opening bracket and the identifier no closing one.
pub extract_packet_reference-with_tag :
    (body id : String)
    → before_char "[" body ≡ none
    → before_char "]" id ≡ none
    → extract_packet_reference (with_tag body id) ≡ id
unfolding with_tag extract_packet_reference
extract_packet_reference-with_tag body id hb hi =
    rw (after_first-join body (join id "]") hb, extract_packet_reference)
      (rw
        (
          subst (λ t. before_char "]" (join id t) ≡ some id) (append-nil "]")
              (before_char-join id "" hi),
          extract_packet_reference,
        )
        refl)
