-- ===== src/Whatsapp/Echoes/Added.antt =====
-- What was added is there.
use victoria.Prelude.{
  ◌≡◌, refl, arith, String, true, false, some, ◌==◌, Bool-cases, Option-cases, inl, inr,
}
use victoria.GoMap.{get}
use victoria.GoMap.Laws.{get-put_self}
use victoria.Whatsapp.Echoes.{SentIds, get_elem?, is_there, has, overwrite, add}

has-overwrite : (id o : String) (s : SentIds) → id == "" ≡ false → has id (overwrite id o s) ≡ true
unfolding has overwrite
has-overwrite id o s e = rw (e, get-put_self) refl

pub has-add : (id : String) (s t : SentIds) → id == "" ≡ false → add id s ≡ some t → has id t ≡ true
unfolding add has
has-add id s t e h = elim (Bool-cases (is_there (get id s.set_of))) [
  | inl f ↦ ground (arith, e, f)
  | inr f ↦ elim (Option-cases (get_elem? s.ring s.idx)) [
    | inl g ↦ absurd (ground (arith, e, f, g))
    | inr (o, g) ↦ ground (arith, e, f, g, has-overwrite id o s e)
  ]
]
