-- ===== src/Whatsapp/Echoes/Recent.antt =====
-- The ring with its set is the window of the identifiers added last.
use native.Mathlib.Nat.{mod-eq_of_lt, mod_self}
use mathlib.Core.List.{append-nil}
use victoria.Prelude.{
  ℕ, zero, suc, ◌+◌, ◌<◌, ◌≡◌, refl, sym, ap, subst, ◌∙◌, arith, String, false, some, List, [], ◌∷◌,
  ◌++◌, ◌==◌, ◌&&◌, not, if◌then◌else◌, eq_iff, length, length-append, Bool-cases, inl, inr,
}
use victoria.GoMap.{GoMap, get, put, remove}
use victoria.GoMap.Laws.{get-put, get-remove}
use victoria.App.Helpers.{contains}
use victoria.Whatsapp.Echoes.Windows.{
  Distinct, Distinct-init, Distinct-replicate, contains-append, contains-init, contains-replicate,
  get_elem?-append, init, init-append, length-replicate, remember, remember_all, rev_onto,
  rev_onto-append, rev_onto-last, rev_onto-replicate, rev_onto-replicate_cons, set-append,
}
use victoria.Whatsapp.Echoes.{
  SentIds, replicate, get_elem?, set, new_sent_ids, is_there, has, overwrite, add, add_all,
}

-- the ring, cut where the next identifier goes, and the set read as the window
record Reads (s : SentIds) (window : List String) : Type 0 where
  newer : List String
  oldest : String
  older : List String
  ring_eq : s.ring ≡ newer ++ oldest ∷ older
  idx_eq : s.idx ≡ length newer
  limit_eq : s.limit ≡ length newer + suc (length older)
  window_eq : window ≡ rev_onto newer (rev_onto older []) ++ oldest ∷ []
  set_eq : (id : String) → id == "" ≡ false → is_there (get id s.set_of) ≡ contains window id
  distinct : Distinct window

-- the set behind an addition
set_of-add :
    (m : GoMap (Unit {0})) (ws : List String) (o id j : String)
    → ((k : String) → k == "" ≡ false → is_there (get k m) ≡ contains (ws ++ o ∷ []) k)
    → Distinct (ws ++ o ∷ [])
    → j == "" ≡ false
    → is_there (get j (put id tt (if o == "" then m else remove o m))) ≡ contains (id ∷ ws) j
unfolding contains
set_of-add m ws o id j agree d h = elim (Bool-cases (o == "")) [
  | inl e ↦
      ground
        (arith, e, get-put id j tt m, agree j h, contains-append ws o j, eq_iff o j, eq_iff o "")
  | inr e ↦ ground (
    arith,
    e,
    get-put id j tt (remove o m),
    get-remove o j m,
    agree j h,
    contains-append ws o j,
    eq_iff o j,
    contains-init ws o d e,
  )
]

ring_after :
    (s : SentIds) (newer older : List String) (o id : String)
    → s.ring ≡ newer ++ o ∷ older
    → s.idx ≡ length newer
    → set s.ring s.idx id ≡ (newer ++ id ∷ []) ++ older
ring_after s newer older o id r i = rw (r, i) (set-append newer older o id)

module _ (id : String) (s : SentIds) (ws : List String) (o : String)
    (agree : (k : String) → k == "" ≡ false → is_there (get k s.set_of) ≡ contains (ws ++ o ∷ []) k)
    (d : Distinct (ws ++ o ∷ [])) (named : id == "" ≡ false)
    (new : contains (ws ++ o ∷ []) id ≡ false) where
  set_agrees :
      (k : String)
      → k == "" ≡ false
      → is_there (get k (overwrite id o s).set_of) ≡ contains (id ∷ ws) k
  unfolding overwrite
  set_agrees k h = set_of-add s.set_of ws o id k agree d h

  stays-Distinct : Distinct (id ∷ ws)
  stays-Distinct = (ground (arith, contains-append ws o id), Distinct-init ws o d)

  overwrite-Reads :
      (newer older : List String)
      → s.ring ≡ newer ++ o ∷ older
      → s.idx ≡ length newer
      → s.limit ≡ length newer + suc (length older)
      → ws ≡ rev_onto newer (rev_onto older [])
      → Reads (overwrite id o s) (id ∷ ws)
  unfolding overwrite rev_onto
  overwrite-Reads newer (y ∷ ys) r i l w = record {
    newer = newer ++ id ∷ [];
    oldest = y;
    older = ys;
    ring_eq = ring_after s newer (y ∷ ys) o id r i;
    idx_eq = mod-eq_of_lt (omega (arith, i, l)) ∙ omega (arith, i, length-append newer (id ∷ []));
    limit_eq = omega (arith, l, length-append newer (id ∷ []));
    window_eq =
        rw (w, rev_onto-append ys [] (y ∷ []), rev_onto-append newer (rev_onto ys []) (y ∷ []))
          (rw (rev_onto-last newer id (rev_onto ys [])) refl);
    set_eq = set_agrees;
    distinct = stays-Distinct;
  }
  overwrite-Reads [] [] r i l w = record {
    newer = [];
    oldest = id;
    older = [];
    ring_eq = ring_after s [] [] o id r i;
    idx_eq = (let e : s.idx + 1 ≡ s.limit = omega (arith, i, l) in rw e (mod_self s.limit));
    limit_eq = l;
    window_eq = rw w refl;
    set_eq = set_agrees;
    distinct = stays-Distinct;
  }
  overwrite-Reads (z ∷ zs) [] r i l w = record {
    newer = [];
    oldest = z;
    older = zs ++ id ∷ [];
    ring_eq = ring_after s (z ∷ zs) [] o id r i ∙ append-nil (z ∷ zs ++ id ∷ []);
    idx_eq = (let e : s.idx + 1 ≡ s.limit = omega (arith, i, l) in rw e (mod_self s.limit));
    limit_eq = omega (arith, l, length-append zs (id ∷ []));
    window_eq = rw (w, rev_onto-append zs [] (z ∷ []), rev_onto-last zs id []) refl;
    set_eq = set_agrees;
    distinct = stays-Distinct;
  }

new_sent_ids-Reads : (n : ℕ) → Reads (new_sent_ids (suc n)) (replicate (suc n) "")
unfolding new_sent_ids replicate rev_onto get
new_sent_ids-Reads n = record {
  newer = [];
  oldest = "";
  older = replicate n "";
  ring_eq = refl;
  idx_eq = refl;
  limit_eq = omega (arith, length-replicate n);
  window_eq =
      sym (rev_onto-replicate_cons n [] ∙ ap (λ xs. "" ∷ xs) (rev_onto-replicate n))
      ∙ rev_onto-append (replicate n "") [] ("" ∷ []);
  set_eq = λ id h. sym (contains-replicate (suc n) id h);
  distinct = Distinct-replicate (suc n);
}

read_oldest :
    (s : SentIds) (newer older : List String) (o : String)
    → s.ring ≡ newer ++ o ∷ older
    → s.idx ≡ length newer
    → get_elem? s.ring s.idx ≡ some o
read_oldest s newer older o r i = rw (r, i) (get_elem?-append newer older o)

-- an addition that finds the identifier missing
add-overwrite :
    (id o : String) (s : SentIds)
    → id == "" ≡ false
    → is_there (get id s.set_of) ≡ false
    → get_elem? s.ring s.idx ≡ some o
    → add id s ≡ some (overwrite id o s)
unfolding add
add-overwrite id o s h f e = rw (h, f) (rw (e, add) refl)

add_new :
    (id : String) (s : SentIds) (window : List String)
    → Reads s window
    → id == "" ≡ false
    → contains window id ≡ false
    → (s' : SentIds) × (add id s ≡ some s') × Reads s' (id ∷ init window)
add_new id s window r h new =
    let ws = rev_onto r.newer (rev_onto r.older []) in
    (
      overwrite id r.oldest s,
      add-overwrite id r.oldest s h (r.set_eq id h ∙ new)
          (read_oldest s r.newer r.older r.oldest r.ring_eq r.idx_eq),
      subst (λ w. Reads (overwrite id r.oldest s) (id ∷ w))
          (sym (ap init r.window_eq ∙ init-append ws r.oldest))
          (overwrite-Reads id s ws r.oldest
            (λ k hk. r.set_eq k hk ∙ ap (λ w. contains w k) r.window_eq)
            (subst Distinct r.window_eq r.distinct) h
            (ap (λ w. contains w id) (sym r.window_eq) ∙ new) r.newer r.older r.ring_eq r.idx_eq
            r.limit_eq refl),
    )

add-Reads :
    (id : String) (s : SentIds) (window : List String)
    → Reads s window
    → (s' : SentIds) × (add id s ≡ some s') × Reads s' (remember id window)
unfolding add remember
add-Reads id s window r = elim (Bool-cases (id == "")) [
  | inl e ↦ (s, rw e refl, rw e r)
  | inr e ↦ elim (Bool-cases (contains window id)) [
    | inl f ↦ (s, rw (e, r.set_eq id e, f) refl, rw (e, f) r)
    | inr f ↦ let (s', added, reads) = add_new id s window r e f in (s', added, rw (e, f) reads)
  ]
]

add_all-Reads :
    (ids : List String) (s : SentIds) (window : List String)
    → Reads s window
    → (s' : SentIds) × (add_all ids s ≡ some s') × Reads s' (remember_all ids window)
unfolding add_all remember_all
add_all-Reads [] s window r = (s, refl, r)
add_all-Reads (id ∷ ids) s window r =
    let (t, added, reads) = add-Reads id s window r in
    let (u, rest, reads') = add_all-Reads ids t (remember id window) reads in
    (u, rw (added, add_all) rest, reads')

-- From an empty ring with room for at least one identifier, any sequence of additions succeeds
-- (no index is out of range), and `has` then answers for every identifier that is not empty whether
-- it is among the last distinct ones added, as many as the limit says: the new ones are kept in
-- front of a window whose oldest entry leaves, and one that is still there is not added again.
pub add_all-remembers :
    (limit : ℕ) (ids : List String)
    → 0 < limit
    → (s : SentIds) × (add_all ids (new_sent_ids limit) ≡ some s)
      × ((id : String)
          → has id s ≡ (not (id == "") && contains (remember_all ids (replicate limit "")) id))
unfolding has
add_all-remembers zero ids h = absurd (omega arith)
add_all-remembers (suc n) ids h =
    let (s, added, r) = add_all-Reads ids _ _ (new_sent_ids-Reads n) in
    (
      s,
      added,
      λ id. elim (Bool-cases (id == "")) [ inl e ↦ rw e refl | inr e ↦ rw e (r.set_eq id e) ],
    )
