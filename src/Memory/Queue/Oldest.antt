-- ===== src/Memory/Queue/Oldest.antt =====
-- The entry that DeleteOldestOutboundQueueEntry of internal/store/memory/store.go takes.
use victoria.Prelude.{
  ◌+◌, ◌≤◌, String, Bool, true, false, ◌≡◌, ◌⊎◌, refl, subst, sym, ◌==◌, [], ◌∷◌, if◌then◌else◌,
  ltb, Bool-cases, inl, inr, arith,
}
use victoria.Exec.{ok}
use victoria.GoMap.{GoMap, remove, values, count}
use victoria.GoMap.Laws.{All}
use victoria.Domain.{Time, OutboundQueueEntry}
use victoria.Memory.{Store}
use victoria.Memory.Queue.{queued_for, oldest, delete_oldest_outbound_queue_entry}
use victoria.Memory.Queue.Bound.{Keyed, takes, keeps, passes, delete_oldest-ok}

-- the entry is in the map, at this key
abbrev pub Stands : String → OutboundQueueEntry → GoMap OutboundQueueEntry → Type 0
Stands k e [] = ⊥
Stands k e ((j, f) ∷ m) = ((j ≡ k) × (f ≡ e)) ⊎ Stands k e m

-- no entry of the channel was enqueued before this time
abbrev pub NoneBefore : String → String → Time → GoMap OutboundQueueEntry → Type 0
NoneBefore tenant_id channel at =
    All (λ _ e. queued_for tenant_id channel e ≡ true → at ≤ e.enqueued_at)

-- the entry at the identifier is the oldest one of the channel, and what is left is the rest
abbrev pub EvictsOldest :
    String → String → String → GoMap OutboundQueueEntry → GoMap OutboundQueueEntry → Type 0
EvictsOldest tenant_id channel id before after =
    ((entry : OutboundQueueEntry) × Stands id entry before
      × (queued_for tenant_id channel entry ≡ true)
      × NoneBefore tenant_id channel entry.enqueued_at before)
    × (after ≡ remove id before)

Stands-Keyed :
    (k : String) (e : OutboundQueueEntry) (m : GoMap OutboundQueueEntry)
    → Keyed m
    → Stands k e m
    → (k == "") ≡ false
Stands-Keyed k e [] h r = elim r [ ]
Stands-Keyed k e ((j, f) ∷ m) h (inl (same, q)) = subst (λ (i : String). (i == "") ≡ false) same h.0
Stands-Keyed k e ((j, f) ∷ m) h (inr r) = Stands-Keyed k e m h.1 r

module _ (tenant_id channel : String) where
  -- the loop from an identifier and a time: what it answers stands at the earliest time
  record Least (id : String) (at : Time) (m : GoMap OutboundQueueEntry) (found : String)
      : Type 0 where
    best : Time
    sooner : best ≤ at
    none_before : NoneBefore tenant_id channel best m
    which :
        ((found ≡ id) × (best ≡ at))
        ⊎ ((entry : OutboundQueueEntry) × Stands found entry m
            × (queued_for tenant_id channel entry ≡ true)
            × (entry.enqueued_at ≡ best))

  module _ (id : String) (at : Time) (k : String) (e : OutboundQueueEntry)
      (m : GoMap OutboundQueueEntry) where
    behind_other :
        queued_for tenant_id channel e ≡ false
        → (found : String) → Least id at m found
        → Least id at ((k, e) ∷ m) found
    behind_other h found l = record {
      best = l.best;
      sooner = l.sooner;
      none_before = ((λ q. cc (q, h)), l.none_before);
      which = elim l.which [ inl w ↦ inl w | inr (x, there, q, w) ↦ inr (x, inr there, q, w) ];
    }

    behind_later :
        at ≤ e.enqueued_at → (found : String) → Least id at m found → Least id at ((k, e) ∷ m) found
    behind_later h found l = record {
      best = l.best;
      sooner = l.sooner;
      none_before = ((λ q. let s = l.sooner in omega (arith, s, h)), l.none_before);
      which = elim l.which [ inl w ↦ inl w | inr (x, there, q, w) ↦ inr (x, inr there, q, w) ];
    }

    behind_taken :
        queued_for tenant_id channel e ≡ true
        → e.enqueued_at ≤ at
        → (found : String) → Least k e.enqueued_at m found
        → Least id at ((k, e) ∷ m) found
    behind_taken h o found l = record {
      best = l.best;
      sooner = let s = l.sooner in omega (arith, s, o);
      none_before = ((λ q. l.sooner), l.none_before);
      which = elim l.which [
        | inl (same, w) ↦ inr (e, inl (sym same, refl), h, sym w)
        | inr (x, there, q, w) ↦ inr (x, inr there, q, w)
      ];
    }

    best_entry :
        queued_for tenant_id channel e ≡ true
        → {found : String} → Least k e.enqueued_at m found
        → (x : OutboundQueueEntry) × Stands found x ((k, e) ∷ m)
          × (queued_for tenant_id channel x ≡ true)
          × NoneBefore tenant_id channel x.enqueued_at ((k, e) ∷ m)
    best_entry h l = elim l.which [
      | inl (same, w) ↦ (
        e,
        inl (sym same, refl),
        h,
        ((λ q. omega arith), subst (λ t. NoneBefore tenant_id channel t m) w l.none_before),
      )
      | inr (x, there, q, w) ↦ (
        x,
        inr there,
        q,
        (
          (λ _. subst (λ t. t ≤ e.enqueued_at) (sym w) l.sooner),
          subst (λ t. NoneBefore tenant_id channel t m) (sym w) l.none_before,
        ),
      )
    ]

  oldest-Least :
      (id : String) (at : Time) (m : GoMap OutboundQueueEntry)
      → (id == "") ≡ false
      → Keyed m
      → Least id at m (oldest tenant_id channel id at m)
  unfolding oldest
  oldest-Least id at [] n keyed = record {
    best = at;
    sooner = omega arith;
    none_before = tt;
    which = inl (refl, refl);
  }
  oldest-Least id at ((k, e) ∷ m) n keyed = elim (Bool-cases (queued_for tenant_id channel e)) [
    | inr h ↦
        subst (Least id at ((k, e) ∷ m)) (sym (passes tenant_id channel id k at e m h))
          (behind_other id at k e m h _ (oldest-Least id at m n keyed.1))
    | inl h ↦ elim (Bool-cases (ltb e.enqueued_at at)) [
      | inr o ↦
          subst (Least id at ((k, e) ∷ m))
            (sym (keeps tenant_id channel id k at e m h (rw (n, o) refl)))
            (behind_later id at k e m (ground arith) _ (oldest-Least id at m n keyed.1))
      | inl o ↦
          subst (Least id at ((k, e) ∷ m))
            (sym (takes tenant_id channel id k at e m h (rw (n, o) refl)))
            (behind_taken id at k e m h (ground arith) _
              (oldest-Least k e.enqueued_at m keyed.0 keyed.1))
    ]
  ]

  -- the first entry of the channel is taken whatever the time is
  first-Least :
      (at : Time) (m : GoMap OutboundQueueEntry)
      → 1 ≤ count (queued_for tenant_id channel) (values m)
      → Keyed m
      → (entry : OutboundQueueEntry) × Stands (oldest tenant_id channel "" at m) entry m
        × (queued_for tenant_id channel entry ≡ true)
        × NoneBefore tenant_id channel entry.enqueued_at m
  unfolding values count
  first-Least at [] d keyed = absurd (omega (arith, d))
  first-Least at ((k, e) ∷ m) d keyed = elim (Bool-cases (queued_for tenant_id channel e)) [
    | inr h ↦
        let (entry, there, queued, none_before) =
          first-Least at m
            (omega (
              arith,
              subst
                  (λ (b : Bool).
                    1 ≤ (if b then 1 else 0) + count (queued_for tenant_id channel) (values m))
                  h d,
            ))
            keyed.1 in
        subst
          (λ (found : String).
            (x : OutboundQueueEntry) × Stands found x ((k, e) ∷ m)
            × (queued_for tenant_id channel x ≡ true)
            × NoneBefore tenant_id channel x.enqueued_at ((k, e) ∷ m))
          (sym (passes tenant_id channel "" k at e m h))
          (entry, inr there, queued, ((λ q. cc (q, h)), none_before))
    | inl h ↦
        subst
          (λ (found : String).
            (x : OutboundQueueEntry) × Stands found x ((k, e) ∷ m)
            × (queued_for tenant_id channel x ≡ true)
            × NoneBefore tenant_id channel x.enqueued_at ((k, e) ∷ m))
          (sym (takes tenant_id channel "" k at e m h refl))
          (best_entry "" at k e m h (oldest-Least k e.enqueued_at m keyed.0 keyed.1))
  ]

  -- Where the channel has an entry in the queue and no entry stands at the empty identifier, the
  -- deletion answers the identifier of an entry of that channel before which no entry of the channel
  -- was enqueued, and leaves the queue without it.
  pub delete_oldest-EvictsOldest :
      (s : Store)
      → Keyed s.outbound_queue
      → 1 ≤ count (queued_for tenant_id channel) (values s.outbound_queue)
      → (id : String) × ((delete_oldest_outbound_queue_entry tenant_id channel s).0 ≡ ok id)
        × EvictsOldest tenant_id channel id s.outbound_queue
            (delete_oldest_outbound_queue_entry tenant_id channel s).1.outbound_queue
  unfolding delete_oldest_outbound_queue_entry
  delete_oldest-EvictsOldest s keyed d =
      let (entry, there, queued, none_before) = first-Least 0 s.outbound_queue d keyed in
      (
        oldest tenant_id channel "" 0 s.outbound_queue,
        delete_oldest-ok tenant_id channel s,
        (
          (entry, there, queued, none_before),
          rw (Stands-Keyed _ entry s.outbound_queue keyed there) refl,
        ),
      )
