-- ===== src/Memory/Queue/Bound.antt =====
-- DeleteOldestOutboundQueueEntry of internal/store/memory/store.go: the loop, and what a deletion takes.
use victoria.Prelude.{
  ℕ, suc, ◌+◌, ◌≤◌, String, Bool, true, false, ◌≡◌, ◌⊎◌, refl, ap, subst, sym, ◌==◌, ◌||◌, eq_iff,
  [], ◌∷◌, if◌then◌else◌, ltb, Bool-cases, inl, inr, arith,
}
use victoria.Exec.{ok}
use victoria.GoMap.{GoMap, remove, values, count}
use victoria.GoMap.Laws.{All, All-remove, count-remove}
use victoria.Domain.{Time, OutboundQueueEntry}
use victoria.Memory.{Store}
use victoria.Memory.Queue.{queued_for, oldest, delete_oldest_outbound_queue_entry}

-- no entry stands at the empty identifier
abbrev pub Keyed : GoMap OutboundQueueEntry → Type 0
Keyed = All (λ (id : String) (_ : OutboundQueueEntry). (id == "") ≡ false)

module _ (tenant_id channel : String) where
  -- an entry of the channel stands at this identifier
  Holds : String → GoMap OutboundQueueEntry → Type 0
  Holds k [] = ⊥
  Holds k ((id, entry) ∷ m) = ((id ≡ k) × (queued_for tenant_id channel entry ≡ true)) ⊎ Holds k m

  depth : GoMap OutboundQueueEntry → ℕ
  depth m = count (queued_for tenant_id channel) (values m)

  remove-Holds :
      (k : String) (m : GoMap OutboundQueueEntry) → Holds k m → suc (depth (remove k m)) ≤ depth m
  unfolding Holds depth remove values count
  remove-Holds k [] h = elim h [ ]
  remove-Holds k ((id, entry) ∷ m) (inl (e, h)) =
      rw h (rw ((eq_iff id k).1 e) (omega (arith, count-remove (queued_for tenant_id channel) k m)))
  remove-Holds k ((id, entry) ∷ m) (inr r) = ground (arith, remove-Holds k m r)

  -- the three ways in which an entry is met
  pub takes :
      (id k : String) (at : Time) (entry : OutboundQueueEntry) (m : GoMap OutboundQueueEntry)
      → queued_for tenant_id channel entry ≡ true
      → (id == "" || ltb entry.enqueued_at at) ≡ true
      → oldest tenant_id channel id at ((k, entry) ∷ m)
        ≡ oldest tenant_id channel k entry.enqueued_at m
  unfolding oldest
  takes id k at entry m h o = rw h (rw o refl)

  pub keeps :
      (id k : String) (at : Time) (entry : OutboundQueueEntry) (m : GoMap OutboundQueueEntry)
      → queued_for tenant_id channel entry ≡ true
      → (id == "" || ltb entry.enqueued_at at) ≡ false
      → oldest tenant_id channel id at ((k, entry) ∷ m) ≡ oldest tenant_id channel id at m
  unfolding oldest
  keeps id k at entry m h o = rw h (rw o refl)

  pub passes :
      (id k : String) (at : Time) (entry : OutboundQueueEntry) (m : GoMap OutboundQueueEntry)
      → queued_for tenant_id channel entry ≡ false
      → oldest tenant_id channel id at ((k, entry) ∷ m) ≡ oldest tenant_id channel id at m
  unfolding oldest
  passes id k at entry m h = rw h refl

  FoundFrom : String → GoMap OutboundQueueEntry → String → Type 0
  FoundFrom id m found = (found ≡ id) ⊎ Holds found m

  oldest_from :
      (id : String) (at : Time) (m : GoMap OutboundQueueEntry)
      → FoundFrom id m (oldest tenant_id channel id at m)
  unfolding FoundFrom Holds oldest
  oldest_from id at [] = inl refl
  oldest_from id at ((k, entry) ∷ m) = elim (Bool-cases (queued_for tenant_id channel entry)) [
    | inr h ↦
        subst (FoundFrom id ((k, entry) ∷ m)) (sym (passes id k at entry m h))
          (elim (oldest_from id at m) [ inl e ↦ inl e | inr r ↦ inr (inr r) ])
    | inl h ↦ elim (Bool-cases (id == "" || ltb entry.enqueued_at at)) [
      | inr o ↦
          subst (FoundFrom id ((k, entry) ∷ m)) (sym (keeps id k at entry m h o))
            (elim (oldest_from id at m) [ inl e ↦ inl e | inr r ↦ inr (inr r) ])
      | inl o ↦
          subst (FoundFrom id ((k, entry) ∷ m)) (sym (takes id k at entry m h o))
            (elim (oldest_from k entry.enqueued_at m) [
              | inl e ↦ inr (inl (sym e, h))
              | inr r ↦ inr (inr r)
            ])
    ]
  ]

  oldest-Holds :
      (m : GoMap OutboundQueueEntry) (at : Time)
      → 1 ≤ depth m
      → Holds (oldest tenant_id channel "" at m) m
  unfolding Holds depth values count FoundFrom
  oldest-Holds [] at d = omega (arith, d)
  oldest-Holds ((k, entry) ∷ m) at d = elim (Bool-cases (queued_for tenant_id channel entry)) [
    | inl h ↦
        subst (λ (x : String). Holds x ((k, entry) ∷ m)) (sym (takes "" k at entry m h refl))
          (elim (oldest_from k entry.enqueued_at m) [ inl e ↦ inl (sym e, h) | inr r ↦ inr r ])
    | inr h ↦
        subst (λ (x : String). Holds x ((k, entry) ∷ m)) (sym (passes "" k at entry m h))
          (inr (
            oldest-Holds m at
              (omega (arith, subst (λ (b : Bool). 1 ≤ (if b then 1 else 0) + depth m) h d))))
  ]

  Holds-Keyed :
      (k : String) (m : GoMap OutboundQueueEntry) → Keyed m → Holds k m → (k == "") ≡ false
  unfolding Holds
  Holds-Keyed k [] h r = elim r [ ]
  Holds-Keyed k ((id, entry) ∷ m) h (inl (e, q)) = subst (λ (j : String). (j == "") ≡ false) e h.0
  Holds-Keyed k ((id, entry) ∷ m) h (inr r) = Holds-Keyed k m h.1 r

  -- Where the channel has an entry in the queue, the deletion of its oldest one leaves fewer.
  pub delete_oldest-fewer :
      (s : Store)
      → Keyed s.outbound_queue
      → 1 ≤ count (queued_for tenant_id channel) (values s.outbound_queue)
      → suc (
          count
            (queued_for tenant_id channel)
            (values (delete_oldest_outbound_queue_entry tenant_id channel s).1.outbound_queue))
        ≤ count (queued_for tenant_id channel) (values s.outbound_queue)
  unfolding delete_oldest_outbound_queue_entry depth
  delete_oldest-fewer s k d =
      rw
        (Holds-Keyed (oldest tenant_id channel "" 0 s.outbound_queue) s.outbound_queue k
          (oldest-Holds s.outbound_queue 0 d))
        (remove-Holds (oldest tenant_id channel "" 0 s.outbound_queue) s.outbound_queue
          (oldest-Holds s.outbound_queue 0 d))

  pub delete_oldest-Keyed :
      (s : Store)
      → Keyed s.outbound_queue
      → Keyed (delete_oldest_outbound_queue_entry tenant_id channel s).1.outbound_queue
  unfolding delete_oldest_outbound_queue_entry
  delete_oldest-Keyed s k =
      elim (Bool-cases (oldest tenant_id channel "" 0 s.outbound_queue == "")) [
        | inl e ↦ rw e k
        | inr e ↦
            rw e (All-remove _ (oldest tenant_id channel "" 0 s.outbound_queue) s.outbound_queue k)
      ]

  pub delete_oldest-others :
      (p : OutboundQueueEntry → Bool) (s : Store)
      → count p (values (delete_oldest_outbound_queue_entry tenant_id channel s).1.outbound_queue)
        ≤ count p (values s.outbound_queue)
  unfolding delete_oldest_outbound_queue_entry
  delete_oldest-others p s =
      elim (Bool-cases (oldest tenant_id channel "" 0 s.outbound_queue == "")) [
        | inl e ↦ rw e (omega arith)
        | inr e ↦
            rw e (count-remove p (oldest tenant_id channel "" 0 s.outbound_queue) s.outbound_queue)
      ]

  pub delete_oldest-ok :
      (s : Store)
      → (delete_oldest_outbound_queue_entry tenant_id channel s).0
        ≡ ok (oldest tenant_id channel "" 0 s.outbound_queue)
  unfolding delete_oldest_outbound_queue_entry
  delete_oldest-ok s = elim (Bool-cases (oldest tenant_id channel "" 0 s.outbound_queue == "")) [
    | inl e ↦ rw e (ap ok (sym ((eq_iff _ _).0 e)))
    | inr e ↦ rw e refl
  ]
