-- ===== src/App/Gateway/Delivery/Drained.antt =====
-- A drain that succeeds leaves nothing queued.
use victoria.Prelude.{
  ◌≡◌, refl, sym, ap, subst, ◌∙◌, arith, String, Bool, true, false, List, [], ◌∷◌, ◌==◌, ◌||◌,
  if◌then◌else◌, eq_iff, ltb,
}
use victoria.Exec.{Result, ok, err, attempt, ignore, for_each, skip, gets, ◌>>=◌}
use victoria.Exec.Laws.{>>=-through}
use victoria.GoMap.{GoMap, remove, values, select, count}
use victoria.GoMap.Laws.{All}
use victoria.Sort.{insert_sorted, sort_by}
use victoria.Domain.{OutboundQueueEntry, ReviewPacket}
use victoria.Memory.{Store}
use victoria.Memory.Packets.{get_review_packet, get_review_packet-state}
use victoria.Memory.Queue.{queued_for, list_outbound_queue, delete_outbound_queue_entry}
use victoria.App.{Env, World}
use victoria.App.Core.{in_store, clock_now}
use victoria.App.Core.Laws.{audit-frame}
use victoria.App.Frame.Fields.{IsBlind}
use victoria.App.Gateway.Delivery.Enqueued.{depth_of}
use victoria.App.Gateway.Delivery.Keeping.{deliver_kept}
use victoria.App.Gateway.Delivery.{
  deliver_packet, discard_entry, deliver_entry, drain_packet, drain_entry, drain_entries,
}

abbrev queue_of : Store → GoMap OutboundQueueEntry
queue_of s = s.outbound_queue

blind : IsBlind queue_of
blind = record {
  to_log = λ s x y. refl;
  to_decisions = λ s x. refl;
  to_runs = λ s x. refl;
  to_out = λ s x y. refl;
  to_corrections = λ s x y. refl;
  to_candidates = λ s x. refl;
}

-- every entry stands at its own identifier
abbrev pub AtOwnId : GoMap OutboundQueueEntry → Type 0
AtOwnId = All (λ k (e : OutboundQueueEntry). e.id ≡ k)

module _ (env : Env) where
  delete_entry :
      (id : String) (w : World)
      → (ignore (in_store (delete_outbound_queue_entry id)) w).1.store.outbound_queue
        ≡ remove id w.store.outbound_queue
  unfolding ignore in_store delete_outbound_queue_entry
  delete_entry id w = refl

  discard-removes :
      (t c : String) (e : OutboundQueueEntry) (p : ReviewPacket) (w : World)
      → (discard_entry env t c e p w).1.store.outbound_queue ≡ remove e.id w.store.outbound_queue
  unfolding discard_entry ignore in_store delete_outbound_queue_entry ◌>>=◌
  discard-removes t c e p w =
      ap (λ (v : World). v.store.outbound_queue) (audit-frame env _ _ _ _ _ _ _ _ _ _)

  deliver-removes :
      (c : String) (e : OutboundQueueEntry) (p : ReviewPacket) (w : World)
      → (deliver_entry env c e p w).0 ≡ ok tt
      → (deliver_entry env c e p w).1.store.outbound_queue ≡ remove e.id w.store.outbound_queue
  unfolding deliver_entry
  deliver-removes c e p w h =
      let (_, _, same, _) =
        >>=-through (deliver_packet env p c)
          (λ _. ignore (in_store (delete_outbound_queue_entry e.id))) w h in
      ap (λ (r : Result (Unit {0}) × World). r.1.store.outbound_queue) same
      ∙ delete_entry e.id (deliver_packet env p c w).1
      ∙ ap (remove e.id) ((deliver_kept env queue_of blind (λ s x. refl) p c).at w)

  -- what the body does to the queue, whichever way the test goes
  choice-removes :
      (t c : String) (e : OutboundQueueEntry) (p : ReviewPacket) (w : World) (late : Bool)
      → ((if late then discard_entry env t c e p else deliver_entry env c e p) w).0 ≡ ok tt
      → ((if late then discard_entry env t c e p else deliver_entry env c e p)
          w).1.store.outbound_queue
        ≡ remove e.id w.store.outbound_queue
  choice-removes t c e p w true h = discard-removes t c e p w
  choice-removes t c e p w false h = deliver-removes c e p w h

  drain_packet-removes :
      (t c : String) (e : OutboundQueueEntry) (found : Result ReviewPacket) (w : World)
      → (drain_packet env t c e found w).0 ≡ ok tt
      → (drain_packet env t c e found w).1.store.outbound_queue ≡ remove e.id w.store.outbound_queue
  unfolding drain_packet clock_now gets ◌>>=◌
  drain_packet-removes t c e (err x) w h = delete_entry e.id w
  drain_packet-removes t c e (ok p) w h = choice-removes t c e p w (ltb p.expires_at w.now) h

  drain_entry-removes :
      (t c : String) (e : OutboundQueueEntry) (w : World)
      → (drain_entry env t c e w).0 ≡ ok tt
      → (drain_entry env t c e w).1.store.outbound_queue ≡ remove e.id w.store.outbound_queue
  unfolding drain_entry attempt in_store ◌>>=◌
  drain_entry-removes t c e w h =
      drain_packet-removes t c e (get_review_packet t e.packet_id w.store).0
        (record w { store = (get_review_packet t e.packet_id w.store).1 }) h
      ∙ ap (λ (s : Store). remove e.id s.outbound_queue)
          (get_review_packet-state t e.packet_id w.store)

-- one of the entries has the identifier
has_id : String → List OutboundQueueEntry → Bool
has_id id [] = false
has_id id (e ∷ es) = e.id == id || has_id id es

module _ (less : OutboundQueueEntry → OutboundQueueEntry → Bool) where
  has_id-insert :
      (id : String) (e : OutboundQueueEntry) (es : List OutboundQueueEntry)
      → has_id id (insert_sorted less e es) ≡ (e.id == id || has_id id es)
  unfolding has_id insert_sorted
  has_id-insert id e [] = refl
  has_id-insert id e (f ∷ es) = ground (arith, has_id-insert id e es)

  has_id-sort :
      (id : String) (es : List OutboundQueueEntry) → has_id id (sort_by less es) ≡ has_id id es
  unfolding has_id sort_by
  has_id-sort id [] = refl
  has_id-sort id (e ∷ es) =
      has_id-insert id e (sort_by less es) ∙ ap (λ (b : Bool). e.id == id || b) (has_id-sort id es)

module _ (p : OutboundQueueEntry → Bool) where
  -- every entry that the test takes has its key in the list
  abbrev Covered : List OutboundQueueEntry → GoMap OutboundQueueEntry → Type 0
  Covered es = All (λ k e. p e ≡ true → has_id k es ≡ true)

  Covered-remove :
      (e : OutboundQueueEntry) (es : List OutboundQueueEntry) (q : GoMap OutboundQueueEntry)
      → Covered (e ∷ es) q
      → Covered es (remove e.id q)
  unfolding has_id remove
  Covered-remove e es [] h = tt
  Covered-remove e es ((k, f) ∷ q) h =
      ground (arith, eq_iff k e.id, eq_iff e.id k, h.0, Covered-remove e es q h.1)

  Covered-count : (q : GoMap OutboundQueueEntry) → Covered [] q → count p (values q) ≡ 0
  unfolding has_id count values
  Covered-count [] h = refl
  Covered-count ((k, f) ∷ q) h = ground (arith, h.0, Covered-count q h.1)

  Covered-select :
      (es : List OutboundQueueEntry) (q : GoMap OutboundQueueEntry)
      → AtOwnId q
      → ((k : String) → has_id k (select p (values q)) ≡ true → has_id k es ≡ true)
      → Covered es q
  unfolding has_id select values
  Covered-select es [] own all = tt
  Covered-select es ((k, f) ∷ q) own all = (
    (λ h. ground (arith, all k, h, eq_iff f.id k, own.0)),
    Covered-select es q own.1 (λ j h. ground (arith, all j, h)),
  )

module _ (env : Env) (t c : String) where
  drained-count :
      (es : List OutboundQueueEntry) (w : World)
      → Covered (queued_for t c) es w.store.outbound_queue
      → (for_each es (drain_entry env t c) w).0 ≡ ok tt
      → depth_of t c (for_each es (drain_entry env t c) w).1.store.outbound_queue ≡ 0
  unfolding for_each skip
  drained-count [] w all h = Covered-count (queued_for t c) w.store.outbound_queue all
  drained-count (e ∷ es) w all h =
      let (_, first_ok, same, rest_ok) =
        >>=-through (drain_entry env t c e) (λ _. for_each es (drain_entry env t c)) w h in
      ap (λ (r : Result (Unit {0}) × World). depth_of t c r.1.store.outbound_queue) same
      ∙ drained-count es (drain_entry env t c e w).1
          (subst (Covered (queued_for t c) es) (sym (drain_entry-removes env t c e w first_ok))
            (Covered-remove (queued_for t c) e es w.store.outbound_queue all))
          rest_ok

  -- Where every queued entry stands at its own identifier, a drain of the channel that reports no
  -- error leaves no entry queued for that tenant and channel: each was delivered, expired or lost
  -- its packet, and was deleted.
  pub drain_entries-empties :
      (w : World)
      → AtOwnId w.store.outbound_queue
      → (drain_entries env t c w).0 ≡ ok tt
      → depth_of t c (drain_entries env t c w).1.store.outbound_queue ≡ 0
  unfolding drain_entries in_store list_outbound_queue ◌>>=◌
  drain_entries-empties w own h =
      drained-count
        (sort_by (λ (a b : OutboundQueueEntry). ltb a.enqueued_at b.enqueued_at)
          (select (queued_for t c) (values w.store.outbound_queue)))
        w
        (Covered-select (queued_for t c) _ w.store.outbound_queue own (λ k listed.
          has_id-sort _ k (select (queued_for t c) (values w.store.outbound_queue)) ∙ listed))
        h
