-- ===== src/App/Gateway/Delivery/Keeping.antt =====
-- What a delivery and a drain of the gateway leave alone, of the store.
use victoria.Prelude.{
  ◌≡◌, refl, String, List, [], ◌∷◌, ◌==◌, not, Option-cases, Bool-cases, inl, inr,
}
use victoria.Exec.{Result, ok, err, skip}
use victoria.Exec.Preserves.{
  Preserves, Preserves-bind, Preserves-gets, Preserves-if, Preserves-skip, Preserves-attempt,
  preserves_rules,
}
use victoria.GoMap.{GoMap, get}
use victoria.Domain.{OutboundQueueEntry, ReviewPacket}
use victoria.Memory.{Store}
use victoria.Memory.Packets.{
  get_review_packet, get_review_packet-state, mark_review_packet_delivered,
}
use victoria.Memory.Queue.{list_outbound_queue, delete_outbound_queue_entry}
use victoria.App.{Env}
use victoria.App.Core.{in_store}
use victoria.App.Frame.{Frame, Preserves-read}
use victoria.App.Frame.Sending.{binding_kept, clock_kept}
use victoria.App.Frame.Fields.{IsBlind, SamePart, Frame-of_part}
use victoria.App.Gateway.Delivery.{
  send_packet, deliver_packet, discard_entry, deliver_entry, drain_packet, drain_entry,
  drain_entries, drain_failed, drain_queue,
}

module _ {X : Type 0} (env : Env) (part : Store → X) (blind : IsBlind part)
    (to_packets : (s : Store) (x : GoMap ReviewPacket)
      → part (record s { packets = x }) ≡ part s) where
  frame : Frame env (SamePart part)
  frame = Frame-of_part env part blind

  marked : (t p : String) (s : Store) → part (mark_review_packet_delivered t p s).1 ≡ part s
  unfolding mark_review_packet_delivered
  marked t p s = elim (Option-cases (get p s.packets)) [
    | inl h ↦ rw (h, mark_review_packet_delivered) refl
    | inr (r, h) ↦
        rw (h, mark_review_packet_delivered)
          (elim (Bool-cases (r.tenant_id == t)) [
            | inl e ↦ rw e (to_packets s _)
            | inr e ↦ rw e refl
          ])
  ]

  mark_kept :
      (t p : String) → Preserves (SamePart part) (in_store (mark_review_packet_delivered t p))
  unfolding in_store
  mark_kept t p = record { at = λ w. marked t p w.store }

  send_packet_kept :
      (p : ReviewPacket) (c : String) → Preserves (SamePart part) (send_packet env p c)
  unfolding send_packet
  send_packet_kept p c =
      search (preserves_rules, frame.order, binding_kept frame, frame.send_kept) depth 12

  pub deliver_kept :
      (p : ReviewPacket) (c : String) → Preserves (SamePart part) (deliver_packet env p c)
  unfolding deliver_packet
  deliver_kept p c =
      search (preserves_rules, frame.order, send_packet_kept, mark_kept, frame.audit_kept) depth 14

  module _
      (to_queue : (s : Store) (x : GoMap OutboundQueueEntry)
        → part (record s { outbound_queue = x }) ≡ part s) where
    delete_kept :
        (id : String) → Preserves (SamePart part) (in_store (delete_outbound_queue_entry id))
    unfolding in_store delete_outbound_queue_entry
    delete_kept id = record { at = λ w. to_queue w.store _ }

    discard_kept :
        (t c : String) (e : OutboundQueueEntry) (p : ReviewPacket)
        → Preserves (SamePart part) (discard_entry env t c e p)
    unfolding discard_entry
    discard_kept t c e p =
        search (preserves_rules, frame.order, delete_kept, frame.audit_kept) depth 12

    deliver_entry_kept :
        (c : String) (e : OutboundQueueEntry) (p : ReviewPacket)
        → Preserves (SamePart part) (deliver_entry env c e p)
    unfolding deliver_entry
    deliver_entry_kept c e p =
        search (preserves_rules, frame.order, delete_kept, deliver_kept) depth 12

    drain_packet_kept :
        (t c : String) (e : OutboundQueueEntry) (found : Result ReviewPacket)
        → Preserves (SamePart part) (drain_packet env t c e found)
    unfolding drain_packet
    drain_packet_kept t c e (err x) = search (preserves_rules, frame.order, delete_kept) depth 12
    drain_packet_kept t c e (ok p) =
        search (preserves_rules, frame.order, clock_kept frame, discard_kept, deliver_entry_kept)
          depth 12

    packet_kept : (t p : String) → Preserves (SamePart part) (in_store (get_review_packet t p))
    packet_kept t p =
        Preserves-read frame.order (get_review_packet t p) (get_review_packet-state t p)

    drain_entry_kept :
        (t c : String) (e : OutboundQueueEntry) → Preserves (SamePart part) (drain_entry env t c e)
    unfolding drain_entry
    drain_entry_kept t c e =
        search (preserves_rules, frame.order, drain_packet_kept, packet_kept) depth 12

    drain_entries_kept : (t c : String) → Preserves (SamePart part) (drain_entries env t c)
    unfolding drain_entries list_outbound_queue
    drain_entries_kept t c =
        search
          (
            preserves_rules,
            frame.order,
            drain_entry_kept,
            Preserves-read frame.order (list_outbound_queue t c) (λ s. refl),
          )
          depth 12

    drained_kept :
        (t c : String) (stamp : List String) (r : Result (Unit {0}))
        → Preserves (SamePart part) (elim r [ ok _ ↦ skip | err e ↦ drain_failed env t c stamp e ])
    unfolding drain_failed
    drained_kept t c stamp (ok x) = search (preserves_rules, frame.order)
    drained_kept t c stamp (err e) =
        search (preserves_rules, frame.order, frame.audit_kept) depth 12

    pub drain_queue_kept : (t c : String) → Preserves (SamePart part) (drain_queue env t c)
    unfolding drain_queue
    drain_queue_kept t c =
        let o = frame.order in
        Preserves-bind o _ _ (Preserves-gets o _) (λ ready.
          Preserves-if o (not ready) _ _ (λ _. Preserves-skip o)
            (λ _. Preserves-bind o _ _ (Preserves-attempt o _ (drain_entries_kept t c)) (λ r.
              Preserves-bind o _ _ (clock_kept frame)
                (λ now. drained_kept t c (env.format_time now ∷ []) r))))
