-- ===== src/Memory/Packets.antt =====
-- Review packets.
use victoria.Prelude.{
  String, true, Option, none, some, List, [], ◌∷◌, ◌==◌, ◌&&◌, ◌||◌, if◌then◌else◌, ltb, ◌≡◌, refl,
  Option-cases, Bool-cases, inl, inr,
}
use victoria.Exec.{ok, err, not_found, Exec}
use victoria.GoMap.{get, put, values}
use victoria.Domain.{Time, ReviewPacket}
use victoria.Memory.{Store}

unfoldable pub create_review_packet : ReviewPacket → Exec Store (Unit {0})
create_review_packet packet s =
    (ok tt, record s { packets = put packet.packet_id packet s.packets })

unfoldable pub get_review_packet : String → String → Exec Store ReviewPacket
get_review_packet tenant_id packet_id s = elim (get packet_id s.packets) [
  | none ↦ (err not_found, s)
  | some packet ↦ if packet.tenant_id == tenant_id then (ok packet, s) else (err not_found, s)
]

-- the fields of `latest` that the loop reads; `none` is the zero packet
packet_id_of : Option ReviewPacket → String
packet_id_of none = ""
packet_id_of (some p) = p.packet_id

expires_at_of : Option ReviewPacket → Time
expires_at_of none = 0
expires_at_of (some p) = p.expires_at

-- the loop of LatestReviewPacket
latest_packet : String → Option ReviewPacket → List ReviewPacket → Option ReviewPacket
unfolding packet_id_of expires_at_of
latest_packet tenant_id latest [] = latest
latest_packet tenant_id latest (p ∷ ps) =
    latest_packet tenant_id
      (if p.tenant_id == tenant_id
          && (packet_id_of latest == "" || ltb (expires_at_of latest) p.expires_at)
        then some p
        else latest)
      ps

pub latest_review_packet : String → Exec Store ReviewPacket
unfolding latest_packet
latest_review_packet tenant_id s = elim (latest_packet tenant_id none (values s.packets)) [
  | none ↦ (err not_found, s)
  | some packet ↦ if packet.packet_id == "" then (err not_found, s) else (ok packet, s)
]

unfoldable pub mark_review_packet_delivered : String → String → Exec Store (Unit {0})
mark_review_packet_delivered tenant_id packet_id s = elim (get packet_id s.packets) [
  | none ↦ (err not_found, s)
  | some packet ↦
      if packet.tenant_id == tenant_id
      then (
        ok tt,
        record s { packets = put packet_id (record packet { delivered = true }) s.packets },
      )
      else (err not_found, s)
]

-- a read leaves the store
pub latest_review_packet-state :
    (tenant_id : String) (s : Store) → (latest_review_packet tenant_id s).1 ≡ s
unfolding latest_review_packet
latest_review_packet-state tenant_id s =
    elim (Option-cases (latest_packet tenant_id none (values s.packets))) [
      | inl e ↦ rw (e, latest_review_packet) refl
      | inr (p, e) ↦
          rw (e, latest_review_packet)
            (elim (Bool-cases (p.packet_id == "")) [ inl f ↦ rw f refl | inr f ↦ rw f refl ])
    ]

pub get_review_packet-state :
    (tenant_id packet_id : String) (s : Store) → (get_review_packet tenant_id packet_id s).1 ≡ s
unfolding get_review_packet
get_review_packet-state tenant_id packet_id s = elim (Option-cases (get packet_id s.packets)) [
  | inl e ↦ rw (e, get_review_packet) refl
  | inr (p, e) ↦
      rw (e, get_review_packet)
        (elim (Bool-cases (p.tenant_id == tenant_id)) [ inl f ↦ rw f refl | inr f ↦ rw f refl ])
]
