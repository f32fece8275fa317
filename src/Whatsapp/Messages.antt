-- ===== src/Whatsapp/Messages.antt =====
-- What goes out over WhatsApp and what is read of what comes in: buildOutboundMessage, renderText,
-- extractText and extractButtonReply of internal/channel/whatsapp/adapter.go.
use victoria.Prelude.{
  String, Bool, Option, none, some, List, map, ◌==◌, ◌||◌, not, if◌then◌else◌, join, eqb, length,
}
use victoria.Domain.{ButtonSpec, OutboundMessage}

-- waProto.ListMessage_Row
abbrev pub Row : Type 0
Row = record { row_id : String; title : String }

-- the parts of waProto.Message that are written
pub data OutMessage : Type 0 where
  conversation : String → OutMessage
  list_message :
      (title description button_text footer_text section : String) → List Row → OutMessage

pub render_text : OutboundMessage → String
render_text msg = msg.body_text

-- the tag by which a reply finds its packet
unfoldable pub with_tag : String → String → String
with_tag body packet_id = join body (join "\n\n[packet:" (join packet_id "]"))

unfoldable pub build_outbound_message : OutboundMessage → Bool → OutMessage
unfolding render_text with_tag
build_outbound_message msg force_text =
    if eqb (length msg.buttons) 0 || force_text
    then conversation (render_text msg)
    else list_message "Victoria — review needed" (with_tag msg.body_text msg.packet_id)
        "Choose action" "Reply or tap an option" "Available actions"
        (map {B = Row} (λ (b : ButtonSpec). record { row_id = b.id; title = b.label }) msg.buttons)

-- the parts of waProto.Message that are read; a pointer that is nil anywhere on the way is none
pub record InMessage : Type 0 where
  pub conversation : Option String
  pub extended_text : Option String
  pub selected_button_id : Option String
  pub selected_row_id : Option String
  pub selected_template_id : Option String

abbrev or_empty : Option String → String
or_empty none = ""
or_empty (some s) = s

unfoldable pub extract_text : InMessage → String
extract_text m =
    if not (or_empty m.conversation == "")
    then or_empty m.conversation
    else or_empty m.extended_text

abbrev or_else : Option String → String → String
or_else none s = s
or_else (some t) s = t

unfoldable pub extract_button_reply : InMessage → String
extract_button_reply m =
    or_else m.selected_button_id (or_else m.selected_row_id (or_else m.selected_template_id ""))
