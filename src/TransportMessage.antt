-- ===== src/TransportMessage.antt =====
-- src/libopensrf/transport_message.c: messages as the router builds them, and the parts of a Jabber
-- ID. A string is an option, `none` for NULL.
pub mod Domain
pub mod Parts
mod Tests
use open_srf.Prelude.{
  ℕ, zero, suc, ◌+◌, ◌-◌, Bool, true, false, not, ◌&&◌, Option, none, some, List, [], ◌∷◌, ltb,
  ◌==◌, if◌then◌else◌, length, take, Bytes,
}

-- `struct transport_message_struct`, without the text as XML and the link of a queue
pub record TransportMessage : Type 0 where
  pub body : Option Bytes
  pub subject : Option Bytes
  pub thread : Option Bytes
  pub recipient : Option Bytes
  pub sender : Option Bytes
  pub router_from : Option Bytes
  pub router_to : Option Bytes
  pub router_class : Option Bytes
  pub router_command : Option Bytes
  pub osrf_xid : Option Bytes
  pub is_error : Bool
  pub error_type : Option Bytes
  pub error_code : ℕ
  pub broadcast : Bool

-- a string, "" for NULL
abbrev pub or_empty : Option Bytes → Option Bytes
or_empty none = some []
or_empty (some s) = some s

unfoldable pub message_init :
    (body subject thread recipient sender : Option Bytes) → TransportMessage
message_init body subject thread recipient sender = record {
  body = or_empty body;
  subject = or_empty subject;
  thread = or_empty thread;
  recipient = or_empty recipient;
  sender = or_empty sender;
  router_from = none;
  router_to = none;
  router_class = none;
  router_command = none;
  osrf_xid = none;
  is_error = false;
  error_type = none;
  error_code = 0;
  broadcast = false;
}

unfoldable pub message_set_router_info :
    TransportMessage
    → (router_from router_to router_class router_command : Option Bytes) → Bool
    → TransportMessage
message_set_router_info msg from to class command broadcast_enabled = record msg {
  router_from = or_empty from;
  router_to = or_empty to;
  router_class = or_empty class;
  router_command = or_empty command;
  broadcast = broadcast_enabled;
}

unfoldable pub message_set_osrf_xid : TransportMessage → Option Bytes → TransportMessage
message_set_osrf_xid msg osrf_xid = record msg { osrf_xid = or_empty osrf_xid }

-- `type != NULL && *type`
unfoldable pub is_text : Option Bytes → Bool
is_text none = false
is_text (some []) = false
is_text (some (c ∷ s)) = true

unfoldable pub set_msg_error : TransportMessage → Option Bytes → ℕ → TransportMessage
unfolding is_text
set_msg_error msg type err_code =
    let typed = record msg { error_type = type; error_code = err_code } in
    record (if is_text type then typed else msg) { is_error = true }

-- the loop of `jid_get_domain` over the rest of the text
unfoldable pub jid_marks : Bytes → (i index1 index2 : ℕ) → ℕ × ℕ
jid_marks [] i index1 index2 = (index1, index2)
jid_marks (c ∷ jid) i index1 index2 =
    let at = jid_marks jid (i + 1) (i + 1) index2 in
    let slash = jid_marks jid (i + 1) index1 i in
    let other = jid_marks jid (i + 1) index1 index2 in
    if c == b'@' then at else (if (c == b'/') && not (index1 == 0) then slash else other)

unfoldable pub skip : ℕ → Bytes → Bytes
skip zero s = s
skip (suc n) [] = []
skip (suc n) (c ∷ s) = skip n s

-- `jid_get_domain`: what is in the buffer afterwards
unfoldable pub jid_get_domain : Bytes → (size : ℕ) → Bytes
unfolding jid_marks skip
jid_get_domain jid size =
    let (index1, index2) = jid_marks jid 0 0 0 in
    let dlen = index2 - index1 in
    if ltb 0 index1 && ltb index1 index2
    then take (if ltb size dlen then size else dlen) (skip index1 jid)
    else []

-- the loop of `jid_get_username`: where the first `@` is
unfoldable pub at_mark : Bytes → (i : ℕ) → Option ℕ
at_mark [] i = none
at_mark (c ∷ jid) i = let rest = at_mark jid (i + 1) in if c == b'@' then some i else rest

-- `jid_get_username`: what is in the buffer afterwards
unfoldable pub jid_get_username : (jid buf : Bytes) → (size : ℕ) → Bytes
unfolding at_mark
jid_get_username jid buf size =
    let copied : Bytes = elim (at_mark jid 0) [
      | none ↦ []
      | some i ↦ take (if ltb size i then size else i) jid
    ] in
    if size == 0 then buf else copied

-- the text beyond the last slash, if any
unfoldable pub after_slash : Bytes → Option Bytes
after_slash [] = none
after_slash (c ∷ jid) = elim (after_slash jid) [
  | none ↦ if c == b'/' then some jid else none
  | some start ↦ some start
]

-- `jid_get_resource`: what is in the buffer afterwards
unfoldable pub jid_get_resource : (jid buf : Bytes) → (size : ℕ) → Bytes
unfolding after_slash
jid_get_resource jid buf size =
    let copied : Bytes = elim (after_slash jid) [
      | none ↦ []
      | some start ↦ take (if ltb size (length start) then size else length start) start
    ] in
    if size == 0 then buf else copied
