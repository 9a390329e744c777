-- ===== src/OsrfMessage.antt =====
-- src/libopensrf/osrf_message.c: messages between sessions, as they are built. What jsonParse makes of
-- a text is a parameter.
use open_srf.Prelude.{ℕ, Bool, false, Option, none, some, Bytes}
use open_srf.JsonObject.{
  JsonObject, object, json_null, json_string, json_number, json_bool, json_array, json_hash, item,
  no_items, clone, decode_class,
}

-- `enum M_TYPE`
pub data MType : Type 0 where
  connect request result status disconnect : MType

-- `struct osrf_message_struct`, without the link of a queue; thread traces are not negative.
pub record OsrfMessage : Type 0 where
  pub m_type : MType
  pub thread_trace : ℕ
  pub protocol : ℕ
  pub status_name : Option Bytes
  pub status_text : Option Bytes
  pub status_code : ℕ
  pub is_exception : Bool
  pub result_content : Option JsonObject
  pub method_name : Option Bytes
  pub params : Option JsonObject
  pub sender_locale : Option Bytes
  pub sender_ingress : Option Bytes
  pub sender_tz : Option Bytes

unfoldable pub osrf_message_init : MType → (thread_trace protocol : ℕ) → OsrfMessage
osrf_message_init type thread_trace protocol = record {
  m_type = type;
  thread_trace = thread_trace;
  protocol = protocol;
  status_name = none;
  status_text = none;
  status_code = 0;
  is_exception = false;
  result_content = none;
  method_name = none;
  params = none;
  sender_locale = none;
  sender_ingress = none;
  sender_tz = none;
}

abbrev or_else : Option Bytes → Option Bytes → Option Bytes
or_else none old = old
or_else (some s) old = some s

unfoldable pub osrf_message_set_status_info :
    OsrfMessage → (status_name status_text : Option Bytes) → (status_code : ℕ) → OsrfMessage
osrf_message_set_status_info msg name text code = record msg {
  status_name = or_else name msg.status_name;
  status_text = or_else text msg.status_text;
  status_code = code;
}

-- `osrf_message_set_result_content`, of a text that is not NULL
unfoldable pub osrf_message_set_result_content :
    (Bytes → Option JsonObject) → OsrfMessage → Bytes → OsrfMessage
osrf_message_set_result_content json_parse msg text = record msg {
  result_content = json_parse text;
}

-- `osrf_message_set_result`, of an object that is not NULL
unfoldable pub osrf_message_set_result : OsrfMessage → JsonObject → OsrfMessage
unfolding decode_class
osrf_message_set_result msg obj = record msg { result_content = decode_class obj }

-- `osrf_message_set_locale`
unfoldable pub osrf_message_set_locale : OsrfMessage → Option Bytes → OsrfMessage
osrf_message_set_locale msg locale = record msg { sender_locale = or_else locale msg.sender_locale }

-- `osrf_message_set_tz`
unfoldable pub osrf_message_set_tz : OsrfMessage → Option Bytes → OsrfMessage
osrf_message_set_tz msg tz = record msg { sender_tz = or_else tz msg.sender_tz }

-- `osrfMessageSetIngress`
unfoldable pub osrf_message_set_ingress : OsrfMessage → Option Bytes → OsrfMessage
osrf_message_set_ingress msg ingress = record msg {
  sender_ingress = or_else ingress msg.sender_ingress;
}

-- `osrf_message_set_method`
unfoldable pub osrf_message_set_method : OsrfMessage → Option Bytes → OsrfMessage
osrf_message_set_method msg method_name = record msg {
  method_name = or_else method_name msg.method_name;
}

-- a list of one parameter
unfoldable one_param : JsonObject → JsonObject
unfolding clone
one_param o = object none (json_array (item (clone o) no_items))

-- the list of parameters that an object stands for
unfoldable pub param_list : JsonObject → JsonObject
unfolding clone one_param
param_list (object c (json_array xs)) = clone (object c (json_array xs))
param_list (object c json_null) = one_param (object c json_null)
param_list (object c (json_string s)) = one_param (object c (json_string s))
param_list (object c (json_number s)) = one_param (object c (json_number s))
param_list (object c (json_bool b)) = one_param (object c (json_bool b))
param_list (object c (json_hash fs)) = one_param (object c (json_hash fs))

-- `osrf_message_set_params`
unfoldable pub osrf_message_set_params : OsrfMessage → Option JsonObject → OsrfMessage
unfolding param_list
osrf_message_set_params msg none = msg
osrf_message_set_params msg (some o) = record msg { params = some (param_list o) }
