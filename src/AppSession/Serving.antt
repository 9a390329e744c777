-- ===== src/AppSession/Serving.antt =====
-- How a server session answers a request, in src/libopensrf/osrf_app_session.c: the messages that it
-- sends, those of one transport message together.
use Prim.Native.Char.{code}
use Prim.Native.String.{String}
use open_srf.Prelude.{
  ℕ, zero, suc, ◌+◌, ◌&&◌, Option, none, some, List, [], ◌∷◌, ◌++◌, ltb, if◌then◌else◌, length,
  take, Bytes,
}
use open_srf.JsonObject.{JsonObject, new_object}
use open_srf.OsrfMessage.{
  OsrfMessage, result, status, osrf_message_init, osrf_message_set_status_info,
  osrf_message_set_result_content, osrf_message_set_result,
}
use open_srf.AppSession.Queue.{status_ok, status_partial, status_nocontent, msg_chunk_size, ok_text}

-- the bytes of a text in ASCII
abbrev pub codes : String → Bytes
codes String.[] = []
codes (String.◌∷◌ c s) = code c ∷ codes s

unfoldable pub drop : ℕ → Bytes → Bytes
drop zero s = s
drop (suc n) [] = []
drop (suc n) (c ∷ s) = drop n s

-- a message with one part of the payload
unfoldable pub partial_message : (request_id : ℕ) → Bytes → OsrfMessage
partial_message request_id partial =
    let msg = osrf_message_init result request_id 1 in
    let named =
      osrf_message_set_status_info msg (some (codes "osrfResultPartial"))
        (some (codes "Partial Response")) status_partial in
    osrf_message_set_result named (new_object (some partial))

-- the message that ends the parts
unfoldable pub final_message : (request_id : ℕ) → OsrfMessage
final_message request_id =
    osrf_message_set_status_info (osrf_message_init result request_id 1)
      (some (codes "osrfResultPartialComplete")) (some (codes "Partial Response Finalized"))
      status_nocontent

-- the loop of `osrfSendChunkedResult`, with at most so many rounds
unfoldable pub send_chunks :
    (fuel request_id : ℕ) → (payload : Bytes) → (payload_size chunk_size i : ℕ) → List OsrfMessage
unfolding partial_message drop
send_chunks zero request_id payload payload_size chunk_size i = []
send_chunks (suc n) request_id payload payload_size chunk_size i =
    let rest = length (drop i payload) in
    let partial_size = if ltb chunk_size rest then chunk_size else rest in
    let msg = partial_message request_id (take partial_size (drop i payload)) in
    let sent = msg ∷ send_chunks n request_id payload payload_size chunk_size (i + chunk_size) in
    if ltb i payload_size then sent else []

-- `osrfSendChunkedResult`
unfoldable pub send_chunked_result :
    (request_id : ℕ) → (payload : Bytes) → (payload_size chunk_size : ℕ) → List OsrfMessage
unfolding send_chunks final_message
send_chunked_result request_id payload payload_size chunk_size =
    send_chunks payload_size request_id payload payload_size chunk_size 0
    ++ final_message request_id ∷ []

abbrev pub one_each : List OsrfMessage → List (List OsrfMessage)
one_each [] = []
one_each (msg ∷ msgs) = (msg ∷ []) ∷ one_each msgs

-- the message that a request is complete
unfoldable pub complete_message : (request_id : ℕ) → OsrfMessage
complete_message request_id =
    osrf_message_set_status_info (osrf_message_init status request_id 1)
      (some (codes "osrfConnectStatus")) (some (codes "Request Complete")) 205

-- a whole result
unfoldable pub result_message : (Bytes → Option JsonObject) → (request_id : ℕ) → Bytes → OsrfMessage
result_message json_parse request_id json =
    let msg = osrf_message_init result request_id 1 in
    let named = osrf_message_set_status_info msg none (some ok_text) status_ok in
    osrf_message_set_result_content json_parse named json

-- the chunk size of `osrfAppRequestRespondComplete`; `extra_size` is osrfXmlEscapingLength of the text,
-- and `scaled` the product in double arithmetic, of the two sizes.
unfoldable pub chunk_size_of : (scaled : ℕ → ℕ → ℕ) → (raw_size extra_size : ℕ) → ℕ
chunk_size_of scaled raw_size extra_size =
    let data_size = raw_size + extra_size in
    if ltb msg_chunk_size data_size then scaled raw_size data_size else msg_chunk_size

-- `osrfAppRequestRespondComplete` for the JSON text of its data, `none` for NULL
unfoldable pub respond_complete :
    (Bytes → Option JsonObject)
    → (escaping_length : Bytes → ℕ) → (scaled : ℕ → ℕ → ℕ) → (request_id : ℕ) → Option Bytes
    → List (List OsrfMessage)
unfolding send_chunked_result complete_message result_message chunk_size_of
respond_complete json_parse escaping_length scaled request_id none =
    (complete_message request_id ∷ []) ∷ []
respond_complete json_parse escaping_length scaled request_id (some json) =
    let raw_size = length json in
    let chunk_size = chunk_size_of scaled raw_size (escaping_length json) in
    let chunked =
      one_each (send_chunked_result request_id json raw_size chunk_size)
      ++ (complete_message request_id ∷ []) ∷ [] in
    let whole =
      (result_message json_parse request_id json ∷ complete_message request_id ∷ []) ∷ [] in
    if ltb 0 chunk_size && ltb chunk_size raw_size then chunked else whole
