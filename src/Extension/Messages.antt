-- ===== src/Extension/Messages.antt =====
-- extension/protocol.py: what the daemon reads of the extension's messages. `J` stands for JSON values.
use browser_cli.Json.{
  ◌>>=◌, JsonOperations, text_or, text_or_none, dict_or_empty, list_or_empty, int_or_zero,
  int_or_none,
}
use browser_cli.Prelude.{
  ℕ, ℤ, String, List, [], ◌∷◌, Option, some, Bool, map, all, contains, ◌==◌, string_eq,
}

abbrev pub required_capabilities : List String
required_capabilities =
    "open" ∷ "tabs" ∷ "info" ∷ "html" ∷ "snapshot" ∷ "reload" ∷ "back" ∷ "forward" ∷ "resize"
    ∷ "click" ∷ "double-click" ∷ "hover" ∷ "focus" ∷ "fill" ∷ "fill-form" ∷ "select" ∷ "options"
    ∷ "check" ∷ "uncheck" ∷ "scroll-to" ∷ "drag" ∷ "upload" ∷ "type" ∷ "press" ∷ "key-down"
    ∷ "key-up" ∷ "scroll" ∷ "mouse-click" ∷ "mouse-move" ∷ "mouse-drag" ∷ "mouse-down" ∷ "mouse-up"
    ∷ "eval" ∷ "eval-on" ∷ "wait" ∷ "wait-network" ∷ "screenshot" ∷ "pdf" ∷ "trace-start"
    ∷ "trace-chunk" ∷ "trace-stop" ∷ "video-start" ∷ "video-stop" ∷ "console-start" ∷ "console"
    ∷ "console-stop" ∷ "network-wait" ∷ "network-start" ∷ "network" ∷ "network-stop"
    ∷ "dialog-setup" ∷ "dialog" ∷ "dialog-remove" ∷ "cookies" ∷ "cookie-set" ∷ "cookies-clear"
    ∷ "storage-save" ∷ "storage-load" ∷ "workspace-status" ∷ "workspace-rebuild-binding"
    ∷ "verify-text" ∷ "verify-visible" ∷ "verify-url" ∷ "verify-title" ∷ "verify-state"
    ∷ "verify-value" ∷ []

-- `PROTOCOL_VERSION`
abbrev pub daemon_protocol : String
daemon_protocol = "1"

abbrev pub max_response_chunk_index : ℕ
max_response_chunk_index = 16384

pub record ExtensionHello (J : Type 0) : Type 0 where
  pub protocol_version : String
  pub extension_version : String
  pub browser_name : String
  pub browser_version : String
  pub capabilities : List String
  pub workspace_window_state : J
  pub extension_instance_id : String

unfoldable pub is_compatible : {J : Type 0} → ExtensionHello J → Bool
is_compatible h = h.protocol_version == daemon_protocol

unfoldable pub has_required_capabilities : {J : Type 0} → ExtensionHello J → Bool
has_required_capabilities h = all (contains h.capabilities) required_capabilities

pub record ExtensionResponse (J : Type 0) : Type 0 where
  pub id : String
  pub ok : Bool
  pub body : J
  pub error_code : Option String
  pub error_message : Option String

pub record ExtensionArtifactBegin (J : Type 0) : Type 0 where
  pub request_id : String
  pub artifact_id : String
  pub artifact_kind : String
  pub mime_type : String
  pub encoding : String
  pub filename : Option String
  pub page_id : Option String
  pub metadata : J

pub record ExtensionArtifactChunk : Type 0 where
  pub request_id : String
  pub artifact_id : String
  pub artifact_kind : String
  pub mime_type : String
  pub encoding : String
  pub index : ℤ
  pub chunk : String
  pub final : Bool

pub record ExtensionArtifactEnd : Type 0 where
  pub request_id : String
  pub artifact_id : String
  pub size_bytes : Option ℤ

module _ {J : Type 0} (o : JsonOperations J) where
  unfoldable pub hello_from : J → Option (ExtensionHello J)
  hello_from payload = do
    items ← list_or_empty o "capabilities" payload
    state ← dict_or_empty o "workspace_window_state" payload
    some (record {
      protocol_version = text_or o "protocol_version" "" payload;
      extension_version = text_or o "extension_version" "" payload;
      browser_name = text_or o "browser_name" "" payload;
      browser_version = text_or o "browser_version" "" payload;
      capabilities = map o.str items;
      workspace_window_state = state;
      extension_instance_id = text_or o "extension_instance_id" "" payload;
    })

  unfoldable pub response_from : J → Option (ExtensionResponse J)
  response_from payload = do
    body ← dict_or_empty o "data" payload
    some (record {
      id = text_or o "id" "" payload;
      ok = o.truthy (o.get "ok" payload);
      body = body;
      error_code = text_or_none o "error_code" payload;
      error_message = text_or_none o "error_message" payload;
    })

  unfoldable pub artifact_begin_from : J → Option (ExtensionArtifactBegin J)
  artifact_begin_from payload = do
    metadata ← dict_or_empty o "metadata" payload
    some (record {
      request_id = text_or o "request_id" "" payload;
      artifact_id = text_or o "artifact_id" "" payload;
      artifact_kind = text_or o "artifact_kind" "" payload;
      mime_type = text_or o "mime_type" "application/octet-stream" payload;
      encoding = text_or o "encoding" "base64" payload;
      filename = text_or_none o "filename" payload;
      page_id = text_or_none o "page_id" payload;
      metadata = metadata;
    })

  unfoldable pub artifact_chunk_from : J → Option ExtensionArtifactChunk
  artifact_chunk_from payload = do
    index ← int_or_zero o "index" payload
    some (record {
      request_id = text_or o "request_id" "" payload;
      artifact_id = text_or o "artifact_id" "" payload;
      artifact_kind = text_or o "artifact_kind" "" payload;
      mime_type = text_or o "mime_type" "application/octet-stream" payload;
      encoding = text_or o "encoding" "base64" payload;
      index = index;
      chunk = text_or o "chunk" "" payload;
      final = o.truthy (o.get "final" payload);
    })

  unfoldable pub artifact_end_from : J → Option ExtensionArtifactEnd
  artifact_end_from payload = do
    size_bytes ← int_or_none o "size_bytes" payload
    some (record {
      request_id = text_or o "request_id" "" payload;
      artifact_id = text_or o "artifact_id" "" payload;
      size_bytes = size_bytes;
    })
