-- ===== src/Http/Phase.antt =====
-- include/webcrown/server/http/enums.hpp, and `content_type` of http_parser.hpp

-- Nothing uses it: a request keeps the numbers of its version.
pub data ProtocolVersion : Type 0 where
  unknown http_1_0 http_1_1 : ProtocolVersion

pub data ParsePhase : Type 0 where
  unknown not_started parse_start_line_started parse_start_line parse_method : ParsePhase
  parse_method_finished parse_target parse_target_finished parse_protocol_version : ParsePhase
  parse_protocol_version_finished parse_headers parse_headers_finished : ParsePhase
  parse_content_type parse_content_type_finished parse_media_type : ParsePhase
  parse_media_type_need_more parse_media_type_finished parse_body parse_body_finished : ParsePhase
  parse_body_pending finished : ParsePhase

pub data ContentType : Type 0 where
  text image audio video application_json multipart_formdata message : ContentType
  unknown not_specified image_jpeg application_form_urlencoded : ContentType
