-- ===== src/Parser/Code.antt =====
-- What a run of the parser computes through: tests and witnesses name it on their `unfolding` line.

unfoldable pub parser_code : Unit {0}
unfolding webcrown.Parser.StartLine.method_loop webcrown.Parser.StartLine.parse_method
    webcrown.Parser.StartLine.target_loop webcrown.Parser.StartLine.parse_target
    webcrown.Parser.StartLine.expect webcrown.Parser.StartLine.digit
    webcrown.Parser.StartLine.set_version webcrown.Parser.StartLine.parse_protocol
    webcrown.Parser.StartLine.set_method webcrown.Parser.StartLine.set_target
    webcrown.Parser.StartLine.get_version webcrown.Parser.StartLine.request_line
    webcrown.Parser.Headers.name_loop webcrown.Parser.Headers.parse_message_header_name
    webcrown.Parser.Headers.skip_loop webcrown.Parser.Headers.value_loop
    webcrown.Parser.Headers.parse_message_header_value webcrown.Parser.Headers.header_line
    webcrown.Parser.Headers.line_end webcrown.Parser.Headers.is_last_line
    webcrown.Parser.Headers.next_line webcrown.Parser.Headers.header_loop
    webcrown.Parser.Headers.parse_message_header webcrown.Parser.Headers.first_or
    webcrown.Parser.Headers.media_type_of webcrown.Parser.Headers.content_type_of
    webcrown.Parser.Headers.is_supported webcrown.Parser.Headers.parse_content_type
    webcrown.Parser.Headers.headers_part webcrown.Parser.Headers.parse_start_line
    webcrown.Parser.Boundary.match_loop webcrown.Parser.Boundary.verify_loop
    webcrown.Parser.Boundary.verify_boundary_value webcrown.Parser.Boundary.skip_marks
    webcrown.Parser.Boundary.boundary_of webcrown.Parser.MediaType.dash_loop
    webcrown.Parser.MediaType.delimiter_loop webcrown.Parser.MediaType.part_headers
    webcrown.Parser.MediaType.delimiter_line webcrown.Parser.MediaType.boundary_begin
    webcrown.Parser.MediaType.parse_media_type_begin webcrown.Parser.MediaType.part_end_loop
    webcrown.Parser.MediaType.find_part_end webcrown.Parser.MediaType.append_part
    webcrown.Parser.MediaType.parse_media_type_more webcrown.Parser.MediaType.media_type_in
    webcrown.Parser.MediaType.parse_media_type webcrown.Parser.Parse.body_kind
    webcrown.Parser.Parse.parse_body webcrown.Parser.Parse.finish_uploads
    webcrown.Parser.Parse.more_media webcrown.Parser.Parse.read_body
    webcrown.Parser.Parse.body_is_pending webcrown.Parser.Parse.after_start
    webcrown.Parser.Parse.start webcrown.Parser.Parse.is_empty_start webcrown.Parser.Parse.parse
    webcrown.Parser.Memory.slice webcrown.Parser.Memory.make_string webcrown.Parser.Defs.new_parser
    webcrown.CharClass.is_token_char webcrown.CharClass.is_pathchar
    webcrown.CharClass.is_valid_token webcrown.CharClass.isprint webcrown.CharClass.isalpha
    webcrown.CharClass.isspace webcrown.CharClass.is_digit webcrown.Base.insert webcrown.Base.lookup
    webcrown.Base.bytes_eq webcrown.Base.find webcrown.Base.is_prefix webcrown.Base.add_delta
    webcrown.Base.to_size_t webcrown.Base.is_positive webcrown.StringUtils.to_lower
    webcrown.StringUtils.split webcrown.Cstdlib.atoi webcrown.Http.Method.to_method
    webcrown.Http.Request.with_body webcrown.Http.Request.with_uploads
parser_code = tt
