-- ===== src/Mime/Names.antt =====
-- mime.go: the media types.
use Prim.Native.String
use yuna.Prelude.{String}

abbrev pub charset_utf8 : String
charset_utf8 = "charset=utf-8"

abbrev pub mime_application_json : String
mime_application_json = "application/json"

abbrev pub mime_application_json_charset_utf8 : String
mime_application_json_charset_utf8 =
    String.◌++◌ mime_application_json (String.◌++◌ "; " charset_utf8)

abbrev pub mime_application_javascript : String
mime_application_javascript = "application/javascript"

abbrev pub mime_application_javascript_charset_utf8 : String
mime_application_javascript_charset_utf8 =
    String.◌++◌ mime_application_javascript (String.◌++◌ "; " charset_utf8)

abbrev pub mime_application_xml : String
mime_application_xml = "application/xml"

abbrev pub mime_application_xml_charset_utf8 : String
mime_application_xml_charset_utf8 = String.◌++◌ mime_application_xml (String.◌++◌ "; " charset_utf8)

abbrev pub mime_application_form : String
mime_application_form = "application/x-www-form-urlencoded"

abbrev pub mime_application_protobuf : String
mime_application_protobuf = "application/protobuf"

abbrev pub mime_application_msgpack : String
mime_application_msgpack = "application/msgpack"

abbrev pub mime_text_xml : String
mime_text_xml = "text/xml"

abbrev pub mime_text_xml_charset_utf8 : String
mime_text_xml_charset_utf8 = String.◌++◌ mime_text_xml (String.◌++◌ "; " charset_utf8)

abbrev pub mime_text_html : String
mime_text_html = "text/html"

abbrev pub mime_text_html_charset_utf8 : String
mime_text_html_charset_utf8 = String.◌++◌ mime_text_html (String.◌++◌ "; " charset_utf8)

abbrev pub mime_text_plain : String
mime_text_plain = "text/plain"

abbrev pub mime_text_plain_charset_utf8 : String
mime_text_plain_charset_utf8 = String.◌++◌ mime_text_plain (String.◌++◌ "; " charset_utf8)

abbrev pub mime_multipart_form : String
mime_multipart_form = "multipart/form-data"

abbrev pub mime_octet_stream : String
mime_octet_stream = "application/octet-stream"
