-- ===== src/Http/Names.antt =====
-- headers.go: the names of headers, as the source spells them; http.Header writes some of them in
-- another letter case.
use yuna.Prelude.{String}

abbrev pub header_accept : String
header_accept = "Accept"

abbrev pub header_accept_encoding : String
header_accept_encoding = "Accept-Encoding"

abbrev pub header_accept_language : String
header_accept_language = "Accept-Language"

abbrev pub header_accept_patch : String
header_accept_patch = "Accept-Patch"

abbrev pub header_accept_post : String
header_accept_post = "Accept-Post"

abbrev pub header_accept_ranges : String
header_accept_ranges = "Accept-Ranges"

abbrev pub header_access_control_allow_credentials : String
header_access_control_allow_credentials = "Access-Control-Allow-Credentials"

abbrev pub header_access_control_allow_headers : String
header_access_control_allow_headers = "Access-Control-Allow-Headers"

abbrev pub header_access_control_allow_methods : String
header_access_control_allow_methods = "Access-Control-Allow-Methods"

abbrev pub header_access_control_allow_origin : String
header_access_control_allow_origin = "Access-Control-Allow-Origin"

abbrev pub header_access_control_expose_headers : String
header_access_control_expose_headers = "Access-Control-Expose-Headers"

abbrev pub header_access_control_max_age : String
header_access_control_max_age = "Access-Control-Max-Age"

abbrev pub header_access_control_request_headers : String
header_access_control_request_headers = "Access-Control-Request-Headers"

abbrev pub header_access_control_request_method : String
header_access_control_request_method = "Access-Control-Request-Method"

abbrev pub header_age : String
header_age = "Age"

abbrev pub header_allow : String
header_allow = "Allow"

abbrev pub header_authorization : String
header_authorization = "Authorization"

abbrev pub header_cache_control : String
header_cache_control = "Cache-Control"

abbrev pub header_connection : String
header_connection = "Connection"

abbrev pub header_content_digest : String
header_content_digest = "Content-Digest"

abbrev pub header_content_disposition : String
header_content_disposition = "Content-Disposition"

abbrev pub header_content_encoding : String
header_content_encoding = "Content-Encoding"

abbrev pub header_content_language : String
header_content_language = "Content-Language"

abbrev pub header_content_length : String
header_content_length = "Content-Length"

abbrev pub header_content_location : String
header_content_location = "Content-Location"

abbrev pub header_content_range : String
header_content_range = "Content-Range"

abbrev pub header_content_security_policy : String
header_content_security_policy = "Content-Security-Policy"

abbrev pub header_content_security_policy_report_only : String
header_content_security_policy_report_only = "Content-Security-Policy-Report-Only"

abbrev pub header_content_type : String
header_content_type = "Content-Type"

abbrev pub header_cookie : String
header_cookie = "Cookie"

abbrev pub header_date : String
header_date = "Date"

abbrev pub header_etag : String
header_etag = "ETag"

abbrev pub header_expect : String
header_expect = "Expect"

abbrev pub header_expires : String
header_expires = "Expires"

abbrev pub header_forwarded : String
header_forwarded = "Forwarded"

abbrev pub header_from : String
header_from = "From"

abbrev pub header_host : String
header_host = "Host"

abbrev pub header_if_match : String
header_if_match = "If-Match"

abbrev pub header_if_modified_since : String
header_if_modified_since = "If-Modified-Since"

abbrev pub header_if_none_match : String
header_if_none_match = "If-None-Match"

abbrev pub header_if_range : String
header_if_range = "If-Range"

abbrev pub header_if_unmodified_since : String
header_if_unmodified_since = "If-Unmodified-Since"

abbrev pub header_keep_alive : String
header_keep_alive = "Keep-Alive"

abbrev pub header_last_modified : String
header_last_modified = "Last-Modified"

abbrev pub header_link : String
header_link = "Link"

abbrev pub header_location : String
header_location = "Location"

abbrev pub header_origin : String
header_origin = "Origin"

abbrev pub header_pragma : String
header_pragma = "Pragma"

abbrev pub header_proxy_authenticate : String
header_proxy_authenticate = "Proxy-Authenticate"

abbrev pub header_proxy_authorization : String
header_proxy_authorization = "Proxy-Authorization"

abbrev pub header_range : String
header_range = "Range"

abbrev pub header_referer : String
header_referer = "Referer"

abbrev pub header_retry_after : String
header_retry_after = "Retry-After"

abbrev pub header_server : String
header_server = "Server"

abbrev pub header_set_cookie : String
header_set_cookie = "Set-Cookie"

abbrev pub header_strict_transport_security : String
header_strict_transport_security = "Strict-Transport-Security"

abbrev pub header_te : String
header_te = "TE"

abbrev pub header_trailer : String
header_trailer = "Trailer"

abbrev pub header_transfer_encoding : String
header_transfer_encoding = "Transfer-Encoding"

abbrev pub header_upgrade : String
header_upgrade = "Upgrade"

abbrev pub header_user_agent : String
header_user_agent = "User-Agent"

abbrev pub header_vary : String
header_vary = "Vary"

abbrev pub header_x_content_type_options : String
header_x_content_type_options = "X-Content-Type-Options"

abbrev pub header_x_forwarded_for : String
header_x_forwarded_for = "X-Forwarded-For"

abbrev pub header_x_forwarded_proto : String
header_x_forwarded_proto = "X-Forwarded-Proto"

abbrev pub header_x_forwarded_ssl : String
header_x_forwarded_ssl = "X-Forwarded-Ssl"

abbrev pub header_x_frame_options : String
header_x_frame_options = "X-Frame-Options"

abbrev pub header_x_real_ip : String
header_x_real_ip = "X-Real-IP"

abbrev pub header_x_request_id : String
header_x_request_id = "X-Request-ID"

abbrev pub header_x_requested_with : String
header_x_requested_with = "X-Requested-With"

abbrev pub header_x_ua_compatible : String
header_x_ua_compatible = "X-UA-Compatible"

abbrev pub header_x_xss_protection : String
header_x_xss_protection = "X-XSS-Protection"

abbrev pub header_x_correlation_id : String
header_x_correlation_id = "X-Correlation-ID"

abbrev pub header_x_trace_id : String
header_x_trace_id = "X-Trace-ID"

abbrev pub header_x_sampled : String
header_x_sampled = "X-Sampled"
