-- ===== src/Request/Tests.antt =====
-- A request with a JSON body on a route that consumes XML, and one on a route that consumes JSON.
use yuna.Prelude.{pos, String, Bool, none, [], ◌==◌, inl, inr}
use yuna.World.{null}
use yuna.Sample.{request, world}
use yuna.Request.{NetHttp, HttpRequest}

abbrev http_request : HttpRequest
http_request = record {
  ctx = request.ctx;
  method = "POST";
  url = record { query = [] };
  proto = "HTTP/1.1";
  proto_major = pos 1;
  proto_minor = pos 1;
  header = world.request_header;
  body = "{}";
  content_length = pos 2;
  host = "books";
  remote_addr = "10.0.0.7:4711";
  request_uri = "/books?page=2";
  form = [];
  post_form = [];
  multipart_form = none;
  trailer = [];
}

abbrev net : NetHttp
net = record {
  parse_form = λ r. (r, none);
  form_value = λ key r. ("", r);
  post_form_value = λ key r. ("", r);
  form_file = λ key r. (inr "http: no such file", r);
  cookies = λ r. [];
  cookies_named = λ name r. [];
  cookie = λ name r. inr "http: named cookie not present";
  multipart_reader = λ r. (inr "request Content-Type isn't multipart/form-data", r);
  media_type = λ ct. "application/json";
  decode_body = λ d body. (inl null, "");
  decode_form = λ vs. inl null;
}

abbrev is_error : String → Bool
is_error s = s == ""
