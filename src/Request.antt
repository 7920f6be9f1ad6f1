-- ===== src/Request.antt =====
-- request.go: what a handler reads of a request. What net/http and the decoders do is a parameter;
-- the query and path parameters are the ones of Param.antt.
pub mod Decoded
mod Tests
use yuna.Prelude.{ℕ, ℤ, String, Bool, ◌||◌, Option, none, some, List, ◌==◌, ◌⊎◌, if◌then◌else◌}
use yuna.Http.Names.{header_content_type}
use yuna.Mime.Names.{
  mime_application_msgpack, mime_application_xml, mime_application_xml_charset_utf8, mime_text_xml,
  mime_text_xml_charset_utf8,
}
use yuna.Text.{to_lower}
use yuna.Http.Header.{Header}
use yuna.Http.Header
use yuna.World.{Any, Context}

-- url.Values, url.URL by its query, what is left of a body, a parsed multipart form and a cookie.
abbrev pub Values : Type 0
Values = List (String × List String)

pub record Url : Type 0 where
  pub query : Values

abbrev pub Body : Type 0
Body = String

abbrev pub MultipartForm : Type 0
MultipartForm = ℕ

abbrev pub Cookie : Type 0
Cookie = String × String

-- http.Request, as far as the accessors read it.
pub record HttpRequest : Type 0 where
  pub ctx : Context
  pub method : String
  pub url : Url
  pub proto : String
  pub proto_major : ℤ
  pub proto_minor : ℤ
  pub header : Header
  pub body : Body
  pub content_length : ℤ
  pub host : String
  pub remote_addr : String
  pub request_uri : String
  pub form : Values
  pub post_form : Values
  pub multipart_form : Option MultipartForm
  pub trailer : Header

pub data Decoder : Type 0 where
  msgpack xml json : Decoder

-- What the accessors call: the methods of http.Request, which may read the body or keep what they
-- parse; the media type that mime.ParseMediaType returns, with an error or without; the decoders of
-- a body, by the value or the error, and by what they leave of it; and the form decoder.
pub record NetHttp : Type 0 where
  pub parse_form : HttpRequest → HttpRequest × Option String
  pub form_value : String → HttpRequest → String × HttpRequest
  pub post_form_value : String → HttpRequest → String × HttpRequest
  pub form_file : String → HttpRequest → (ℕ ⊎ String) × HttpRequest
  pub cookies : HttpRequest → List Cookie
  pub cookies_named : String → HttpRequest → List Cookie
  pub cookie : String → HttpRequest → Cookie ⊎ String
  pub multipart_reader : HttpRequest → (ℕ ⊎ String) × HttpRequest
  pub media_type : String → String
  pub decode_body : Decoder → Body → (Any ⊎ String) × Body
  pub decode_form : Values → Any ⊎ String

pub record YunaRequest : Type 0 where
  pub raw : HttpRequest

unfoldable pub new_request : HttpRequest → YunaRequest
new_request r = record { raw = r }

abbrev with_raw : {A : Type 0} → A × HttpRequest → A × YunaRequest
with_raw (a, r) = (a, record { raw = r })

unfoldable pub header : String → YunaRequest → String
header name r = Header.get name r.raw.header

unfoldable pub raw_request : YunaRequest → HttpRequest
raw_request r = r.raw

unfoldable pub context : YunaRequest → Context
context r = r.raw.ctx

unfoldable pub host : YunaRequest → String
host r = r.raw.host

unfoldable pub proto : YunaRequest → String
proto r = r.raw.proto

unfoldable pub proto_major : YunaRequest → ℤ
proto_major r = r.raw.proto_major

unfoldable pub proto_minor : YunaRequest → ℤ
proto_minor r = r.raw.proto_minor

unfoldable pub content_length : YunaRequest → ℤ
content_length r = r.raw.content_length

unfoldable pub method : YunaRequest → String
method r = r.raw.method

unfoldable pub remote_addr : YunaRequest → String
remote_addr r = r.raw.remote_addr

unfoldable pub body : YunaRequest → Body
body r = r.raw.body

unfoldable pub url : YunaRequest → Url
url r = r.raw.url

unfoldable pub form : YunaRequest → Values
form r = r.raw.form

unfoldable pub post_form : YunaRequest → Values
post_form r = r.raw.post_form

unfoldable pub multipart_form : YunaRequest → Option MultipartForm
multipart_form r = r.raw.multipart_form

unfoldable pub trailer : YunaRequest → Header
trailer r = r.raw.trailer

unfoldable pub request_uri : YunaRequest → String
request_uri r = r.raw.request_uri

-- The switch of Decode, on a media type in lower case.
unfoldable pub decoder_of : String → Decoder
decoder_of media_type =
    if media_type == mime_application_msgpack
    then msgpack
    else if media_type == mime_application_xml
        || media_type == mime_application_xml_charset_utf8
        || media_type == mime_text_xml
        || media_type == mime_text_xml_charset_utf8
    then xml
    else json

module _ (net : NetHttp) where
  unfoldable pub parse_form : YunaRequest → YunaRequest × Option String
  parse_form r = let (raw, err) = net.parse_form r.raw in (record { raw = raw }, err)

  -- The error of ParseForm is dropped.
  unfoldable pub bind : YunaRequest → (Any ⊎ String) × YunaRequest
  bind r =
      let (raw, err) = net.parse_form r.raw in (net.decode_form raw.url.query, record { raw = raw })

  unfoldable pub form_value : String → YunaRequest → String × YunaRequest
  form_value key r = with_raw (net.form_value key r.raw)

  unfoldable pub post_form_value : String → YunaRequest → String × YunaRequest
  post_form_value key r = with_raw (net.post_form_value key r.raw)

  unfoldable pub form_file : String → YunaRequest → (ℕ ⊎ String) × YunaRequest
  form_file key r = with_raw (net.form_file key r.raw)

  unfoldable pub cookies : YunaRequest → List Cookie
  cookies r = net.cookies r.raw

  unfoldable pub cookies_named : String → YunaRequest → List Cookie
  cookies_named name r = net.cookies_named name r.raw

  unfoldable pub cookie : String → YunaRequest → Cookie ⊎ String
  cookie name r = net.cookie name r.raw

  unfoldable pub multipart_reader : YunaRequest → (ℕ ⊎ String) × YunaRequest
  multipart_reader r = with_raw (net.multipart_reader r.raw)

  -- The decoder of a request, by its Content-Type.
  abbrev pub decoder_for : YunaRequest → Decoder
  unfolding decoder_of to_lower
  decoder_for r =
      decoder_of (to_lower (net.media_type (Header.get header_content_type r.raw.header)))

  abbrev decoded : YunaRequest → (Any ⊎ String) × Body → (Any ⊎ String) × YunaRequest
  decoded r (v, rest) = (v, record { raw = record r.raw { body = rest } })

  unfoldable pub decode : YunaRequest → (Any ⊎ String) × YunaRequest
  unfolding decoder_for
  decode r = decoded r (net.decode_body (decoder_for r) r.raw.body)
