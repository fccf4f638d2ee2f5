-- ===== src/Handler/Fastcgi.antt =====
-- `FastcgippRequestAdapter` of src/RequestHandler/impl/FastcgiRequestHandler.cpp: a request as
-- fastcgipp-lite hands it on, and the response to it.
pub mod Laws
use nawa.Common.{
  Bool, true, false, not, ◌&&◌, ◌||◌, List, [], ◌∷◌, ◌++◌, Option, none, some, if◌then◌else◌,
  is_empty, Bytes, codes, beq, map,
}
use nawa.Config.{Config}
use nawa.Config
use nawa.Request.Init.{RequestInit, File}
use nawa.Connection.Response.{Flush, get_full_http}
use nawa.Connection.Status.{get_status_string}
use nawa.Session.Autostart.{ConnectionInit}
use nawa.Handler.Environment.{Variables, fastcgi_environment}

-- `environment()` of a request: the parameters and what the library read from them and the body.
pub record FastcgiRequest : Type 0 where
  pub parameters : Variables
  pub gets : Variables
  pub posts : Variables
  pub cookies : Variables
  pub content_type : Bytes
  pub post_buffer : Bytes
  pub files : List (Bytes × File)

-- `inProcessor`: the raw body that is kept.
unfoldable pub in_processor : FastcgiRequest → Config → Option Bytes
in_processor r config =
    let access = Config.get config (codes "post") (codes "raw_access") in
    let standard =
      beq r.content_type (codes "multipart/form-data")
      || beq r.content_type (codes "application/x-www-form-urlencoded") in
    if is_empty r.content_type
      || (beq access (codes "never") || (not (beq access (codes "always")) && standard))
    then none
    else some r.post_buffer

-- The first half of `response`.
unfoldable pub fastcgi_connection_init : FastcgiRequest → Config → ConnectionInit
fastcgi_connection_init r config = record {
  request_init = record {
    environment = fastcgi_environment r.parameters;
    get_vars = r.gets;
    post_vars = r.posts;
    cookie_vars = r.cookies;
    post_files = r.files;
    raw_post = in_processor r config;
    post_content_type = r.content_type;
  };
  config = config;
}

-- The flush callback: the status line goes before the first flush.
unfoldable pub fastcgi_flush : Flush → Bytes
fastcgi_flush f =
    let status =
      if f.flushed_before then [] else codes "status: " ++ (get_status_string f ++ 13 ∷ 10 ∷ []) in
    status ++ get_full_http f

unfoldable pub dumped : List Flush → Bytes
dumped [] = []
dumped (f ∷ flushes) = fastcgi_flush f ++ dumped flushes
