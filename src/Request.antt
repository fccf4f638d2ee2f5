-- ===== src/Request.antt =====
-- src/request/Request.cpp: a request and its four parts, which the modules below model.
pub mod Init
pub mod Env
pub mod Gpc
pub mod Post
use nawa.Common.{List, Bytes}
use Init.{RequestInit}
use Gpc.{get_source, cookie_source}

pub record Request : Type 0 where
  pub env : List (Bytes × Bytes)
  pub get : Gpc.Gpc
  pub post : Post.Post
  pub cookie : Gpc.Gpc

unfoldable pub make : RequestInit → Request
make init = record {
  env = init.environment;
  get = Gpc.make init get_source;
  post = Post.make init;
  cookie = Gpc.make init cookie_source;
}
