-- ===== src/Connection/State.antt =====
-- The data of a connection, of a cookie (src/connection/Cookie.cpp) and of the session object that a
-- connection owns (`Session::Data` in src/session/Session.cpp).
use nawa.Common.{ℕ, Bool, false, List, Option, none, Bytes}
use nawa.Config.{Config}
use nawa.Request.{Request}

pub data SameSite : Type 0 where
  off lax strict : SameSite

pub record Cookie : Type 0 where
  pub content : Bytes
  pub expires : Option ℕ
  pub max_age : Option ℕ
  pub domain : Option Bytes
  pub path : Option Bytes
  pub secure : Bool
  pub http_only : Bool
  pub same_site : SameSite

abbrev pub new_cookie : Bytes → Cookie
new_cookie content = record {
  content = content;
  expires = none;
  max_age = none;
  domain = none;
  path = none;
  secure = false;
  http_only = false;
  same_site = off;
}

-- `current_data` is a pointer to shared session data, or null while no session is established.
pub record Session : Type 0 where
  pub current_data : Option ℕ
  pub current_id : Bytes
  pub cookie_name : Bytes

pub record Connection : Type 0 where
  pub body_string : Bytes
  pub response_status : ℕ
  pub headers : List (Bytes × List Bytes)
  pub cookies : List (Bytes × Cookie)
  pub cookie_policy : Cookie
  pub is_flushed : Bool
  pub request : Request
  pub session : Session
  pub config : Config
  pub response_stream : Bytes
