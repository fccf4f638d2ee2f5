-- ===== src/Filter/Types.antt =====
-- The filters of src/filter/AccessFilter and their lists. A compiled regular expression is the test
-- that it makes of a whole text.
use nawa.Common.{ℕ, Bool, List, Option, Bytes}

pub record AccessFilter : Type 0 where
  pub invert : Bool
  pub path_filter : List (List Bytes)
  pub invert_path_filter : Bool
  pub extension_filter : List Bytes
  pub invert_extension_filter : Bool
  pub regex_filter_enabled : Bool
  pub regex_filter : Bytes → Bool
  pub response : Bytes

pub record BlockFilter : Type 0 where
  pub filter : AccessFilter
  pub status : ℕ

-- An empty `std::function` is `none`.
pub record AuthFilter : Type 0 where
  pub filter : AccessFilter
  pub auth_function : Option (Bytes → Bytes → Bool)
  pub auth_name : Bytes
  pub use_sessions : Bool

pub data BasePathExtension : Type 0 where
  by_path by_filename : BasePathExtension

pub record ForwardFilter : Type 0 where
  pub filter : AccessFilter
  pub base_path : Bytes
  pub base_path_extension : BasePathExtension

pub record AccessFilterList : Type 0 where
  pub filters_enabled : Bool
  pub block_filters : List BlockFilter
  pub auth_filters : List AuthFilter
  pub forward_filters : List ForwardFilter
